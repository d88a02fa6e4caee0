-- ===== src/Session/Alerts.antt =====
-- The alerts of SessionWorker::Impl::run in lt/session_worker.cc, with tryFulfillPendingMagnetMeta and
-- pollPendingMagnetMetadata.
use torrent_link.Prelude.{
  ℤ, pos, negsuc, ◌+ℤ◌, suc, ◌==◌, Bool, true, false, not, ◌&&◌, String, is_empty, Option, none,
  some, List, [], ◌∷◌, map, if◌then◌else◌, nat_key,
}
use torrent_link.Prelude.Assoc.{lookup, put, erase}
use torrent_link.Types.{TaskId}
use torrent_link.Session.{
  Handle, Promise, World, Worker, TorrentInfo, MagnetMetadata, SessionStats, PendingMagnetMetaEntry,
  HandleCall, set_flag, unset_flag, auto_managed_flag, upload_mode_flag, paused_flag, resume,
  queue_position_top, set_max_connections, set_max_uploads, Answer, no_metadata, metadata, saved,
  stats, call, tell, fulfil, valid_handle,
}
use torrent_link.Session.Control.{tell_all}

pub data Alert : Type 0 where
  -- The sums of the rates over the session's torrents are part of the argument.
  session_stats_alert : SessionStats → Alert
  metadata_received_alert : Handle → Alert
  metadata_failed_alert : Handle → Alert
  -- The flag says whether the file could be opened for writing.
  save_resume_data_alert : Bool → Alert
  save_resume_data_failed_alert : Alert
  -- The error flag, the info hashes, the handle.
  add_torrent_alert : Bool → String → Handle → Alert
  torrent_removed_alert : String → Alert
  other_alert : Alert

-- `n <= 0`
abbrev pub is_at_most_zero : ℤ → Bool
is_at_most_zero (pos n) = n == 0
is_at_most_zero (negsuc n) = true

-- The promise of saveAllResumeData gets the number of the files written.
unfoldable pub finish_saves : Option Promise → Worker → Worker
unfolding fulfil
finish_saves none w = w
finish_saves (some p) w =
    fulfil p (saved w.completed_resume_data_saves) (record w { resume_data_done = none })

unfoldable pub close_saves : ℤ → Worker → Worker
unfolding finish_saves
close_saves n w =
    let w' = record w { pending_resume_data_saves = n } in
    if is_at_most_zero n then finish_saves w.resume_data_done w' else w'

-- One save is over, well or not.
unfoldable pub save_done : Worker → Worker
unfolding close_saves
save_done w = close_saves (w.pending_resume_data_saves +ℤ negsuc 0) w

-- The file is written if there is a directory and the file could be opened.
unfoldable pub note_written : Bool → Worker → Worker
note_written opened w = record w {
  completed_resume_data_saves =
      if not (is_empty w.resume_data_dir) && opened
      then suc w.completed_resume_data_saves
      else w.completed_resume_data_saves;
}

unfoldable pub answer_stats : SessionStats → Option Promise → Worker → Worker × Bool
unfolding fulfil
answer_stats s none w = (w, true)
answer_stats s (some p) w = (fulfil p (stats s) (record w { pending_session_stats = none }), false)

module _ (world : World) where
  unfoldable pub total_bytes : List (String × ℤ) → ℤ
  total_bytes [] = pos 0
  total_bytes ((path, size) ∷ fs) = size +ℤ total_bytes fs

  abbrev text_or_empty : Option String → String
  text_or_empty none = ""
  text_or_empty (some s) = s

  -- fillMagnetMetadataFromTorrentInfo, with the name for a torrent that has none.
  unfoldable pub magnet_metadata :
      TaskId → TaskId → PendingMagnetMetaEntry → TorrentInfo → MagnetMetadata
  unfolding total_bytes
  magnet_metadata id key entry ti =
      let name = world.qt.trimmed ti.name in
      record {
        task_id = id;
        name =
            if is_empty (world.qt.trimmed name)
            then world.display_name entry.magnet_uri key
            else name;
        total_bytes = total_bytes ti.files;
        creation_date = ti.creation_date;
        info_hash_v1 = text_or_empty ti.info_hash_v1;
        info_hash_v2 = text_or_empty ti.info_hash_v2;
        comment = ti.comment;
        file_paths = map (λ f. f.0) ti.files;
        file_sizes = map (λ f. f.1) ti.files;
        exported_torrent_path = world.exported_path ti entry.temp_save_path key;
      }

  -- The torrent file of a handle, or the one with hashes.
  unfoldable pub torrent_file_of : Handle → Option TorrentInfo
  torrent_file_of h = elim (world.torrent_file h) [
    | none ↦ world.torrent_file_with_hashes h
    | some ti ↦ some ti
  ]

  -- Metadata without files are no metadata.
  abbrev pub metadata_answer : TaskId → Handle → PendingMagnetMetaEntry → TorrentInfo → Answer
  metadata_answer key h entry ti = elim ti.files [
    | [] ↦ no_metadata
    | f ∷ fs ↦ metadata (magnet_metadata (world.task_id_from (world.handle_hashes h)) key entry ti)
  ]

  -- The promise gets its value, and its entry goes.
  unfoldable pub settle_entry :
      TaskId → Handle → PendingMagnetMetaEntry → Promise → Option TorrentInfo → Worker → Worker
  unfolding magnet_metadata fulfil
  settle_entry key h entry done none w =
      fulfil done no_metadata (record w { pending_magnet_meta = erase key w.pending_magnet_meta })
  settle_entry key h entry done (some ti) w =
      fulfil done (metadata_answer key h entry ti) (record w {
        pending_magnet_meta = erase key w.pending_magnet_meta;
        prepared_torrent_info = put key ti w.prepared_torrent_info;
      })

  -- tryFulfillPendingMagnetMeta once the entry and its promise are there.
  unfoldable pub answer_metadata :
      TaskId → Handle → PendingMagnetMetaEntry → Promise → Worker → Worker
  unfolding torrent_file_of settle_entry
  answer_metadata key h entry done w =
      if world.is_valid h && world.has_metadata h
      then settle_entry key h entry done (torrent_file_of h) w
      else w

  unfoldable pub try_fulfill : TaskId → Handle → Worker → Worker
  unfolding answer_metadata
  try_fulfill key h w = elim (lookup key w.pending_magnet_meta) [
    | none ↦ w
    | some entry ↦ elim entry.done [ none ↦ w | some done ↦ answer_metadata key h entry done w ]
  ]

  abbrev pub fetch_calls : Handle → List HandleCall
  fetch_calls h =
      unset_flag auto_managed_flag
      ∷ unset_flag paused_flag
      ∷ set_flag upload_mode_flag
      ∷ (if world.is_paused h then resume ∷ [] else [])

  unfoldable pub configure_for_fetch : Handle → Worker → Worker
  unfolding tell_all
  configure_for_fetch h w = if world.is_valid h then tell_all h (fetch_calls h) w else w

  -- The loop of pollPendingMagnetMetadata over the keys.
  unfoldable pub poll_keys : List TaskId → Worker → Worker
  unfolding configure_for_fetch try_fulfill valid_handle
  poll_keys [] w = w
  poll_keys (key ∷ keys) w = poll_keys keys (elim (lookup key w.pending_magnet_meta) [
    | none ↦ w
    | some entry ↦ elim (valid_handle world key w) [
      | none ↦ w
      | some h ↦ try_fulfill key h (configure_for_fetch h w)
    ]
  ])

  unfoldable pub poll_pending_magnet_metadata : Worker → Worker
  unfolding poll_keys
  poll_pending_magnet_metadata w = poll_keys (map (λ e. e.0) w.pending_magnet_meta) w

  unfoldable pub metadata_failed : Handle → Worker → Worker
  unfolding fulfil
  metadata_failed h w =
      let key = world.task_id_from (world.handle_hashes h) in
      elim (lookup key w.pending_magnet_meta) [
        | none ↦ w
        | some entry ↦ elim entry.done [
          | none ↦ w
          | some done ↦
              fulfil done no_metadata
                (record w { pending_magnet_meta = erase key w.pending_magnet_meta })
        ]
      ]

  -- A handle that has just been added, in steps.
  unfoldable pub start_added : TaskId → Handle → Worker → Worker
  unfolding configure_for_fetch call
  start_added key h w = elim (lookup key w.pending_magnet_meta) [
    | none ↦ tell h resume w
    | some entry ↦ configure_for_fetch h w
  ]

  unfoldable pub use_add_opts : TaskId → Handle → Worker → Worker
  unfolding call
  use_add_opts key h w = elim (lookup key w.pending_add_opts) [
    | none ↦ w
    | some opts ↦
        let told = if opts.add_to_top_queue then tell h queue_position_top w else w in
        record told { pending_add_opts = erase key told.pending_add_opts }
  ]

  unfoldable pub limit_connections : TaskId → Handle → Worker → Worker
  unfolding call
  limit_connections key h w = elim (lookup key w.per_task_connections_limit) [
    | none ↦
        if w.default_connections_limit == 0
        then w
        else tell h (set_max_connections w.default_connections_limit) w
    | some limit ↦ tell h (set_max_connections limit) w
  ]

  unfoldable pub limit_uploads : Handle → Worker → Worker
  unfolding call
  limit_uploads h w =
      if world.upload_slots_limit == 0
      then w
      else tell h (set_max_uploads world.upload_slots_limit) w

  unfoldable pub torrent_added : TaskId → Handle → Worker → Worker
  unfolding start_added use_add_opts limit_connections limit_uploads
  torrent_added key h w = limit_uploads h (
      limit_connections key h (
        use_add_opts key h
          (start_added key h (record w { handles_by_task_id = put key h w.handles_by_task_id }))))

  unfoldable pub torrent_removed : TaskId → Worker → Worker
  torrent_removed key w = record w {
    handles_by_task_id = erase key w.handles_by_task_id;
    per_task_connections_limit = erase key w.per_task_connections_limit;
    pending_add_opts = erase key w.pending_add_opts;
  }

  -- One alert. The flag says that it goes on to the views.
  unfoldable pub handle_alert : Alert → Worker → Worker × Bool
  handle_alert (session_stats_alert s) w = answer_stats s w.pending_session_stats w
  handle_alert (metadata_received_alert h) w =
      (try_fulfill (world.task_id_from (world.handle_hashes h)) h w, false)
  handle_alert (metadata_failed_alert h) w = (metadata_failed h w, false)
  handle_alert (save_resume_data_alert opened) w = (save_done (note_written opened w), false)
  handle_alert save_resume_data_failed_alert w = (save_done w, false)
  handle_alert (add_torrent_alert true hashes h) w = (w, true)
  handle_alert (add_torrent_alert false hashes h) w =
      (torrent_added (world.task_id_from hashes) h w, true)
  handle_alert (torrent_removed_alert hashes) w =
      (torrent_removed (world.task_id_from hashes) w, true)
  handle_alert other_alert w = (w, true)
