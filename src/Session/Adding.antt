-- ===== src/Session/Adding.antt =====
-- lt/session_ops_add.cc.
use torrent_link.Prelude.{
  Bool, true, false, not, ◌||◌, String, Option, none, some, List, [], ◌∷◌, ◌++◌, if◌then◌else◌,
  nat_key, Bytes,
}
use torrent_link.Prelude.Assoc.{lookup, put, erase}
use torrent_link.Types.{TaskId}
use torrent_link.Base.Errors.{has_error}
use torrent_link.Base.Input.{validate_magnet_uri, validate_torrent_file_path, sanitize_trackers}
use torrent_link.Session.{
  Promise, World, Worker, TorrentInfo, Flags, AddTorrentParams, AddTorrentOptions,
  async_add_torrent, remove_torrent, no_metadata, PendingMagnetMetaEntry, call, fulfil,
  valid_handle,
}

module _ (world : World) where
  unfoldable pub has_active_task_for_info_hashes : String → Worker → Bool
  unfolding valid_handle
  has_active_task_for_info_hashes hashes w =
      elim (valid_handle world (world.task_id_from hashes) w) [ none ↦ false | some h ↦ true ]

  unfoldable pub emit_duplicate_rejected : String → Worker → Worker
  emit_duplicate_rejected hashes w = record w {
    rejected = w.rejected ++ world.task_id_from hashes ∷ [];
  }

  abbrev add_trackers : List String → AddTorrentParams → AddTorrentParams
  add_trackers trackers atp = record atp {
    trackers = atp.trackers ++ sanitize_trackers world.qt trackers;
  }

  unfoldable pub add_magnet : String → String → List String → Worker → Worker
  unfolding has_active_task_for_info_hashes emit_duplicate_rejected call
  add_magnet uri save_path trackers w =
      let trimmed = world.qt.trimmed uri in
      if has_error (validate_magnet_uri world.qt trimmed)
      then w
      else (elim (world.parse_magnet_uri trimmed) [
        | none ↦ w
        | some atp ↦
            if has_active_task_for_info_hashes atp.info_hashes w
            then emit_duplicate_rejected atp.info_hashes w
            else call
                (async_add_torrent (
                  add_trackers trackers (record atp {
                    save_path = save_path;
                    flags = record atp.flags { auto_managed = true };
                  })))
                w
      ])

  -- `flags = upload_mode`, and neither auto_managed nor paused.
  abbrev metadata_flags : Flags
  metadata_flags = record {
    auto_managed = false;
    paused = false;
    upload_mode = true;
    stop_when_ready = false;
    sequential_download = false;
    no_verify_files = false;
  }

  -- PrepareMagnetMetadata once `done` is known not to be null.
  unfoldable pub prepare_with : Promise → String → String → List String → Worker → Worker
  unfolding has_active_task_for_info_hashes emit_duplicate_rejected call fulfil
  prepare_with done uri temp_save_path trackers w =
      let trimmed = world.qt.trimmed uri in
      if has_error (validate_magnet_uri world.qt trimmed)
      then fulfil done no_metadata w
      else (elim (world.parse_magnet_uri trimmed) [
        | none ↦ fulfil done no_metadata w
        | some atp ↦
            if has_active_task_for_info_hashes atp.info_hashes w
            then fulfil done no_metadata (emit_duplicate_rejected atp.info_hashes w)
            else let entry : PendingMagnetMetaEntry = record {
              done = some done;
              temp_save_path = temp_save_path;
              magnet_uri = trimmed;
            } in
              call
                (async_add_torrent (
                  add_trackers trackers
                    (record atp { save_path = temp_save_path; flags = metadata_flags })))
                (record w {
                  pending_magnet_meta =
                      put (world.task_id_from atp.info_hashes) entry w.pending_magnet_meta;
                })
      ])

  unfoldable pub prepare_magnet_metadata :
      Option Promise → String → String → List String → Worker → Worker
  unfolding prepare_with
  prepare_magnet_metadata none uri temp_save_path trackers w = w
  prepare_magnet_metadata (some done) uri temp_save_path trackers w =
      prepare_with done uri temp_save_path trackers w

  -- `remove_torrent` on the task's handle, if there is one, and the handle is forgotten.
  unfoldable pub drop_handle : TaskId → Worker → Worker
  unfolding call
  drop_handle id w = elim (lookup id w.handles_by_task_id) [
    | none ↦ w
    | some h ↦
        call (remove_torrent h false)
          (record w { handles_by_task_id = erase id w.handles_by_task_id })
  ]

  unfoldable pub cancel_prepared_magnet : TaskId → Worker → Worker
  unfolding drop_handle
  cancel_prepared_magnet id w =
      let w' = drop_handle id w in
      record w' {
        prepared_torrent_info = erase id w'.prepared_torrent_info;
        pending_magnet_meta = erase id w'.pending_magnet_meta;
      }

  -- The options that become flags and file priorities.
  unfoldable pub with_options : AddTorrentOptions → AddTorrentParams → AddTorrentParams
  with_options opts atp = record atp {
    flags = record atp.flags {
      paused = atp.flags.paused || not opts.start_torrent;
      stop_when_ready = atp.flags.stop_when_ready || opts.stop_when_ready;
      sequential_download = atp.flags.sequential_download || opts.sequential_download;
      no_verify_files = atp.flags.no_verify_files || opts.skip_hash_check;
    };
    file_priorities = elim opts.file_priorities [ [] ↦ atp.file_priorities | p ∷ ps ↦ p ∷ ps ];
  }

  -- The parameters for a torrent whose metadata are at hand.
  abbrev params_for : TorrentInfo → String → List String → AddTorrentParams
  params_for ti save_path trackers =
      let atp = world.default_params in
      add_trackers trackers (record atp {
        ti = some ti;
        save_path = save_path;
        flags = record atp.flags { auto_managed = true };
      })

  unfoldable pub finalize_prepared_magnet :
      TaskId → String → List String → AddTorrentOptions → Worker → Worker
  unfolding drop_handle with_options call
  finalize_prepared_magnet id save_path trackers opts w = elim (lookup id w.prepared_torrent_info) [
    | none ↦ w
    | some ti ↦
        let w' = drop_handle id w in
        call (async_add_torrent (with_options opts (params_for ti save_path trackers))) (record w' {
          pending_add_opts = put id opts w'.pending_add_opts;
          prepared_torrent_info = erase id w'.prepared_torrent_info;
        })
  ]

  -- `opts` is none without `has_opts`.
  unfoldable pub add_torrent_file :
      String → String → List String → Option AddTorrentOptions → Worker → Worker
  unfolding has_active_task_for_info_hashes emit_duplicate_rejected with_options call
  add_torrent_file file_path save_path trackers opts w =
      if has_error (validate_torrent_file_path world.qt file_path)
      then w
      else (elim (world.load_torrent_file file_path) [
        | none ↦ w
        | some ti ↦
            if has_active_task_for_info_hashes ti.info_hashes w
            then emit_duplicate_rejected ti.info_hashes w
            else elim opts [
              | none ↦ call (async_add_torrent (params_for ti save_path trackers)) w
              | some o ↦
                  call (async_add_torrent (with_options o (params_for ti save_path trackers)))
                    (record w {
                      pending_add_opts =
                          put (world.task_id_from ti.info_hashes) o w.pending_add_opts;
                    })
            ]
      ])

  unfoldable pub add_from_resume_data : Bytes → Bool → Worker → Worker
  unfolding has_active_task_for_info_hashes emit_duplicate_rejected call
  add_from_resume_data [] start_paused w = w
  add_from_resume_data (b ∷ bs) start_paused w = elim (world.read_resume_data (b ∷ bs)) [
    | none ↦ w
    | some atp ↦
        if has_active_task_for_info_hashes atp.info_hashes w
        then emit_duplicate_rejected atp.info_hashes w
        else call
            (async_add_torrent (record atp {
              flags = record atp.flags { paused = start_paused; auto_managed = not start_paused };
            }))
            w
  ]
