-- ===== src/Session/Ledger.antt =====
-- The part of the worker's state that promises stand in, and the operations that leave it alone.
use torrent_link.Prelude.{
  ◌==◌, is_empty, ◌||◌, if◌then◌else◌, ℕ, ◌≡◌, ◌∙◌, refl, arith, Option, List, [], ◌∷◌, Bool,
  Option-cases, Bool-cases, inl, inr, nat_key, Bytes, String, ℤ,
}
use torrent_link.Prelude.Assoc.{Assoc, lookup, put}
use torrent_link.Types.{TaskId}
use torrent_link.Session.{
  Handle, Promise, World, Worker, Answer, PendingMagnetMetaEntry, HandleCall, AddTorrentOptions,
  FilePriorityLevel, set_max_connections, call, valid_handle,
}
use torrent_link.Session.Adding.{
  add_magnet, drop_handle, finalize_prepared_magnet, add_torrent_file, add_from_resume_data,
}
use torrent_link.Session.Control.{
  clamp_connections, tell_all, on_known, on_valid, remove_task, on_each_valid,
  set_task_file_priority, change_trackers, force_reannounce_tracker, set_default_connections_limit,
  set_task_connections_limit,
}
use torrent_link.Session.Files.{
  end_pieces, rename_calls, renamed_root, set_first_last_piece_priority, rename_task_file_or_folder,
}
use torrent_link.Session.Alerts.{
  fetch_calls, configure_for_fetch, start_added, use_add_opts, limit_connections, limit_uploads,
  torrent_added,
}
use torrent_link.Session.Loop.{post_updates}

pub record Ledger : Type 0 where
  pub metas : Assoc TaskId PendingMagnetMetaEntry
  pub saving : Option Promise
  pub counting : Option Promise
  pub given : List (Promise × Answer)
  pub saves_left : ℤ
  pub written : ℕ
  pub save_dir : String

abbrev pub ledger : Worker → Ledger
ledger w = record {
  metas = w.pending_magnet_meta;
  saving = w.resume_data_done;
  counting = w.pending_session_stats;
  given = w.answers;
  saves_left = w.pending_resume_data_saves;
  written = w.completed_resume_data_saves;
  save_dir = w.resume_data_dir;
}

pub ledger-tell_all :
    (h : Handle) (cs : List HandleCall) (w : Worker) → ledger (tell_all h cs w) ≡ ledger w
unfolding tell_all call
ledger-tell_all h [] w = refl
ledger-tell_all h (c ∷ cs) w = ledger-tell_all h cs _

pub ledger-on_known :
    (id : TaskId) (cs : List HandleCall) (w : Worker) → ledger (on_known id cs w) ≡ ledger w
unfolding on_known
ledger-on_known id cs w = elim (Option-cases (lookup id w.handles_by_task_id)) [
  | inl e ↦ rw (e, on_known)
  | inr (h, e) ↦ rw (e, on_known) (ledger-tell_all h cs w)
]

pub ledger-remove_task :
    (id : TaskId) (files : Bool) (w : Worker) → ledger (remove_task id files w) ≡ ledger w
unfolding remove_task call
ledger-remove_task id files w = ground arith

module _ (world : World) where
  pub ledger-on_valid :
      (id : TaskId) (cs : List HandleCall) (w : Worker) → ledger (on_valid world id cs w) ≡ ledger w
  unfolding on_valid
  ledger-on_valid id cs w = elim (Option-cases (valid_handle world id w)) [
    | inl e ↦ rw (e, on_valid)
    | inr (h, e) ↦ rw (e, on_valid) (ledger-tell_all h cs w)
  ]

  pub ledger-on_each_valid :
      (c : HandleCall) (hs : List (TaskId × Handle)) (w : Worker)
      → ledger (on_each_valid world c hs w) ≡ ledger w
  unfolding on_each_valid call
  ledger-on_each_valid c [] w = refl
  ledger-on_each_valid c ((id, h) ∷ hs) w = ledger-on_each_valid c hs _ ∙ ground arith

  pub ledger-set_task_file_priority :
      (id : TaskId) (files : List ℤ) (level : FilePriorityLevel) (w : Worker)
      → ledger (set_task_file_priority world id files level w) ≡ ledger w
  unfolding set_task_file_priority call tell_all
  ledger-set_task_file_priority id files level w = ground arith

  pub ledger-change_trackers :
      (change : List String → List String) (id : TaskId) (w : Worker)
      → ledger (change_trackers world change id w) ≡ ledger w
  unfolding change_trackers call
  ledger-change_trackers change id w = ground arith

  pub ledger-force_reannounce_tracker :
      (id : TaskId) (url : String) (w : Worker)
      → ledger (force_reannounce_tracker world id url w) ≡ ledger w
  unfolding force_reannounce_tracker call
  ledger-force_reannounce_tracker id url w = ground arith

  pub ledger-set_first_last_piece_priority :
      (id : TaskId) (enabled : Bool) (w : Worker)
      → ledger (set_first_last_piece_priority world id enabled w) ≡ ledger w
  unfolding set_first_last_piece_priority
  ledger-set_first_last_piece_priority id enabled w =
      elim (Option-cases (valid_handle world id w)) [
        | inl e ↦ rw (e, set_first_last_piece_priority) refl
        | inr (h, e) ↦ elim (Option-cases (world.torrent_file h)) [
          | inl f ↦ rw (e, f, set_first_last_piece_priority) refl
          | inr (ti, f) ↦ elim (Bool-cases (world.num_pieces ti == 0)) [
            | inl k ↦ rw (e, f, k, set_first_last_piece_priority) refl
            | inr k ↦
                rw (e, f, k, set_first_last_piece_priority)
                  (ledger-tell_all h (end_pieces world ti (if enabled then 7 else 4) 0 ti.files) w)
          ]
        ]
      ]

  pub ledger-rename_task_file_or_folder :
      (id : TaskId) (path name : String) (w : Worker)
      → ledger (rename_task_file_or_folder world id path name w) ≡ ledger w
  unfolding rename_task_file_or_folder
  ledger-rename_task_file_or_folder id path name w =
      let src : String = world.qt.trimmed path in
      let target : String = world.qt.trimmed name in
      elim (Option-cases (valid_handle world id w)) [
        | inl e ↦ rw (e, rename_task_file_or_folder) refl
        | inr (h, e) ↦ elim (Option-cases (world.torrent_file h)) [
          | inl f ↦ rw (e, f, rename_task_file_or_folder) refl
          | inr (ti, f) ↦ elim (Bool-cases (is_empty src || is_empty target)) [
            | inl k ↦ rw (e, f, k, rename_task_file_or_folder) refl
            | inr k ↦
                rw (e, f, k, rename_task_file_or_folder)
                  (ledger-tell_all h
                    (rename_calls world src (renamed_root world src target) 0 ti.files) w)
          ]
        ]
      ]

  pub ledger-add_magnet :
      (uri path : String) (trackers : List String) (w : Worker)
      → ledger (add_magnet world uri path trackers w) ≡ ledger w
  unfolding add_magnet call
  ledger-add_magnet uri path trackers w = ground arith

  pub ledger-drop_handle : (id : TaskId) (w : Worker) → ledger (drop_handle world id w) ≡ ledger w
  unfolding drop_handle call
  ledger-drop_handle id w = ground arith

  pub ledger-finalize_prepared_magnet :
      (id : TaskId) (path : String) (trackers : List String) (opts : AddTorrentOptions) (w : Worker)
      → ledger (finalize_prepared_magnet world id path trackers opts w) ≡ ledger w
  unfolding finalize_prepared_magnet call
  ledger-finalize_prepared_magnet id path trackers opts w = ground (arith, ledger-drop_handle id w)

  pub ledger-add_torrent_file :
      (file path : String) (trackers : List String) (opts : Option AddTorrentOptions) (w : Worker)
      → ledger (add_torrent_file world file path trackers opts w) ≡ ledger w
  unfolding add_torrent_file call
  ledger-add_torrent_file file path trackers opts w = ground arith

  pub ledger-add_from_resume_data :
      (data' : Bytes) (paused : Bool) (w : Worker)
      → ledger (add_from_resume_data world data' paused w) ≡ ledger w
  unfolding add_from_resume_data call
  ledger-add_from_resume_data [] paused w = refl
  ledger-add_from_resume_data (b ∷ bs) paused w = ground arith

  pub ledger-configure_for_fetch :
      (h : Handle) (w : Worker) → ledger (configure_for_fetch world h w) ≡ ledger w
  unfolding configure_for_fetch
  ledger-configure_for_fetch h w = elim (Bool-cases (world.is_valid h)) [
    | inl e ↦ rw (e, configure_for_fetch) (ledger-tell_all h (fetch_calls world h) w)
    | inr e ↦ rw (e, configure_for_fetch)
  ]

  ledger-start_added :
      (key : TaskId) (h : Handle) (w : Worker) → ledger (start_added world key h w) ≡ ledger w
  unfolding start_added call
  ledger-start_added key h w = ground (arith, ledger-configure_for_fetch h w)

  ledger-use_add_opts :
      (key : TaskId) (h : Handle) (w : Worker) → ledger (use_add_opts world key h w) ≡ ledger w
  unfolding use_add_opts call
  ledger-use_add_opts key h w = ground arith

  ledger-limit_connections :
      (key : TaskId) (h : Handle) (w : Worker) → ledger (limit_connections world key h w) ≡ ledger w
  unfolding limit_connections call
  ledger-limit_connections key h w = ground arith

  ledger-limit_uploads : (h : Handle) (w : Worker) → ledger (limit_uploads world h w) ≡ ledger w
  unfolding limit_uploads call
  ledger-limit_uploads h w = ground arith

  pub ledger-torrent_added :
      (key : TaskId) (h : Handle) (w : Worker) → ledger (torrent_added world key h w) ≡ ledger w
  unfolding torrent_added
  ledger-torrent_added key h w =
      let w1 : Worker = record w { handles_by_task_id = put key h w.handles_by_task_id } in
      let w2 : Worker = start_added world key h w1 in
      let w3 : Worker = use_add_opts world key h w2 in
      ledger-limit_uploads h (limit_connections world key h w3)
      ∙ ledger-limit_connections key h w3
      ∙ ledger-use_add_opts key h w2
      ∙ ledger-start_added key h w1

  pub ledger-set_default_connections_limit :
      (limit : ℤ) (w : Worker) → ledger (set_default_connections_limit world limit w) ≡ ledger w
  unfolding set_default_connections_limit
  ledger-set_default_connections_limit limit w =
      ledger-on_each_valid (set_max_connections (clamp_connections limit)) w.handles_by_task_id
        (record w { default_connections_limit = clamp_connections limit })

  pub ledger-set_task_connections_limit :
      (id : TaskId) (limit : ℤ) (w : Worker)
      → ledger (set_task_connections_limit world id limit w) ≡ ledger w
  unfolding set_task_connections_limit
  ledger-set_task_connections_limit id limit w =
      ledger-on_valid id (set_max_connections (clamp_connections limit) ∷ []) (record w {
        per_task_connections_limit = put id (clamp_connections limit) w.per_task_connections_limit;
      })

pub ledger-post_updates : (w : Worker) → ledger (post_updates w) ≡ ledger w
unfolding post_updates call
ledger-post_updates w = ground arith
