-- ===== src/Session/Quiet.antt =====
-- The commands that leave alone the part of the state that promises stand in.
use torrent_link.Prelude.{
  ◌≡◌, subst, Option, none, some, [], ◌∷◌, ◌++◌, Bool, true, false, nat_key, if◌then◌else◌,
}
use torrent_link.Session.{
  World, Worker, set_flag, unset_flag, auto_managed_flag, sequential_flag, pause, resume,
  queue_position_top, queue_position_up, queue_position_down, queue_position_bottom, force_recheck,
  force_reannounce, move_storage, replace_trackers,
}
use torrent_link.Session.Control.{
  pause_task, resume_task, move_storage_of, edit_trackers, set_sequential_download,
  set_auto_managed, force_start, entries_of, remaining_urls, edited_urls, add_task_tracker,
  edit_task_tracker, remove_task_tracker,
}
use torrent_link.Session.Cmds.{
  Cmd, set_first_last_piece_priority_cmd, rename_task_file_or_folder_cmd, add_from_resume_data_cmd,
  add_magnet_cmd, add_task_tracker_cmd, add_torrent_file_cmd, cancel_prepared_magnet_cmd,
  edit_task_tracker_cmd, edit_trackers_cmd, finalize_prepared_magnet_cmd,
  force_reannounce_all_trackers_cmd, force_reannounce_cmd, force_reannounce_tracker_cmd,
  force_recheck_cmd, force_start_cmd, move_storage_cmd, pause_cmd, prepare_magnet_metadata_cmd,
  query_session_stats_cmd, query_task_cmd, queue_position_bottom_cmd, queue_position_down_cmd,
  queue_position_top_cmd, queue_position_up_cmd, remove_cmd, remove_task_tracker_cmd, resume_cmd,
  save_all_resume_data_cmd, set_auto_managed_cmd, set_default_connections_limit_cmd,
  set_sequential_download_cmd, set_task_connections_limit_cmd, set_task_file_priority_cmd,
  shutdown_cmd, handle_cmd,
}
use torrent_link.Session.Ledger.{
  Ledger, ledger, ledger-set_first_last_piece_priority, ledger-rename_task_file_or_folder,
  ledger-on_known, ledger-remove_task, ledger-on_valid, ledger-set_task_file_priority,
  ledger-change_trackers, ledger-force_reannounce_tracker, ledger-add_magnet,
  ledger-finalize_prepared_magnet, ledger-add_torrent_file, ledger-add_from_resume_data,
  ledger-set_default_connections_limit, ledger-set_task_connections_limit,
}

abbrev pub is_quiet : Cmd → Bool
is_quiet (prepare_magnet_metadata_cmd uri path trackers promise) = false
is_quiet (cancel_prepared_magnet_cmd id) = false
is_quiet (save_all_resume_data_cmd dir promise) = false
is_quiet (query_task_cmd id promise) = false
is_quiet (query_session_stats_cmd promise) = false
is_quiet _ = true

abbrev ledger_or : Ledger → Option Worker → Ledger
ledger_or l none = l
ledger_or l (some w) = ledger w

same_worker : {l : Ledger} {x y : Worker} → ledger x ≡ l → some x ≡ some y → ledger y ≡ l
same_worker {l} {x} {y} same e = subst (λ o. ledger_or l o ≡ l) e same

module _ (world : World) (w w' : Worker) where
  pub handle_cmd-ledger :
      (c : Cmd) → is_quiet c ≡ true → handle_cmd world c w ≡ some w' → ledger w' ≡ ledger w
  unfolding handle_cmd pause_task resume_task move_storage_of edit_trackers set_sequential_download
      set_auto_managed force_start add_task_tracker edit_task_tracker remove_task_tracker
  handle_cmd-ledger (add_magnet_cmd uri path trackers) q e =
      same_worker (ledger-add_magnet world uri path trackers w) e
  handle_cmd-ledger (finalize_prepared_magnet_cmd id path trackers opts) q e =
      same_worker (ledger-finalize_prepared_magnet world id path trackers opts w) e
  handle_cmd-ledger (add_torrent_file_cmd file path trackers opts) q e =
      same_worker (ledger-add_torrent_file world file path trackers opts w) e
  handle_cmd-ledger (add_from_resume_data_cmd bytes paused) q e =
      same_worker (ledger-add_from_resume_data world bytes paused w) e
  handle_cmd-ledger (pause_cmd id) q e =
      same_worker (ledger-on_known id (unset_flag auto_managed_flag ∷ pause ∷ []) w) e
  handle_cmd-ledger (resume_cmd id) q e =
      same_worker
        (ledger-on_valid world id (set_flag auto_managed_flag ∷ resume ∷ queue_position_top ∷ []) w)
        e
  handle_cmd-ledger (force_recheck_cmd id) q e =
      same_worker (ledger-on_valid world id (force_recheck ∷ []) w) e
  handle_cmd-ledger (force_reannounce_cmd id) q e =
      same_worker (ledger-on_valid world id (force_reannounce ∷ []) w) e
  handle_cmd-ledger (force_start_cmd id) q e =
      same_worker (ledger-on_valid world id (unset_flag auto_managed_flag ∷ resume ∷ []) w) e
  handle_cmd-ledger (queue_position_up_cmd id) q e =
      same_worker (ledger-on_valid world id (queue_position_up ∷ []) w) e
  handle_cmd-ledger (queue_position_down_cmd id) q e =
      same_worker (ledger-on_valid world id (queue_position_down ∷ []) w) e
  handle_cmd-ledger (queue_position_top_cmd id) q e =
      same_worker (ledger-on_valid world id (queue_position_top ∷ []) w) e
  handle_cmd-ledger (queue_position_bottom_cmd id) q e =
      same_worker (ledger-on_valid world id (queue_position_bottom ∷ []) w) e
  handle_cmd-ledger (force_reannounce_all_trackers_cmd id) q e =
      same_worker (ledger-on_valid world id (force_reannounce ∷ []) w) e
  handle_cmd-ledger (remove_cmd id files) q e = same_worker (ledger-remove_task id files w) e
  handle_cmd-ledger (set_sequential_download_cmd id on) q e =
      same_worker
        (ledger-on_valid world id
          ((if on then set_flag sequential_flag else unset_flag sequential_flag) ∷ []) w)
        e
  handle_cmd-ledger (set_auto_managed_cmd id on) q e =
      same_worker
        (ledger-on_valid world id
          ((if on then set_flag auto_managed_flag else unset_flag auto_managed_flag) ∷ []) w)
        e
  handle_cmd-ledger (move_storage_cmd id path) q e =
      same_worker (ledger-on_known id (move_storage path ∷ []) w) e
  handle_cmd-ledger (edit_trackers_cmd id trackers) q e =
      same_worker (ledger-on_known id (replace_trackers (entries_of world trackers) ∷ []) w) e
  handle_cmd-ledger (set_task_file_priority_cmd id files level) q e =
      same_worker (ledger-set_task_file_priority world id files level w) e
  handle_cmd-ledger (add_task_tracker_cmd id url) q e =
      same_worker (ledger-change_trackers world (λ urls. urls ++ url ∷ []) id w) e
  handle_cmd-ledger (remove_task_tracker_cmd id url) q e =
      same_worker (ledger-change_trackers world (remaining_urls world url) id w) e
  handle_cmd-ledger (force_reannounce_tracker_cmd id url) q e =
      same_worker (ledger-force_reannounce_tracker world id url w) e
  handle_cmd-ledger (edit_task_tracker_cmd id old new) q e =
      same_worker (ledger-change_trackers world (edited_urls world old new) id w) e
  handle_cmd-ledger (set_default_connections_limit_cmd limit) q e =
      same_worker (ledger-set_default_connections_limit world limit w) e
  handle_cmd-ledger (set_task_connections_limit_cmd id limit) q e =
      same_worker (ledger-set_task_connections_limit world id limit w) e
  handle_cmd-ledger (set_first_last_piece_priority_cmd id enabled) q e =
      same_worker (ledger-set_first_last_piece_priority world id enabled w) e
  handle_cmd-ledger (rename_task_file_or_folder_cmd id path name) q e =
      same_worker (ledger-rename_task_file_or_folder world id path name w) e
  handle_cmd-ledger (prepare_magnet_metadata_cmd uri path trackers promise) q e = cc
  handle_cmd-ledger (cancel_prepared_magnet_cmd id) q e = cc
  handle_cmd-ledger (save_all_resume_data_cmd dir promise) q e = cc
  handle_cmd-ledger (query_task_cmd id promise) q e = cc
  handle_cmd-ledger (query_session_stats_cmd promise) q e = cc
  handle_cmd-ledger shutdown_cmd q e = cc
