-- ===== src/Session/Cmds.antt =====
-- lt/session_cmds.h, lt/session_ops_dispatch.cc and the queries' answers of lt/session_ops_query.cc.
use torrent_link.Prelude.{ℤ, Bool, String, Option, none, some, List, [], ◌∷◌, nat_key, Bytes}
use torrent_link.Types.{TaskId}
use torrent_link.Session.{
  Promise, World, Worker, AddTorrentOptions, FilePriorityLevel, force_recheck, force_reannounce,
  queue_position_up, queue_position_down, queue_position_top, queue_position_bottom, queried,
  fulfil, valid_handle,
}
use torrent_link.Session.Adding.{
  add_magnet, prepare_magnet_metadata, cancel_prepared_magnet, finalize_prepared_magnet,
  add_torrent_file, add_from_resume_data,
}
use torrent_link.Session.Control.{
  pause_task, resume_task, remove_task, move_storage_of, edit_trackers, on_valid,
  set_sequential_download, set_auto_managed, force_start, save_all_resume_data,
  set_task_file_priority, add_task_tracker, edit_task_tracker, remove_task_tracker,
  force_reannounce_tracker, set_default_connections_limit, set_task_connections_limit,
}
use torrent_link.Session.Files.{set_first_last_piece_priority, rename_task_file_or_folder}

pub data Cmd : Type 0 where
  add_magnet_cmd : String → String → List String → Cmd
  prepare_magnet_metadata_cmd : String → String → List String → Option Promise → Cmd
  cancel_prepared_magnet_cmd : TaskId → Cmd
  finalize_prepared_magnet_cmd : TaskId → String → List String → AddTorrentOptions → Cmd
  add_torrent_file_cmd : String → String → List String → Option AddTorrentOptions → Cmd
  add_from_resume_data_cmd : Bytes → Bool → Cmd
  save_all_resume_data_cmd : String → Option Promise → Cmd
  pause_cmd resume_cmd force_recheck_cmd force_reannounce_cmd force_start_cmd queue_position_up_cmd
        queue_position_down_cmd queue_position_top_cmd queue_position_bottom_cmd
        force_reannounce_all_trackers_cmd :
      TaskId → Cmd
  remove_cmd set_sequential_download_cmd set_auto_managed_cmd : TaskId → Bool → Cmd
  move_storage_cmd : TaskId → String → Cmd
  edit_trackers_cmd : TaskId → List String → Cmd
  set_task_file_priority_cmd : TaskId → List ℤ → FilePriorityLevel → Cmd
  add_task_tracker_cmd remove_task_tracker_cmd force_reannounce_tracker_cmd : TaskId → String → Cmd
  edit_task_tracker_cmd : TaskId → String → String → Cmd
  set_default_connections_limit_cmd : ℤ → Cmd
  set_task_connections_limit_cmd : TaskId → ℤ → Cmd
  set_first_last_piece_priority_cmd : TaskId → Bool → Cmd
  rename_task_file_or_folder_cmd : TaskId → String → String → Cmd
  -- The queries of a task: copy payload, files, trackers, peers, web seeds.
  query_task_cmd : TaskId → Option Promise → Cmd
  query_session_stats_cmd : Option Promise → Cmd
  shutdown_cmd : Cmd

unfoldable pub query_session_stats : Option Promise → Worker → Worker
query_session_stats none w = w
query_session_stats (some p) w = record w { pending_session_stats = some p }

module _ (world : World) where
  unfoldable pub query_task : TaskId → Option Promise → Worker → Worker
  unfolding fulfil
  query_task id none w = w
  query_task id (some p) w = fulfil p (queried (valid_handle world id w)) w

  -- `none` is the result false: the caller handles the command.
  unfoldable pub handle_cmd : Cmd → Worker → Option Worker
  handle_cmd (add_magnet_cmd uri path trackers) w = some (add_magnet world uri path trackers w)
  handle_cmd (prepare_magnet_metadata_cmd uri path trackers done) w =
      some (prepare_magnet_metadata world done uri path trackers w)
  handle_cmd (cancel_prepared_magnet_cmd id) w = some (cancel_prepared_magnet world id w)
  handle_cmd (finalize_prepared_magnet_cmd id path trackers opts) w =
      some (finalize_prepared_magnet world id path trackers opts w)
  handle_cmd (add_torrent_file_cmd file path trackers opts) w =
      some (add_torrent_file world file path trackers opts w)
  handle_cmd (add_from_resume_data_cmd bytes paused) w =
      some (add_from_resume_data world bytes paused w)
  handle_cmd (save_all_resume_data_cmd dir done) w = some (save_all_resume_data world dir done w)
  handle_cmd (pause_cmd id) w = some (pause_task id w)
  handle_cmd (resume_cmd id) w = some (resume_task world id w)
  handle_cmd (force_recheck_cmd id) w = some (on_valid world id (force_recheck ∷ []) w)
  handle_cmd (force_reannounce_cmd id) w = some (on_valid world id (force_reannounce ∷ []) w)
  handle_cmd (force_start_cmd id) w = some (force_start world id w)
  handle_cmd (queue_position_up_cmd id) w = some (on_valid world id (queue_position_up ∷ []) w)
  handle_cmd (queue_position_down_cmd id) w = some (on_valid world id (queue_position_down ∷ []) w)
  handle_cmd (queue_position_top_cmd id) w = some (on_valid world id (queue_position_top ∷ []) w)
  handle_cmd (queue_position_bottom_cmd id) w =
      some (on_valid world id (queue_position_bottom ∷ []) w)
  handle_cmd (force_reannounce_all_trackers_cmd id) w =
      some (on_valid world id (force_reannounce ∷ []) w)
  handle_cmd (remove_cmd id files) w = some (remove_task id files w)
  handle_cmd (set_sequential_download_cmd id on) w = some (set_sequential_download world id on w)
  handle_cmd (set_auto_managed_cmd id on) w = some (set_auto_managed world id on w)
  handle_cmd (move_storage_cmd id path) w = some (move_storage_of id path w)
  handle_cmd (edit_trackers_cmd id trackers) w = some (edit_trackers world id trackers w)
  handle_cmd (set_task_file_priority_cmd id files level) w =
      some (set_task_file_priority world id files level w)
  handle_cmd (add_task_tracker_cmd id url) w = some (add_task_tracker world id url w)
  handle_cmd (remove_task_tracker_cmd id url) w = some (remove_task_tracker world id url w)
  handle_cmd (force_reannounce_tracker_cmd id url) w =
      some (force_reannounce_tracker world id url w)
  handle_cmd (edit_task_tracker_cmd id old new) w = some (edit_task_tracker world id old new w)
  handle_cmd (set_default_connections_limit_cmd limit) w =
      some (set_default_connections_limit world limit w)
  handle_cmd (set_task_connections_limit_cmd id limit) w =
      some (set_task_connections_limit world id limit w)
  handle_cmd (set_first_last_piece_priority_cmd id enabled) w =
      some (set_first_last_piece_priority world id enabled w)
  handle_cmd (rename_task_file_or_folder_cmd id path name) w =
      some (rename_task_file_or_folder world id path name w)
  handle_cmd (query_task_cmd id done) w = some (query_task id done w)
  handle_cmd (query_session_stats_cmd done) w = some (query_session_stats done w)
  handle_cmd shutdown_cmd w = none
