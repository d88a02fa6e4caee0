-- ===== src/Session/Steady.antt =====
-- The inputs that leave the promise of saveAllResumeData and its counters alone.
use torrent_link.Prelude.{◌≡◌, refl, ap, Option, none, some, [], map, true, false}
use torrent_link.Session.{World, Worker, fulfil}
use torrent_link.Session.Cmds.{
  Cmd, handle_cmd, query_task, query_session_stats, prepare_magnet_metadata_cmd,
  cancel_prepared_magnet_cmd, save_all_resume_data_cmd, query_task_cmd, query_session_stats_cmd,
}
use torrent_link.Session.Adding.{prepare_magnet_metadata}
use torrent_link.Session.Alerts.{
  handle_alert, session_stats_alert, metadata_received_alert, metadata_failed_alert,
  save_resume_data_alert, save_resume_data_failed_alert, add_torrent_alert, torrent_removed_alert,
  other_alert, poll_pending_magnet_metadata, torrent_removed,
}
use torrent_link.Session.Ledger.{ledger, ledger-torrent_added}
use torrent_link.Session.Quiet.{handle_cmd-ledger}
use torrent_link.Session.Resume.{
  Input, command, alert, poll, after_command, step, is_save_all, save_of, saving,
  saving-answer_stats, saving-try_fulfill, saving-poll_keys, saving-metadata_failed,
  saving-prepare_with, saving-cancel,
}

module _ (w : Worker) where
  saving-command :
      (world : World) (c : Cmd)
      → is_save_all (command world c) ≡ false
      → saving (ledger (step (command world c) w)) ≡ saving (ledger w)
  unfolding handle_cmd prepare_magnet_metadata query_task query_session_stats fulfil
  saving-command world (prepare_magnet_metadata_cmd uri path trackers none) h = refl
  saving-command world (prepare_magnet_metadata_cmd uri path trackers (some q)) h =
      saving-prepare_with world q uri path trackers w
  saving-command world (cancel_prepared_magnet_cmd id) h = saving-cancel world id w
  saving-command world (save_all_resume_data_cmd dir promise) h = cc
  saving-command world (query_task_cmd id none) h = refl
  saving-command world (query_task_cmd id (some q)) h = refl
  saving-command world (query_session_stats_cmd none) h = refl
  saving-command world (query_session_stats_cmd (some q)) h = refl
  saving-command world c h = other_command (handle_cmd world c w) refl
    where
      other_command :
          (o : Option Worker)
          → handle_cmd world c w ≡ o
          → saving (ledger (after_command w o)) ≡ saving (ledger w)
      other_command none e = refl
      other_command (some w') e = ap saving (handle_cmd-ledger world w w' c refl e)

  pub saving-step :
      (i : Input)
      → is_save_all i ≡ false
      → save_of i ≡ []
      → saving (ledger (step i w)) ≡ saving (ledger w)
  unfolding handle_alert poll_pending_magnet_metadata torrent_removed
  saving-step (command world c) h k = saving-command world c h
  saving-step (alert world (session_stats_alert s)) h k =
      saving-answer_stats s w.pending_session_stats w
  saving-step (alert world (metadata_received_alert a)) h k =
      saving-try_fulfill world (world.task_id_from (world.handle_hashes a)) a w
  saving-step (alert world (metadata_failed_alert a)) h k = saving-metadata_failed world a w
  saving-step (alert world (save_resume_data_alert opened)) h k = cc
  saving-step (alert world save_resume_data_failed_alert) h k = cc
  saving-step (alert world (add_torrent_alert true hashes a)) h k = refl
  saving-step (alert world (add_torrent_alert false hashes a)) h k =
      ap saving (ledger-torrent_added world (world.task_id_from hashes) a w)
  saving-step (alert world (torrent_removed_alert hashes)) h k = refl
  saving-step (alert world other_alert) h k = refl
  saving-step (poll world) h k = saving-poll_keys world (map (λ e. e.0) w.pending_magnet_meta) w
