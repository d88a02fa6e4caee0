-- ===== src/Session/Once.antt =====
-- The commands and the rounds of the loop: every promise gets a value at most once.
use native.Mathlib.Nat.{le_trans}
use torrent_link.Prelude.{
  ℕ, pos, ◌+◌, ◌≤◌, ◌==◌, ◌≡◌, refl, ap, arith, Option, none, some, List, [], ◌∷◌, map,
  Option-cases, Bool-cases, inl, inr, nat_key, String,
}
use torrent_link.Types.{TaskId}
use torrent_link.Base.Errors.{has_error}
use torrent_link.Base.Input.{validate_magnet_uri}
use torrent_link.Session.{
  Promise, World, Worker, new_worker, no_metadata, saved, queried, fulfil, call, valid_handle,
  save_resume_data,
}
use torrent_link.Session.Adding.{
  prepare_with, prepare_magnet_metadata, cancel_prepared_magnet, drop_handle,
  has_active_task_for_info_hashes, emit_duplicate_rejected,
}
use torrent_link.Session.Control.{nothing_to_save, on_each_valid, count_valid, save_all_resume_data}
use torrent_link.Session.Cmds.{
  Cmd, cancel_prepared_magnet_cmd, prepare_magnet_metadata_cmd, query_session_stats_cmd,
  query_task_cmd, save_all_resume_data_cmd, handle_cmd, query_task, query_session_stats,
}
use torrent_link.Session.Alerts.{Alert, handle_alert, poll_pending_magnet_metadata}
use torrent_link.Session.Loop.{handle_cmds, handle_alerts, post_updates, Round, run_round, run}
use torrent_link.Session.Ledger.{
  ledger, ledger-on_each_valid, ledger-drop_handle, ledger-post_updates,
}
use torrent_link.Session.Quiet.{handle_cmd-ledger}
use torrent_link.Session.Promises.{
  held, owed, settled, settled-append, held_metas-put, held_metas-erase, handle_alert-owed,
  poll_keys-owed,
}

-- The promise that a command carries.
abbrev pub carried_by : Cmd → Option Promise
carried_by (prepare_magnet_metadata_cmd uri path trackers done) = done
carried_by (save_all_resume_data_cmd dir done) = done
carried_by (query_task_cmd id done) = done
carried_by (query_session_stats_cmd done) = done
carried_by _ = none

-- How many commands carry a promise.
abbrev pub carried : Promise → List (World × Cmd) → ℕ
carried p [] = 0
carried p ((world, c) ∷ cs) = held p (carried_by c) + carried p cs

abbrev pub carried_in : Promise → List Round → ℕ
carried_in p [] = 0
carried_in p (r ∷ rs) = carried p r.commands + carried_in p rs

abbrev owed_of : Promise → Option Worker → ℕ
owed_of p none = 0
owed_of p (some w) = owed p (ledger w)

module _ (p : Promise) where
  module _ (world : World) where
    prepare_with-owed :
        (q : Promise) (uri path : String) (trackers : List String) (w : Worker)
        → owed p (ledger (prepare_with world q uri path trackers w))
          ≤ owed p (ledger w) + held p (some q)
    unfolding prepare_with emit_duplicate_rejected fulfil call
    prepare_with-owed q uri path trackers w =
        let trimmed : String = world.qt.trimmed uri in
        elim (Bool-cases (has_error (validate_magnet_uri world.qt trimmed))) [
          | inl bad ↦
              rw (bad, prepare_with) (omega (arith, settled-append p q no_metadata w.answers))
          | inr good ↦ elim (Option-cases (world.parse_magnet_uri trimmed)) [
            | inl e ↦
                rw (good, prepare_with)
                  (rw e (omega (arith, settled-append p q no_metadata w.answers)))
            | inr (atp, e) ↦
                elim (Bool-cases (has_active_task_for_info_hashes world atp.info_hashes w)) [
                  | inl twice ↦
                      rw (good, prepare_with)
                        (rw e (rw twice (omega (arith, settled-append p q no_metadata w.answers))))
                  | inr fresh ↦
                      rw (good, prepare_with)
                        (rw e (
                          rw fresh (
                            omega (
                              arith,
                              held_metas-put p (world.task_id_from atp.info_hashes)
                                  (record {
                                    done = some q;
                                    temp_save_path = path;
                                    magnet_uri = trimmed;
                                  })
                                  w.pending_magnet_meta,
                            ))))
                ]
          ]
        ]

    cancel-owed :
        (id : TaskId) (w : Worker)
        → owed p (ledger (cancel_prepared_magnet world id w)) ≤ owed p (ledger w)
    unfolding cancel_prepared_magnet
    cancel-owed id w = omega (
      arith,
      held_metas-erase p id (drop_handle world id w).pending_magnet_meta,
      ap (owed p) (ledger-drop_handle world id w),
    )

    nothing_to_save-owed :
        (o : Option Promise) (w : Worker)
        → o ≡ w.resume_data_done
        → owed p (ledger (nothing_to_save o w)) ≤ owed p (ledger w)
    unfolding nothing_to_save fulfil
    nothing_to_save-owed none w e = omega arith
    nothing_to_save-owed (some q) w e =
        omega (arith, settled-append p q (saved 0) w.answers, ap (held p) e)

    save_all-owed :
        (dir : String) (promise : Option Promise) (w : Worker)
        → owed p (ledger (save_all_resume_data world dir promise w))
          ≤ owed p (ledger w) + held p promise
    unfolding save_all_resume_data
    save_all-owed dir promise w =
        let w1 : Worker = on_each_valid world save_resume_data w.handles_by_task_id w in
        let w2 : Worker = record w1 {
          resume_data_dir = dir;
          resume_data_done = promise;
          pending_resume_data_saves = pos (count_valid world w.handles_by_task_id);
          completed_resume_data_saves = 0;
        } in
        let same : ledger w1 ≡ ledger w =
          ledger-on_each_valid world save_resume_data w.handles_by_task_id w in
        let more : owed p (ledger w2) ≤ owed p (ledger w) + held p promise =
          omega (arith, ap (owed p) same, ap (λ l. held p l.saving) same) in
        elim (Bool-cases (count_valid world w.handles_by_task_id == 0)) [
          | inr some_asked ↦ rw (some_asked, save_all_resume_data) more
          | inl none_asked ↦
              rw (none_asked, save_all_resume_data)
                (le_trans (nothing_to_save-owed promise w2 refl) more)
        ]

  -- A command that leaves the promises alone.
  quiet : (w y : Worker) → ledger y ≡ ledger w → owed p (ledger y) ≤ owed p (ledger w) + 0
  quiet w y same = omega (arith, ap (owed p) same)

  bounded : {x y : Worker} {n : ℕ} → owed p (ledger x) ≤ n → some x ≡ some y → owed p (ledger y) ≤ n
  bounded {x} {y} below e = omega (arith, below, ap (owed_of p) e)

  query_task-owed :
      (world : World) (id : TaskId) (q : Promise) (w : Worker)
      → owed p (ledger (query_task world id (some q) w)) ≤ owed p (ledger w) + held p (some q)
  unfolding query_task fulfil
  query_task-owed world id q w =
      omega (arith, settled-append p q (queried (valid_handle world id w)) w.answers)

  query_stats-owed :
      (q : Promise) (w : Worker)
      → owed p (ledger (query_session_stats (some q) w)) ≤ owed p (ledger w) + held p (some q)
  unfolding query_session_stats
  query_stats-owed q w = omega arith

  handle_cmd-owed :
      (world : World) (c : Cmd) (w w' : Worker)
      → handle_cmd world c w ≡ some w'
      → owed p (ledger w') ≤ owed p (ledger w) + held p (carried_by c)
  unfolding handle_cmd prepare_magnet_metadata query_task query_session_stats
  handle_cmd-owed world (prepare_magnet_metadata_cmd uri path trackers none) w w' e =
      bounded (omega arith) e
  handle_cmd-owed world (prepare_magnet_metadata_cmd uri path trackers (some q)) w w' e =
      bounded (prepare_with-owed world q uri path trackers w) e
  handle_cmd-owed world (cancel_prepared_magnet_cmd id) w w' e =
      bounded (le_trans (cancel-owed world id w) (omega arith)) e
  handle_cmd-owed world (save_all_resume_data_cmd dir promise) w w' e =
      bounded (save_all-owed world dir promise w) e
  handle_cmd-owed world (query_task_cmd id none) w w' e = bounded (omega arith) e
  handle_cmd-owed world (query_task_cmd id (some q)) w w' e =
      bounded (query_task-owed world id q w) e
  handle_cmd-owed world (query_session_stats_cmd none) w w' e = bounded (omega arith) e
  handle_cmd-owed world (query_session_stats_cmd (some q)) w w' e = bounded (query_stats-owed q w) e
  handle_cmd-owed world c w w' e = quiet w w' (handle_cmd-ledger world w w' c refl e)

  handle_cmds-owed :
      (cs : List (World × Cmd)) (w : Worker)
      → owed p (ledger (handle_cmds cs w).0) ≤ owed p (ledger w) + carried p cs
  unfolding handle_cmds
  handle_cmds-owed [] w = omega arith
  handle_cmds-owed ((world, c) ∷ cs) w = elim (Option-cases (handle_cmd world c w)) [
    | inl e ↦ rw (e, handle_cmds) (omega arith)
    | inr (w', e) ↦
        rw (e, handle_cmds) (omega (arith, handle_cmd-owed world c w w' e, handle_cmds-owed cs w'))
  ]

  handle_alerts-owed :
      (alerts : List (World × Alert)) (w : Worker)
      → owed p (ledger (handle_alerts alerts w).0) ≤ owed p (ledger w)
  unfolding handle_alerts
  handle_alerts-owed [] w = omega arith
  handle_alerts-owed ((world, a) ∷ alerts) w =
      le_trans (handle_alerts-owed alerts (handle_alert world a w).0)
        (handle_alert-owed p world a w)

  run_round-owed :
      (r : Round) (w : Worker)
      → owed p (ledger (run_round r w).0) ≤ owed p (ledger w) + carried p r.commands
  unfolding run_round poll_pending_magnet_metadata
  run_round-owed r w =
      let w1 : Worker = (handle_cmds r.commands w).0 in
      let w2 : Worker = (handle_alerts r.alerts (post_updates w1)).0 in
      omega (
        arith,
        poll_keys-owed p r.poll_world (map (λ e. e.0) w2.pending_magnet_meta) w2,
        handle_alerts-owed r.alerts (post_updates w1),
        ap (owed p) (ledger-post_updates w1),
        handle_cmds-owed r.commands w,
      )

  run-owed :
      (rs : List Round) (w : Worker)
      → owed p (ledger (run rs w)) ≤ owed p (ledger w) + carried_in p rs
  unfolding run
  run-owed [] w = omega arith
  run-owed (r ∷ rs) w = elim (Bool-cases (run_round r w).1) [
    | inl going ↦ rw (going, run) (omega (arith, run_round-owed r w, run-owed rs (run_round r w).0))
    | inr ended ↦ rw (ended, run) (omega (arith, run_round-owed r w))
  ]

-- Over any rounds of the worker's loop from its start, whatever commands, alerts and answers of
-- libtorrent they meet, a promise gets a value at most as often as commands carry it, so a promise that
-- one command carries gets a value at most once. This covers promises that stand in the map of
-- metadata fetches and those that a later command has replaced.
pub run-settled :
    (p : Promise) (rs : List Round) → settled p (run rs new_worker).answers ≤ carried_in p rs
run-settled p rs = omega (arith, run-owed p rs new_worker)
