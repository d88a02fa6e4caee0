-- ===== src/Session/Loop.antt =====
-- SessionWorker::Impl::run of lt/session_worker.cc. An alert that the
-- loop does not consume goes on to adaptAlertToViews; here these alerts are the output of a round.
use torrent_link.Prelude.{Bool, true, false, none, some, List, [], ◌∷◌, if◌then◌else◌, nat_key}
use torrent_link.Session.{World, Worker, post_session_stats, post_torrent_updates, call}
use torrent_link.Session.Cmds.{Cmd, handle_cmd}
use torrent_link.Session.Alerts.{Alert, handle_alert, poll_pending_magnet_metadata}

-- The commands of a round, each with the world that it meets; false once a Shutdown is met.
unfoldable pub handle_cmds : List (World × Cmd) → Worker → Worker × Bool
handle_cmds [] w = (w, true)
handle_cmds ((world, c) ∷ cs) w = elim (handle_cmd world c w) [
  | none ↦ (w, false)
  | some w' ↦ handle_cmds cs w'
]

unfoldable pub handle_alerts : List (World × Alert) → Worker → Worker × List Alert
handle_alerts [] w = (w, [])
handle_alerts ((world, a) ∷ as') w =
    let (w', passed) = handle_alert world a w in
    let (w'', rest) = handle_alerts as' w' in (w'', if passed then a ∷ rest else rest)

pub record Round : Type 0 where
  pub commands : List (World × Cmd)
  pub alerts : List (World × Alert)
  pub poll_world : World

unfoldable pub post_updates : Worker → Worker
unfolding call
post_updates w = elim w.pending_session_stats [
  | none ↦ call post_torrent_updates w
  | some p ↦ call post_torrent_updates (call post_session_stats w)
]

-- One pass of the loop: the commands that were queued, then the alerts, then the poll. It is made to
-- its end also when it met a Shutdown.
unfoldable pub run_round : Round → Worker → Worker × Bool
unfolding post_updates handle_cmds handle_alerts
run_round r w =
    let (w1, running) = handle_cmds r.commands w in
    let (w2, views) = handle_alerts r.alerts (post_updates w1) in
    (poll_pending_magnet_metadata r.poll_world w2, running)

-- `while (running)`, for the rounds given.
unfoldable pub run : List Round → Worker → Worker
unfolding run_round
run [] w = w
run (r ∷ rs) w = let (w', running) = run_round r w in elim running [ true ↦ run rs w' | false ↦ w' ]
