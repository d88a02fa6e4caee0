-- ===== src/Examples/Downloads.antt =====
-- The download queues (app/rss_download_pipeline.cc) at concrete inputs.
use torrent_link.Prelude.{
  pos, length, ◌≤◌, negsuc, ◌≡◌, refl, true, false, String, List, [], ◌∷◌, ◌++◌, arith,
}
use torrent_link.RssDownload.{
  Orchestrator, MagnetQueueItem, Call, magnet_limit_set, magnet_enqueued, magnet_turn,
  magnet_finished, init, run, step, enqueue_magnet, pump_magnet_queue_on_ui,
  set_rss_torrent_max_in_flight, set_magnet_max_in_flight, set_handlers,
}
use torrent_link.RssDownload.Pump.{
  Lane, guarded, schedule_pump, push_back, deliver, set_max_in_flight, run_pump, pump, pop_front,
  start_fn,
}
use torrent_link.RssDownload.Progress.{IsLive}
use torrent_link.RssDownload.UnderWay.{IsPaired, started_up, Moves, run-Moves}
use torrent_link.RssDownload.Limits.{run-Limited}
use torrent_link.RssDownload.Order.{rounds, run-started, run-drains}

abbrev item : String → MagnetQueueItem
item uri = record {
  uri = uri;
  save_path = "/downloads";
  rss_settlement = record { item_id = uri; record_save_path = "/downloads" };
  skip_interactive_add = true;
  category = "";
  tags_csv = "";
}

abbrev lane : List MagnetQueueItem → Lane MagnetQueueItem
lane queue = record {
  queue = queue;
  in_flight = 0;
  max_in_flight = 2;
  pump_scheduled = true;
  posted = guarded ∷ [];
  started = [];
  settled = [];
}

-- Two links wait, and a pump call is posted.
abbrev waiting : Orchestrator
waiting = record {
  magnets = lane (item "a" ∷ item "b" ∷ []);
  torrents = record {
    queue = [];
    in_flight = 0;
    max_in_flight = 8;
    pump_scheduled = false;
    posted = [];
    started = [];
    settled = [];
  };
  settle = true;
  magnet_start = true;
  torrent_start = true;
}

abbrev history : List Call
history =
    magnet_enqueued (item "c")
    ∷ magnet_turn false
    ∷ magnet_limit_set (negsuc 3)
    ∷ magnet_finished
    ∷ magnet_turn false
    ∷ []

-- Two magnet links of which the first has finished.
abbrev in_pairs : List Call
in_pairs =
    magnet_enqueued (item "a")
    ∷ magnet_turn false
    ∷ magnet_enqueued (item "b")
    ∷ magnet_finished
    ∷ magnet_turn false
    ∷ magnet_enqueued (item "c")
    ∷ []

in_pairs-IsPaired : IsPaired 0 0 in_pairs (started_up true (pos 1) (pos 2))
unfolding step enqueue_magnet pump_magnet_queue_on_ui schedule_pump push_back deliver
    set_rss_torrent_max_in_flight set_magnet_max_in_flight set_max_in_flight set_handlers init
    run_pump pump pop_front start_fn
in_pairs-IsPaired = (omega arith, tt)

run-Moves_example :
    Moves 1 (run in_pairs (started_up true (pos 1) (pos 2))).magnets
    × Moves 0 (run in_pairs (started_up true (pos 1) (pos 2))).torrents
run-Moves_example = run-Moves true (pos 1) (pos 2) in_pairs (refl, (refl, tt)) in_pairs-IsPaired

run-Limited_example :
    (length (run in_pairs (started_up true (pos 1) (pos 2))).magnets.started ≤ 2)
    × (length (run in_pairs (started_up true (pos 1) (pos 2))).torrents.started ≤ 2)
run-Limited_example =
    run-Limited true (pos 1) (pos 2) in_pairs (refl, (refl, tt))
      (tt, (tt, (tt, (tt, (tt, (tt, tt)))))) in_pairs-IsPaired

run-started_example :
    (run history waiting).magnets.started ++ (run history waiting).magnets.queue
    ≡ item "a" ∷ item "b" ∷ item "c" ∷ []
run-started_example = run-started history waiting (refl, (refl, tt)) refl

waiting-IsLive : IsLive waiting.magnets
waiting-IsLive = ground arith

run-drains_example :
    ((run (rounds 2) waiting).magnets.queue ≡ [])
    × ((run (rounds 2) waiting).magnets.started ≡ item "a" ∷ item "b" ∷ [])
run-drains_example = run-drains waiting waiting-IsLive refl refl
