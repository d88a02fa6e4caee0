-- ===== src/RssDownload.antt =====
-- app/rss_download_pipeline.cc and app/rss_download_orchestrator.cc: two queues of downloads that
-- RSS items ask for, one of magnet links and one of URLs of torrent files. A call that schedules
-- the pump posts a closure to the event loop of the user interface; `deliver` is the event loop
-- running one. Mutexes make the critical sections atomic and are not modelled; `owner_` is alive.
pub mod Pump
pub mod Progress
pub mod Order
pub mod UnderWay
pub mod Limits
use torrent_link.Prelude.{
  ℕ, ℤ, ◌+◌, ◌-◌, pos_part, leb, Bool, true, false, not, ◌&&◌, String, Option, none, some, List, [],
  ◌∷◌, ◌++◌, if◌then◌else◌,
}
use torrent_link.Rss.Types.{RssDownloadSettlement}
use Pump.{
  Lane, Closure, guarded, plain, Settings, empty_lane, push_back, release, schedule_pump, pump,
  set_max_in_flight, deliver,
}

pub record MagnetQueueItem : Type 0 where
  pub uri : String
  pub save_path : String
  pub rss_settlement : RssDownloadSettlement
  pub skip_interactive_add : Bool
  pub category : String
  pub tags_csv : String

pub record RssTorrentUrlQueueItem : Type 0 where
  pub url : String
  pub save_path : String
  pub referer : String
  pub rss_settlement : RssDownloadSettlement

-- The orchestrator with its pipeline. `magnet_start`, `torrent_start` and `settle` say which of the
-- handlers are set.
pub record Orchestrator : Type 0 where
  pub magnets : Lane MagnetQueueItem
  pub torrents : Lane RssTorrentUrlQueueItem
  pub settle : Bool
  pub magnet_start : Bool
  pub torrent_start : Bool

unfoldable pub init : Orchestrator
unfolding empty_lane
init = record {
  magnets = empty_lane;
  torrents = empty_lane;
  settle = false;
  magnet_start = false;
  torrent_start = false;
}

unfoldable pub set_handlers : Bool → Bool → Bool → Orchestrator → Orchestrator
set_handlers settle magnet torrent o = record o {
  settle = settle;
  magnet_start = magnet;
  torrent_start = torrent;
}

unfoldable pub set_magnet_max_in_flight : ℤ → Orchestrator → Orchestrator
set_magnet_max_in_flight n o = record o { magnets = set_max_in_flight n o.magnets }

unfoldable pub set_rss_torrent_max_in_flight : ℤ → Orchestrator → Orchestrator
set_rss_torrent_max_in_flight n o = record o { torrents = set_max_in_flight n o.torrents }

unfoldable pub enqueue_magnet : MagnetQueueItem → Orchestrator → Orchestrator
enqueue_magnet item o = record o { magnets = schedule_pump guarded (push_back item o.magnets) }

unfoldable pub enqueue_rss_torrent_url : RssTorrentUrlQueueItem → Orchestrator → Orchestrator
enqueue_rss_torrent_url item o = record o {
  torrents = schedule_pump guarded (push_back item o.torrents);
}

unfoldable pub finish_magnet : Orchestrator → Orchestrator
finish_magnet o = record o { magnets = schedule_pump plain (release o.magnets) }

unfoldable pub finish_rss_torrent : Orchestrator → Orchestrator
finish_rss_torrent o = record o { torrents = schedule_pump plain (release o.torrents) }

abbrev pub magnet_settings : Bool → Orchestrator → Settings
magnet_settings shutting_down o = record {
  shutting_down = shutting_down;
  has_start = o.magnet_start;
  has_settle = o.settle;
}

abbrev pub torrent_settings : Bool → Orchestrator → Settings
torrent_settings shutting_down o = record {
  shutting_down = shutting_down;
  has_start = o.torrent_start;
  has_settle = o.settle;
}

-- One turn of the event loop for the pump of the magnet links.
unfoldable pub pump_magnet_queue_on_ui : Bool → Orchestrator → Orchestrator
pump_magnet_queue_on_ui shutting_down o = record o {
  magnets = deliver (magnet_settings shutting_down o) o.magnets;
}

unfoldable pub pump_rss_torrent_url_queue_on_ui : Bool → Orchestrator → Orchestrator
pump_rss_torrent_url_queue_on_ui shutting_down o = record o {
  torrents = deliver (torrent_settings shutting_down o) o.torrents;
}

-- What can happen to an orchestrator. The turns of the event loop read the shutdown flag.
pub data Call : Type 0 where
  handlers_set : Bool → Bool → Bool → Call
  magnet_limit_set torrent_limit_set : ℤ → Call
  magnet_enqueued : MagnetQueueItem → Call
  torrent_enqueued : RssTorrentUrlQueueItem → Call
  magnet_finished torrent_finished : Call
  magnet_turn torrent_turn : Bool → Call

unfoldable pub step : Call → Orchestrator → Orchestrator
step (handlers_set settle magnet torrent) o = set_handlers settle magnet torrent o
step (magnet_limit_set n) o = set_magnet_max_in_flight n o
step (torrent_limit_set n) o = set_rss_torrent_max_in_flight n o
step (magnet_enqueued item) o = enqueue_magnet item o
step (torrent_enqueued item) o = enqueue_rss_torrent_url item o
step magnet_finished o = finish_magnet o
step torrent_finished o = finish_rss_torrent o
step (magnet_turn shutting_down) o = pump_magnet_queue_on_ui shutting_down o
step (torrent_turn shutting_down) o = pump_rss_torrent_url_queue_on_ui shutting_down o

unfoldable pub run : List Call → Orchestrator → Orchestrator
run [] o = o
run (c ∷ cs) o = run cs (step c o)
