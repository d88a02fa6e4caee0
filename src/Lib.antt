-- ===== src/Lib.antt =====
-- A model of the core logic of TorrentLink, a BitTorrent client, and proofs about it. Paths are those
-- of the repository.
--
-- The parts and how they interact. libtorrent's alerts become views (`LtAlertView`), the mapper turns
-- a view into an event of the task pipeline, and the task state store folds events into one snapshot
-- per task; the ingest orchestrator stands before the pipeline and masks statuses after a command of
-- the user. The RSS service keeps feeds and items, drops duplicates, matches rules and asks for
-- downloads; the download orchestrator queues these, starts them through the event loop of the user
-- interface and settles each with the service. The session worker owns the session of libtorrent: on a
-- thread of its own it carries out commands, handles alerts, polls for magnet metadata and gives values
-- to the promises of those who asked. The tracker is a small HTTP server with a table of
-- peers of its own, which answers in bencode.
--
-- Prelude: library names, tests, lists, integers, byte strings, association lists.
-- Types: src/base/types.h and src/base/time_stamps.cc.
-- Task/Event, Task/Snapshot: src/core/task_event.h and task_snapshot.h, one field for each.
-- Task/Store: src/core/task_state_store.cc (`apply_event` is applyEvent; the cases of its switch are
--   in Task/Store/Merge) and src/core/task_pipeline.cc (`consume_batch`). Task/Store/Isolation,
--   Task/Store/Replay and Task/Store/Invariant have the proofs.
-- Task/Alert: src/lt/task_event_mapper.cc (`map_alert_to_task_event`) and
--   src/lt/task_event_dispatcher.cc (`dispatch_alert_view`, `dispatch_alert_views`).
-- Task/Ingest: src/app/event_ingest_orchestrator.cc (`lock_progress_status`, `ingest`).
-- RssDownload, RssDownload/Pump: src/app/rss_download_pipeline.cc and
--   src/app/rss_download_orchestrator.cc. One record `Lane` stands for each of the two queues, whose
--   code is the same twice; `deliver` is one turn of the event loop. The other files of RssDownload
--   have proofs: Order, Progress, UnderWay (started items that have not finished) and Limits.
-- Tracker/Bencode: src/core/bencode_minimal.cc. Tracker/Query, Tracker/Peers, Tracker/Request:
--   src/core/builtin_http_tracker.cc (percentDecodeQueryValue and queryParamRaw; PeerTable; handleRead
--   as `handle_read`, cut at its early returns).
-- Rss/Types, Rss/Rules, Rss/Dedup, Rss/Service: src/core/rss/rss_types.h, rss_rule_engine.cc,
--   rss_dedup.cc and rss_service.cc. Of the service, Rss/Service/Auto has downloadItem and the
--   diagnosis, Rss/Service/Dispatch the backlog and dispatchDeferredAutoDownloads,
--   Rss/Service/Refresh the refresh of all feeds, with proofs in Refresh/Feeds and Refresh/Fetched.
-- Timing: src/base/throttle.cc, src/base/debounce.cc and src/app/refresh_scheduler.cc.
-- Base/Ring: src/base/ring_buffer.h. Logs: src/core/log_store.h and log_store.cc, on top of the ring;
--   Logs/Holding has what one task's store holds, Logs/Histories the calls on all of them.
-- Base/Errors: src/base/errors.h and errors.cc. Base/Input: src/base/input_sanitizer.cc.
-- Session: the types of src/lt/session_worker.h, session_ops.h and session_cmds.h, and the state of
--   SessionWorker::Impl as `Worker`. Session/Adding: src/lt/session_ops_add.cc. Session/Control:
--   session_ops_control.cc and the connection limits of session_ops_settings.cc. Session/Files: the
--   priorities of first and last pieces and the renames of session_ops_control.cc. Session/Cmds: the
--   commands, handleCmd of session_ops_dispatch.cc and the queries. Session/Alerts: the alerts in
--   SessionWorker::Impl::run of session_worker.cc, with the two functions for magnet metadata.
--   Session/Loop: the loop of run. The other files of Session have proofs: Session/Ledger,
--   Session/Quiet and Session/Promises about what leaves the promises alone, Session/Once,
--   Session/Resume, Session/Steady and Session/Saves about their values.
-- IpFilter, IpFilter/Lines: src/lt/ip_filter_loader.cc. The other files of IpFilter have proofs.
-- Examples: the theorems at concrete inputs.
--
-- Representation. A counter or time of the code is an integer over the native numbers, without the
-- bounds of its machine type: the code compares, copies, counts and clamps these and takes differences of times. A hash map is an
-- association list, a set of texts a list. A QUuid is a number, 0 the null id. Doubles are a parameter
-- with the comparison that the code uses. Byte strings are lists of numbers. Clocks, new UUIDs, random
-- shuffles and what Qt or the network give are arguments, with what is relied on as hypotheses
-- (`IsDecimal` for QByteArray::number, `IsShuffle` for std::shuffle, `IsSort` for std::sort and QDateTime's >, `IsSound` for
-- QStringView::trimmed and the address parsers, `Strips` for QString::mid after startsWith).
--
-- In the IP filter an address is the list of its 32 or 128 bits.
--
-- In the session worker a handle is a number, and a call of libtorrent is recorded in the worker's trace
-- `calls`. What libtorrent, Qt and the files answer is a record `World` of functions; each command,
-- alert and poll comes with a `World` of its own, so the answers may change between them. A promise is
-- a number, and the values given are the list `answers`.
--
-- Loops are structural recursion on lists, but for these. The loops of the ring's Push and TryPop run on
-- fuel, and one round is enough where the calls do not overlap; clear of the log store runs on fuel, and
-- one round more than the ring's capacity is enough. The loop over the bits of an IPv6 prefix runs on
-- the number of its rounds. The reader of bencode dictionaries, which is no
-- code of the program but describes what a client reads, has the length of its text, which is enough
-- since an entry takes two bytes at least.
--
-- The ring's counters are numbers below 2 ^ 64 with the wrap-around written out. Its capacity is 2 ^ k.
--
-- Not modelled: mutexes (each call is atomic), the overlapping of calls on the ring from several
-- threads, files, sockets, threads, the user interface, libtorrent itself. Of the session worker:
-- ApplyRuntimeSettings, which is left out of `Cmd`, the contents of the answers to queries, and the
-- condition variable of the command queue.
pub mod Prelude
pub mod Types
pub mod Task
pub mod RssDownload
pub mod Tracker
pub mod Rss
pub mod Timing
pub mod Base
pub mod Logs
pub mod Session
pub mod IpFilter
pub mod Examples
