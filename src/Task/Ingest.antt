-- ===== src/Task/Ingest.antt =====
-- app/event_ingest_orchestrator.cc: alerts reach the pipeline in batches, and after a command of
-- the user the status that progress alerts report is ignored for a while. The map of locks is keyed
-- by the text of the task's id, which is another spelling of the id.
pub mod Lock
use torrent_link.Prelude.{
  ℤ, ltb_ℤ, Bool, true, false, Option, none, some, List, [], ◌∷◌, nat_key, if◌then◌else◌,
}
use torrent_link.Prelude.Assoc.{Assoc, lookup, put, erase}
use torrent_link.Types.{TaskId, TaskStatus, Doubles}
use torrent_link.Task.Event.{TaskEvent, TaskEventType}
use torrent_link.Task.Store.{TaskStateStore, consume_batch}
use torrent_link.Task.Alert.{LtAlertView, map_alerts}

-- `statusLockUntilMs_`
abbrev pub Locks : Type 0
Locks = Assoc TaskId ℤ

pub record IngestResult : Type 0 where
  pub duplicate_rejected_task_ids : List TaskId
  pub removed_task_ids : List TaskId

-- The orchestrator's locks and the store behind its pipeline.
pub record Ingest (D : Type 0) : Type 0 where
  pub locks : Locks
  pub tasks : TaskStateStore D

unfoldable pub lock_progress_status : TaskId → ℤ → Locks → Locks
lock_progress_status id until locks = put id until locks

abbrev pub is_progress : TaskEventType → Bool
is_progress TaskEventType.progress_updated = true
is_progress _ = false

module _ {D : Type 0} where
  -- The body of the loop over the events: what becomes of the event, and of the locks.
  unfoldable pub mask : ℤ → TaskEvent D → Option ℤ → Locks → TaskEvent D × Locks
  mask now ev none locks = (ev, locks)
  mask now ev (some until) locks =
      if ltb_ℤ now until
      then (record ev { status = TaskStatus.unknown }, locks)
      else (ev, erase ev.task_id locks)

  unfoldable pub mask_event : ℤ → TaskEvent D → Locks → TaskEvent D × Locks
  mask_event now ev locks =
      if is_progress ev.type then mask now ev (lookup ev.task_id locks) locks else (ev, locks)

  unfoldable pub mask_events : ℤ → List (TaskEvent D) → Locks → List (TaskEvent D) × Locks
  mask_events now [] locks = ([], locks)
  mask_events now (ev ∷ evs) locks =
      let (ev', locks') = mask_event now ev locks in
      let (rest, locks'') = mask_events now evs locks' in (ev' ∷ rest, locks'')

  -- The second loop, over the events that were consumed.
  unfoldable pub report : List (TaskEvent D) → IngestResult
  report [] = record { duplicate_rejected_task_ids = []; removed_task_ids = [] }
  report (ev ∷ evs) =
      let r = report evs in
      elim ev.type [
        | TaskEventType.removed ↦ record r { removed_task_ids = ev.task_id ∷ r.removed_task_ids }
        | TaskEventType.duplicate_rejected ↦ record r {
          duplicate_rejected_task_ids = ev.task_id ∷ r.duplicate_rejected_task_ids;
        }
        | _ ↦ r
      ]

module _ (d : Doubles) (now : ℤ) where
  open d use {Double}

  unfoldable pub ingest_events :
      List (TaskEvent Double) → Ingest Double → Ingest Double × IngestResult
  ingest_events [] s = (s, report {D = Double} [])
  ingest_events (ev ∷ evs) s =
      let (masked, locks') = mask_events now (ev ∷ evs) s.locks in
      (record { locks = locks'; tasks = consume_batch d now masked s.tasks }, report masked)

  -- The flag says that the pipeline is no null pointer. Without events nothing happens, so the test
  -- for an empty list of views needs no branch of its own.
  unfoldable pub ingest :
      Bool → List (LtAlertView Double) → Ingest Double → Ingest Double × IngestResult
  unfolding ingest_events
  ingest pipeline views s =
      if pipeline then ingest_events (map_alerts d views) s else (s, report {D = Double} [])
