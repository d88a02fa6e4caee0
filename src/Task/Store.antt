-- ===== src/Task/Store.antt =====
-- core/task_state_store.cc and core/task_pipeline.cc: events are folded into one snapshot per task.
-- `now` is the clock that `currentMs` reads. The mutex makes each call atomic, and is not modelled.
pub mod Merge
pub mod Isolation
pub mod Invariant
pub mod Replay
use torrent_link.Prelude.{ℤ, String, Option, none, some, List, [], ◌∷◌, map, if◌then◌else◌, nat_key}
use torrent_link.Prelude.Assoc.{Assoc, lookup, put, erase}
use torrent_link.Types.{TaskId, TaskStatus, is_valid_ms, Doubles}
use torrent_link.Task.Event.{TaskEvent, TaskEventType}
use torrent_link.Task.Snapshot.{TaskSnapshot, default_snapshot}
use Merge.{merge_meta, merge_status, merge_progress, merge_rate, merge_error}

-- `tasks_`
abbrev pub TaskStateStore : Type 0 → Type 0
TaskStateStore D = Assoc TaskId (TaskSnapshot D)

unfoldable pub pick_event_time_or_now : ℤ → ℤ → ℤ
pick_event_time_or_now now event_ms = if is_valid_ms event_ms then event_ms else now

module _ (d : Doubles) where
  open d use {Double}

  -- The switch on the event's type.
  unfoldable pub merge :
      TaskEventType → TaskEvent Double → TaskSnapshot Double → TaskSnapshot Double
  merge TaskEventType.upsert_meta e s = merge_meta e s
  merge TaskEventType.status_changed e s = merge_status e s
  merge TaskEventType.progress_updated e s = merge_progress d e s
  merge TaskEventType.rate_updated e s = merge_rate e s
  merge TaskEventType.error_occurred e s = merge_error e s
  merge TaskEventType.duplicate_rejected e s = s
  merge TaskEventType.removed e s = s

module _ (d : Doubles) (now : ℤ) where
  open d use {Double, zero_d}

  -- The snapshot that `try_emplace` finds or makes.
  unfoldable pub emplace : TaskEvent Double → Option (TaskSnapshot Double) → TaskSnapshot Double
  unfolding pick_event_time_or_now default_snapshot
  emplace e none = record (default_snapshot zero_d) {
    task_id = e.task_id;
    added_at_ms = pick_event_time_or_now now e.event_ms;
  }
  emplace e (some s) = s

  -- The snapshot after the switch, with its time of update.
  unfoldable pub touch : TaskEvent Double → TaskSnapshot Double → TaskSnapshot Double
  unfolding pick_event_time_or_now
  touch e s = record (merge d e.type e s) {
    last_updated_ms = pick_event_time_or_now now e.event_ms;
  }

  unfoldable pub apply_event : TaskEvent Double → TaskStateStore Double → TaskStateStore Double
  apply_event e tasks = elim e.type [
    | TaskEventType.duplicate_rejected ↦ tasks
    | TaskEventType.removed ↦ erase e.task_id tasks
    | _ ↦ put e.task_id (touch e (emplace e (lookup e.task_id tasks))) tasks
  ]

  -- TaskPipeline::consumeBatch. `now` is read at each event; within a batch it is one value here.
  unfoldable pub consume_batch :
      List (TaskEvent Double) → TaskStateStore Double → TaskStateStore Double
  consume_batch [] tasks = tasks
  consume_batch (e ∷ es) tasks = consume_batch es (apply_event e tasks)

unfoldable pub snapshot {ℓ} : {V : Type ℓ} → TaskId → Assoc TaskId V → Option V
snapshot id tasks = lookup id tasks

unfoldable pub snapshots {ℓ} : {V : Type ℓ} → Assoc TaskId V → List V
snapshots tasks = map (λ entry. entry.1) tasks
