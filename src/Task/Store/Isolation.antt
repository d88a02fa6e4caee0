-- ===== src/Task/Store/Isolation.antt =====
-- What the store holds of one task depends on the events of that task alone: each task is a state
-- machine of its own.
use torrent_link.Prelude.{
  ℤ, ◌≡◌, refl, Option, none, some, List, [], ◌∷◌, ◌++◌, arith, ◌==◌, filter, nat_key,
  if◌then◌else◌,
}
use torrent_link.Prelude.Assoc.{lookup, lookup-put, lookup-erase}
use torrent_link.Types.{TaskId, Doubles}
use torrent_link.Task.Event.{TaskEvent, TaskEventType}
use torrent_link.Task.Snapshot.{TaskSnapshot}
use torrent_link.Task.Store.{TaskStateStore, emplace, touch, apply_event, consume_batch}

module _ (d : Doubles) (now : ℤ) where
  open d use {Double}

  -- What an event does to the snapshot of its own task; `none` is a task that is not there.
  unfoldable pub step :
      TaskEvent Double → Option (TaskSnapshot Double) → Option (TaskSnapshot Double)
  step e o = elim e.type [
    | TaskEventType.duplicate_rejected ↦ o
    | TaskEventType.removed ↦ none
    | _ ↦ some (touch d now e (emplace d now e o))
  ]

  unfoldable pub steps :
      List (TaskEvent Double) → Option (TaskSnapshot Double) → Option (TaskSnapshot Double)
  steps [] o = o
  steps (e ∷ es) o = steps es (step e o)

  pub lookup-apply_event :
      (e : TaskEvent Double) (tasks : TaskStateStore Double) (j : TaskId)
      → lookup j (apply_event d now e tasks)
        ≡ (if e.task_id == j then step e (lookup j tasks) else lookup j tasks)
  unfolding apply_event step
  lookup-apply_event e tasks j = ground (
    arith,
    lookup-erase e.task_id j tasks,
    lookup-put e.task_id j (touch d now e (emplace d now e (lookup e.task_id tasks))) tasks,
  )

  pub steps-append :
      (es fs : List (TaskEvent Double)) (o : Option (TaskSnapshot Double))
      → steps (es ++ fs) o ≡ steps fs (steps es o)
  unfolding steps
  steps-append [] fs o = refl
  steps-append (e ∷ es) fs o = steps-append es fs (step e o)

  -- The snapshot that a batch leaves of a task is what the events of that task, in their order,
  -- make of the snapshot before; the events of other tasks do not matter.
  pub lookup-consume_batch :
      (es : List (TaskEvent Double)) (tasks : TaskStateStore Double) (j : TaskId)
      → lookup j (consume_batch d now es tasks)
        ≡ steps (filter (λ e. e.task_id == j) es) (lookup j tasks)
  unfolding consume_batch steps
  lookup-consume_batch [] tasks j = refl
  lookup-consume_batch (e ∷ es) tasks j =
      ground
        (arith, lookup-consume_batch es (apply_event d now e tasks) j, lookup-apply_event e tasks j)
