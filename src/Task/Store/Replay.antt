-- ===== src/Task/Store/Replay.antt =====
-- Tasks that are removed and come back.
use torrent_link.Prelude.{
  ℤ, ◌≡◌, ◌∙◌, sym, ap, Option, none, List, [], ◌∷◌, ◌++◌, arith, ◌==◌, filter, nat_key,
}
use torrent_link.Prelude.Assoc.{lookup}
use torrent_link.Types.{Doubles}
use torrent_link.Task.Event.{TaskEvent, TaskEventType}
use torrent_link.Task.Snapshot.{TaskSnapshot}
use torrent_link.Task.Store.{TaskStateStore, apply_event, consume_batch}
use torrent_link.Task.Store.Isolation.{step, steps, lookup-apply_event, lookup-consume_batch}

module _ (d : Doubles) (now : ℤ) where
  open d use {Double}

  step-removed :
      (e : TaskEvent Double) (o : Option (TaskSnapshot Double))
      → e.type ≡ TaskEventType.removed
      → step d now e o ≡ none
  unfolding step
  step-removed e o h = ground arith

  -- A removal wipes a task: whatever a batch said of it before, and whatever the store held, the
  -- snapshot after the batch is the one that the later events alone make in an empty store.
  pub removal_forgets :
      (es fs : List (TaskEvent Double)) (r : TaskEvent Double) (tasks : TaskStateStore Double)
      → r.type ≡ TaskEventType.removed
      → lookup r.task_id (consume_batch d now (es ++ r ∷ fs) tasks)
        ≡ lookup r.task_id (consume_batch d now fs [])
  unfolding consume_batch
  removal_forgets (e ∷ es) fs r tasks h = removal_forgets es fs r (apply_event d now e tasks) h
  removal_forgets [] fs r tasks h =
      lookup-consume_batch d now fs (apply_event d now r tasks) r.task_id
      ∙ ap (steps d now (filter (λ e. e.task_id == r.task_id) fs)) gone
      ∙ sym (lookup-consume_batch d now fs [] r.task_id)
    where
      gone : lookup r.task_id (apply_event d now r tasks) ≡ lookup r.task_id []
      gone =
          unfold lookup in
          ground (
            arith,
            lookup-apply_event d now r tasks r.task_id,
            step-removed r (lookup r.task_id tasks) h,
          )
