-- ===== src/Task/Ingest/Lock.antt =====
-- The lock on a task's status while a command of the user is under way.
use torrent_link.Prelude.{
  ℤ, ltb_ℤ, ◌≡◌, refl, sym, ◌∙◌, ap, Bool, true, false, ◌⊎◌, inl, inr, Option, none, some, List, [],
  ◌∷◌, arith, ◌==◌, All, nat_key, Option-cases, Bool-cases,
}
use torrent_link.Prelude.Assoc.{lookup, lookup-erase}
use torrent_link.Types.{TaskId, TaskStatus, Doubles}
use torrent_link.Task.Event.{TaskEvent, TaskEventType}
use torrent_link.Task.Snapshot.{TaskSnapshot}
use torrent_link.Task.Store.{TaskStateStore, emplace, touch, merge, apply_event, consume_batch}
use torrent_link.Task.Store.Merge.{or_status, merge_progress, merge_rate}
use torrent_link.Task.Store.Isolation.{step, lookup-apply_event}
use torrent_link.Task.Alert.{
  LtAlertView, AlertType, map_type, map_alert_to_task_event, map_alerts, consume_if_any_lem,
  dispatch_alert_views,
}
use torrent_link.Task.Ingest.{Ingest, Locks, mask, mask_event, mask_events, ingest_events, ingest}

-- The status that the store shows of a task, if the task is there.
abbrev pub status_of : {D : Type 0} → Option (TaskSnapshot D) → Option TaskStatus
status_of none = none
status_of (some s) = some s.status

-- An event that, if it is about the task, reports its progress or its rates only.
abbrev Quiet : {D : Type 0} → TaskId → TaskEvent D → Type 0
Quiet j ev =
    (ev.task_id == j) ≡ true
    → (ev.type ≡ TaskEventType.progress_updated) ⊎ (ev.type ≡ TaskEventType.rate_updated)

-- The same of an alert.
abbrev pub IsQuiet : {D : Type 0} → TaskId → LtAlertView D → Type 0
IsQuiet j a =
    (a.task_id == j) ≡ true → (a.type ≡ AlertType.task_progress) ⊎ (a.type ≡ AlertType.task_rate)

module _ (d : Doubles) (now : ℤ) where
  open d use {Double}

  map_type-Quiet :
      (j : TaskId) (t : AlertType) (a : LtAlertView Double) (ev ev' : TaskEvent Double)
      → ((ev.task_id == j) ≡ true → (t ≡ AlertType.task_progress) ⊎ (t ≡ AlertType.task_rate))
      → map_type d t a ev ≡ some ev'
      → Quiet j ev'
  unfolding map_type
  map_type-Quiet j t a ev ev' q h own = ground arith

  map_alert-Quiet :
      (j : TaskId) (a : LtAlertView Double) (ev : TaskEvent Double)
      → IsQuiet j a
      → map_alert_to_task_event d a ≡ some ev
      → Quiet j ev
  unfolding map_alert_to_task_event
  map_alert-Quiet j a ev q h own = ground arith

  map_alerts-Quiet :
      (j : TaskId) (as' : List (LtAlertView Double))
      → All (IsQuiet j) as'
      → All (Quiet j) (map_alerts d as')
  unfolding map_alerts
  map_alerts-Quiet j [] q = tt
  map_alerts-Quiet j (a ∷ as') q = elim (Option-cases (map_alert_to_task_event d a)) [
    | inl e ↦ rw (e, map_alerts) (map_alerts-Quiet j as' q.1)
    | inr (ev, e) ↦ rw (e, map_alerts) (map_alert-Quiet j a ev q.0 e, map_alerts-Quiet j as' q.1)
  ]

  module _ (j : TaskId) (until : ℤ) (early : ltb_ℤ now until ≡ true) where
    -- A lock that still runs is not dropped, and its task's progress events lose their status.
    mask_event-lock :
        (ev : TaskEvent Double) (locks : Locks)
        → lookup j locks ≡ some until
        → lookup j (mask_event now ev locks).1 ≡ some until
    unfolding mask_event mask
    mask_event-lock ev locks h = ground (arith, lookup-erase ev.task_id j locks)

    task_id-mask_event :
        (ev : TaskEvent Double) (locks : Locks) → (mask_event now ev locks).0.task_id ≡ ev.task_id
    unfolding mask_event mask
    task_id-mask_event ev locks = ground arith

    step-masked :
        (ev : TaskEvent Double) (locks : Locks) (s : TaskSnapshot Double)
        → lookup j locks ≡ some until
        → Quiet j ev
        → (ev.task_id == j) ≡ true
        → status_of (step d now (mask_event now ev locks).0 (some s)) ≡ some s.status
    unfolding mask_event mask step touch merge merge_progress merge_rate or_status emplace
    step-masked ev locks s h q own = ground (arith, q own)

    status-apply_event :
        (ev : TaskEvent Double) (locks : Locks) (tasks : TaskStateStore Double)
        (o : Option (TaskSnapshot Double)) (st : TaskStatus)
        → lookup j locks ≡ some until
        → Quiet j ev
        → lookup j tasks ≡ o
        → status_of o ≡ some st
        → status_of (lookup j (apply_event d now (mask_event now ev locks).0 tasks)) ≡ some st
    status-apply_event ev locks tasks none st h q at e = cc
    status-apply_event ev locks tasks (some s) st h q at e =
        rw
          (
            lookup-apply_event d now (mask_event now ev locks).0 tasks j,
            task_id-mask_event ev locks,
          )
          (elim (Bool-cases (ev.task_id == j)) [
            | inl own ↦ rw (own, at) (step-masked ev locks s h q own ∙ e)
            | inr other ↦ rw (other, at) e
          ])

    status-consume_batch :
        (evs : List (TaskEvent Double)) (locks : Locks) (tasks : TaskStateStore Double)
        (st : TaskStatus)
        → lookup j locks ≡ some until
        → All (Quiet j) evs
        → status_of (lookup j tasks) ≡ some st
        → status_of (lookup j (consume_batch d now (mask_events now evs locks).0 tasks)) ≡ some st
    unfolding mask_events consume_batch
    status-consume_batch [] locks tasks st h q e = e
    status-consume_batch (ev ∷ evs) locks tasks st h q e =
        status-consume_batch evs (mask_event now ev locks).1
          (apply_event d now (mask_event now ev locks).0 tasks) st (mask_event-lock ev locks h) q.1
          (status-apply_event ev locks tasks (lookup j tasks) st h q.0 refl e)

    status-ingest_events :
        (evs : List (TaskEvent Double)) (s : Ingest Double) (st : TaskStatus)
        → lookup j s.locks ≡ some until
        → All (Quiet j) evs
        → status_of (lookup j s.tasks) ≡ some st
        → status_of (lookup j (ingest_events d now evs s).0.tasks) ≡ some st
    unfolding ingest_events
    status-ingest_events [] s st h q e = e
    status-ingest_events (ev ∷ evs) s st h q e =
        status-consume_batch (ev ∷ evs) s.locks s.tasks st h q e

    -- While a task's lock runs, ingesting alerts of which those about the task report only progress
    -- and rates leaves the status that the store shows of the task as it was, however many there
    -- are and whatever the other alerts do.
    pub lock_holds_status :
        (pipeline : Bool) (views : List (LtAlertView Double)) (s : Ingest Double) (st : TaskStatus)
        → lookup j s.locks ≡ some until
        → All (IsQuiet j) views
        → status_of (lookup j s.tasks) ≡ some st
        → status_of (lookup j (ingest d now pipeline views s).0.tasks) ≡ some st
    unfolding ingest
    lock_holds_status true views s st h q e =
        status-ingest_events (map_alerts d views) s st h (map_alerts-Quiet j views q) e
    lock_holds_status false views s st h q e = e

  mask_events-nil : (evs : List (TaskEvent Double)) → mask_events now evs [] ≡ (evs, [])
  unfolding mask_events mask_event mask lookup
  mask_events-nil [] = refl
  mask_events-nil (ev ∷ evs) = ground (arith, mask_events-nil evs)

  ingest_events-nil :
      (evs : List (TaskEvent Double)) (tasks : TaskStateStore Double)
      → (ingest_events d now evs (record { locks = []; tasks = tasks })).0
        ≡ record { locks = []; tasks = consume_batch d now evs tasks }
  unfolding ingest_events consume_batch
  ingest_events-nil [] tasks = refl
  ingest_events-nil (ev ∷ evs) tasks = rw (mask_events-nil (ev ∷ evs), consume_batch)

  -- With no lock set, ingesting alerts leaves the store that dispatching them leaves, and sets no
  -- lock.
  pub ingest-dispatch :
      (pipeline : Bool) (views : List (LtAlertView Double)) (tasks : TaskStateStore Double)
      → (ingest d now pipeline views (record { locks = []; tasks = tasks })).0
        ≡ record { locks = []; tasks = dispatch_alert_views d now pipeline views tasks }
  unfolding ingest dispatch_alert_views
  ingest-dispatch true views tasks =
      ingest_events-nil (map_alerts d views) tasks
      ∙ ap (λ t. record { locks = []; tasks = t })
          (sym (consume_if_any_lem d now (map_alerts d views) tasks))
  ingest-dispatch false views tasks = refl
