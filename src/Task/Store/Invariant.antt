-- ===== src/Task/Store/Invariant.antt =====
-- What holds of every snapshot that the store ever shows.
use torrent_link.Prelude.{
  ℤ, pos, negsuc, nonneg, ◌≡◌, ◌≤◌, refl, true, Option, none, some, List, [], ◌∷◌, arith, ◌==◌,
  ==_iff, nat_key, Bool-cases, inl, inr, subst,
}
use torrent_link.Prelude.Assoc.{lookup, entries, entries-put, entries-erase_le}
use torrent_link.Types.{TaskId, Doubles, is_valid_ms}
use torrent_link.Task.Event.{TaskEvent, TaskEventType}
use torrent_link.Task.Snapshot.{TaskSnapshot, default_snapshot}
use torrent_link.Task.Store.{
  TaskStateStore, pick_event_time_or_now, emplace, touch, merge, apply_event, consume_batch,
}
use torrent_link.Task.Store.Merge.{
  or_num, merge_meta, merge_status, merge_progress, merge_rate, merge_error,
}
use torrent_link.Task.Store.Isolation.{step, lookup-apply_event}

-- A snapshot of the task `j` bears the id, has a time of creation, and its counters are not
-- negative.
pub record IsFilled {D : Type 0} (j : TaskId) (s : TaskSnapshot D) : Type 0 where
  pub keyed : s.task_id ≡ j
  pub added : is_valid_ms s.added_at_ms ≡ true
  pub total : nonneg s.total_bytes ≡ true
  pub selected : nonneg s.selected_bytes ≡ true
  pub downloaded : nonneg s.downloaded_bytes ≡ true
  pub uploaded : nonneg s.uploaded_bytes ≡ true
  pub down_rate : nonneg s.download_rate ≡ true
  pub up_rate : nonneg s.upload_rate ≡ true
  pub seeding : nonneg s.seeders ≡ true
  pub using : nonneg s.users ≡ true
  pub active : nonneg s.active_time_sec ≡ true
  pub dl_limit : nonneg s.dl_limit_bps ≡ true
  pub ul_limit : nonneg s.ul_limit_bps ≡ true
  pub wasted : nonneg s.wasted_bytes ≡ true
  pub piece_count : nonneg s.pieces ≡ true
  pub piece_size : nonneg s.piece_length ≡ true

-- A snapshot between two events has a time of update too.
pub record IsSound {D : Type 0} (j : TaskId) (s : TaskSnapshot D) : Type 0 where
  pub filled : IsFilled j s
  pub updated : is_valid_ms s.last_updated_ms ≡ true

-- A store holds one entry for a task at most, and sound snapshots only.
pub record IsValid {D : Type 0} (tasks : TaskStateStore D) : Type 0 where
  pub unique : (j : TaskId) → entries j tasks ≤ 1
  pub sound : (j : TaskId) (s : TaskSnapshot D) → lookup j tasks ≡ some s → IsSound j s

or_num-nonneg : (n f : ℤ) → nonneg f ≡ true → nonneg (or_num n f) ≡ true
unfolding or_num
or_num-nonneg (pos n) f h = refl
or_num-nonneg (negsuc n) f h = h

pick_event_time_or_now-IsValid :
    (now ms : ℤ) → is_valid_ms now ≡ true → is_valid_ms (pick_event_time_or_now now ms) ≡ true
unfolding pick_event_time_or_now
pick_event_time_or_now-IsValid now ms h = ground arith

module _ (d : Doubles) where
  open d use {Double}

  merge-IsFilled :
      {j : TaskId} (t : TaskEventType) (e : TaskEvent Double) (s : TaskSnapshot Double)
      → IsFilled j s
      → IsFilled j (merge d t e s)
  unfolding merge merge_meta merge_status merge_progress merge_rate merge_error
  merge-IsFilled TaskEventType.upsert_meta e s h = ground (
    arith,
    or_num-nonneg e.total_bytes s.total_bytes,
    or_num-nonneg e.selected_bytes s.selected_bytes,
    or_num-nonneg e.pieces s.pieces,
    or_num-nonneg e.piece_length s.piece_length,
  )
  merge-IsFilled TaskEventType.progress_updated e s h = ground (
    arith,
    or_num-nonneg e.total_bytes s.total_bytes,
    or_num-nonneg e.selected_bytes s.selected_bytes,
    or_num-nonneg e.downloaded_bytes s.downloaded_bytes,
    or_num-nonneg e.uploaded_bytes s.uploaded_bytes,
    or_num-nonneg e.download_rate s.download_rate,
    or_num-nonneg e.upload_rate s.upload_rate,
    or_num-nonneg e.seeders s.seeders,
    or_num-nonneg e.users s.users,
    or_num-nonneg e.active_time_sec s.active_time_sec,
    or_num-nonneg e.dl_limit_bps s.dl_limit_bps,
    or_num-nonneg e.ul_limit_bps s.ul_limit_bps,
    or_num-nonneg e.wasted_bytes s.wasted_bytes,
    or_num-nonneg e.pieces s.pieces,
    or_num-nonneg e.piece_length s.piece_length,
  )
  merge-IsFilled _ e s h = ground (
    arith,
    or_num-nonneg e.download_rate s.download_rate,
    or_num-nonneg e.upload_rate s.upload_rate,
  )

module _ (d : Doubles) (now : ℤ) (running : is_valid_ms now ≡ true) where
  open d use {Double}

  touch-IsSound :
      {j : TaskId} (e : TaskEvent Double) (s : TaskSnapshot Double)
      → IsFilled j s
      → IsSound j (touch d now e s)
  unfolding touch
  touch-IsSound e s h = record {
    filled = let m = merge-IsFilled d e.type e s h in assumption;
    updated = pick_event_time_or_now-IsValid now e.event_ms running;
  }

  emplace-IsFilled :
      (e : TaskEvent Double) (o : Option (TaskSnapshot Double))
      → ((s : TaskSnapshot Double) → o ≡ some s → IsSound e.task_id s)
      → IsFilled e.task_id (emplace d now e o)
  unfolding emplace default_snapshot
  emplace-IsFilled e none h = ground (arith, pick_event_time_or_now-IsValid now e.event_ms running)
  emplace-IsFilled e (some s) h = (h s refl).filled

  step-IsSound :
      (e : TaskEvent Double) (o : Option (TaskSnapshot Double))
      → ((s : TaskSnapshot Double) → o ≡ some s → IsSound e.task_id s)
      → (s : TaskSnapshot Double) → step d now e o ≡ some s
      → IsSound e.task_id s
  unfolding step
  step-IsSound e o h s q = go e.type refl
    where
      touched : IsSound e.task_id (touch d now e (emplace d now e o))
      touched = touch-IsSound e _ (emplace-IsFilled e o h)

      go : (t : TaskEventType) → e.type ≡ t → IsSound e.task_id s
      go TaskEventType.duplicate_rejected p = h s (ground arith)
      go TaskEventType.removed p = absurd (ground arith)
      go _ p = subst (IsSound e.task_id) (ground arith) touched

  entries-apply_event :
      (e : TaskEvent Double) (tasks : TaskStateStore Double) (j : TaskId)
      → entries j tasks ≤ 1
      → entries j (apply_event d now e tasks) ≤ 1
  unfolding apply_event
  entries-apply_event e tasks j h = ground (
    arith,
    entries-put e.task_id j (touch d now e (emplace d now e (lookup e.task_id tasks))) tasks,
    entries-erase_le e.task_id j tasks,
  )

  -- Every event, of whatever type and however its fields are filled, keeps the store valid: one
  -- snapshot for a task, under its own id, dated, with no negative counter.
  pub apply_event-IsValid :
      (e : TaskEvent Double) (tasks : TaskStateStore Double)
      → IsValid tasks
      → IsValid (apply_event d now e tasks)
  apply_event-IsValid e tasks v = record {
    unique = λ j. entries-apply_event e tasks j (v.unique j);
    sound = λ j s h. elim (Bool-cases (e.task_id == j)) [
      | inl own ↦
          let same : e.task_id ≡ j = (==_iff e.task_id j).0 own in
          subst (λ i. IsSound i s) same
            (step-IsSound e (lookup e.task_id tasks) (v.sound e.task_id) s
              (ground (arith, lookup-apply_event d now e tasks j)))
      | inr other ↦ v.sound j s (ground (arith, lookup-apply_event d now e tasks j))
    ];
  }

  -- If the clock is valid, every batch of events keeps a valid store valid: one snapshot for a task,
  -- under its own id, dated, with no negative counter, however the fields of the events are filled.
  pub consume_batch-IsValid :
      (es : List (TaskEvent Double)) (tasks : TaskStateStore Double)
      → IsValid tasks
      → IsValid (consume_batch d now es tasks)
  unfolding consume_batch
  consume_batch-IsValid [] tasks v = v
  consume_batch-IsValid (e ∷ es) tasks v =
      consume_batch-IsValid es (apply_event d now e tasks) (apply_event-IsValid e tasks v)

pub IsValid-empty : {D : Type 0} → IsValid {D = D} []
unfolding lookup entries
IsValid-empty = record { unique = λ j. omega arith; sound = λ j s h. cc }
