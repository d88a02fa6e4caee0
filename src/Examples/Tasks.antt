-- ===== src/Examples/Tasks.antt =====
-- The task pipeline (core/task_state_store.cc, lt/, app/event_ingest_orchestrator.cc) at concrete
-- inputs, with integers in the place of doubles.
use torrent_link.Prelude.{
  ℤ, pos, negsuc, nonneg, ◌≡◌, refl, true, some, [], ◌∷◌, ◌++◌, ◌==◌, filter, inl, nat_key,
}
use torrent_link.Prelude.Assoc.{lookup}
use torrent_link.Types.{TaskStatus, Doubles, is_valid_ms}
use torrent_link.Task.Event.{TaskEvent, TaskEventType}
use torrent_link.Task.Snapshot.{TaskSnapshot}
use torrent_link.Task.Store.{TaskStateStore, consume_batch}
use torrent_link.Task.Store.Isolation.{steps, lookup-consume_batch}
use torrent_link.Task.Store.Invariant.{IsValid, IsValid-empty, consume_batch-IsValid}
use torrent_link.Task.Store.Replay.{removal_forgets}
use torrent_link.Task.Alert.{LtAlertView, AlertType}
use torrent_link.Task.Ingest.{Ingest, ingest}
use torrent_link.Task.Ingest.Lock.{status_of, lock_holds_status}

abbrev int_doubles : Doubles
int_doubles = record {
  Double = ℤ;
  zero_d = pos 0;
  minus_one_d = negsuc 0;
  at_least_zero = nonneg;
  minus_one-IsNegative = refl;
}

abbrev now : ℤ
now = pos 1000

abbrev blank : LtAlertView ℤ
blank = record {
  type = AlertType.ignored;
  task_id = 0;
  status = TaskStatus.unknown;
  name = "";
  save_path = "";
  message = "";
  total_bytes = negsuc 0;
  selected_bytes = negsuc 0;
  downloaded_bytes = negsuc 0;
  uploaded_bytes = negsuc 0;
  download_rate = negsuc 0;
  upload_rate = negsuc 0;
  seeders = negsuc 0;
  users = negsuc 0;
  availability = negsuc 0;
  category = "";
  tags = "";
  magnet = "";
  info_hash_v1 = "";
  info_hash_v2 = "";
  comment = "";
  event_ms = negsuc 0;
  active_time_sec = negsuc 0;
  dl_limit_bps = negsuc 0;
  ul_limit_bps = negsuc 0;
  wasted_bytes = negsuc 0;
  next_announce_sec = negsuc 0;
  last_seen_complete_ms = negsuc 0;
  pieces = negsuc 0;
  piece_length = negsuc 0;
  created_by = "";
  created_on_ms = negsuc 0;
  completed_on_ms = negsuc 0;
  is_private = negsuc 0;
}

abbrev event : TaskEvent ℤ
event = record {
  type = TaskEventType.upsert_meta;
  task_id = 0;
  status = TaskStatus.unknown;
  name = "";
  save_path = "";
  error_message = "";
  total_bytes = negsuc 0;
  selected_bytes = negsuc 0;
  downloaded_bytes = negsuc 0;
  uploaded_bytes = negsuc 0;
  download_rate = negsuc 0;
  upload_rate = negsuc 0;
  seeders = negsuc 0;
  users = negsuc 0;
  availability = negsuc 0;
  category = "";
  tags = "";
  info_hash_v1 = "";
  info_hash_v2 = "";
  comment = "";
  event_ms = negsuc 0;
  active_time_sec = negsuc 0;
  dl_limit_bps = negsuc 0;
  ul_limit_bps = negsuc 0;
  wasted_bytes = negsuc 0;
  next_announce_sec = negsuc 0;
  last_seen_complete_ms = negsuc 0;
  pieces = negsuc 0;
  piece_length = negsuc 0;
  created_by = "";
  created_on_ms = negsuc 0;
  completed_on_ms = negsuc 0;
  is_private = negsuc 0;
}

-- Two tasks are added, one is renamed, reports progress and is removed, and is added again.
abbrev added : TaskEvent ℤ
added = record event { task_id = 7; name = "one"; total_bytes = pos 100; event_ms = pos 5 }

abbrev other : TaskEvent ℤ
other = record event { task_id = 8; name = "two"; status = TaskStatus.paused }

abbrev progress : TaskEvent ℤ
progress = record event {
  type = TaskEventType.progress_updated;
  task_id = 7;
  status = TaskStatus.downloading;
  downloaded_bytes = pos 40;
  event_ms = pos 6;
}

abbrev no_tasks : TaskStateStore ℤ
no_tasks = []

abbrev removal : TaskEvent ℤ
removal = record event { type = TaskEventType.removed; task_id = 7 }

lookup-consume_batch_example :
    lookup 7 (consume_batch int_doubles now (added ∷ other ∷ progress ∷ []) [])
    ≡ steps int_doubles now
        (filter (λ e. e.task_id == 7) (added ∷ other ∷ progress ∷ []))
        (lookup 7 no_tasks)
lookup-consume_batch_example =
    lookup-consume_batch int_doubles now (added ∷ other ∷ progress ∷ []) [] 7

removal_forgets_example :
    lookup 7 (consume_batch int_doubles now ((added ∷ progress ∷ []) ++ removal ∷ added ∷ []) [])
    ≡ lookup 7 (consume_batch int_doubles now (added ∷ []) [])
removal_forgets_example =
    removal_forgets int_doubles now (added ∷ progress ∷ []) (added ∷ []) removal [] refl

consume_batch-IsValid_example :
    IsValid (consume_batch int_doubles now (added ∷ progress ∷ other ∷ []) [])
consume_batch-IsValid_example =
    consume_batch-IsValid int_doubles now (unfold is_valid_ms in refl)
      (added ∷ progress ∷ other ∷ []) [] IsValid-empty

-- An alert for each of the two tasks, and one that is ignored.
abbrev new_task : LtAlertView ℤ
new_task = record blank { type = AlertType.task_added; task_id = 7; name = "one" }

abbrev moving : LtAlertView ℤ
moving = record blank {
  type = AlertType.task_progress;
  task_id = 7;
  status = TaskStatus.downloading;
  downloaded_bytes = pos 40;
}

abbrev elsewhere : LtAlertView ℤ
elsewhere = record blank { type = AlertType.task_removed; task_id = 8 }

-- The task was paused by the user a moment ago.
abbrev paused_task : TaskSnapshot ℤ
paused_task = record {
  task_id = 7;
  status = TaskStatus.paused;
  name = "";
  save_path = "";
  error_message = "";
  category = "";
  tags = "";
  info_hash_v1 = "";
  info_hash_v2 = "";
  comment = "";
  total_bytes = pos 0;
  selected_bytes = pos 0;
  downloaded_bytes = pos 0;
  uploaded_bytes = pos 0;
  download_rate = pos 0;
  upload_rate = pos 0;
  seeders = pos 0;
  users = pos 0;
  availability = pos 0;
  added_at_ms = pos 0;
  active_time_sec = pos 0;
  dl_limit_bps = pos 0;
  ul_limit_bps = pos 0;
  wasted_bytes = pos 0;
  next_announce_sec = pos 0;
  last_seen_complete_ms = pos 0;
  pieces = pos 0;
  piece_length = pos 0;
  created_by = "";
  created_on_ms = pos 0;
  completed_on_ms = pos 0;
  is_private = pos 0;
  last_updated_ms = pos 0;
}

abbrev locked : Ingest ℤ
locked = record { locks = (7, pos 2000) ∷ []; tasks = (7, paused_task) ∷ [] }

lock_holds_status_example :
    status_of
      (lookup 7 (ingest int_doubles now true (moving ∷ elsewhere ∷ moving ∷ []) locked).0.tasks)
    ≡ some TaskStatus.paused
lock_holds_status_example =
    lock_holds_status int_doubles now 7 (pos 2000) refl true (moving ∷ elsewhere ∷ moving ∷ [])
      locked TaskStatus.paused (unfold lookup in refl)
      (λ own. inl refl, (λ own. cc, (λ own. inl refl, tt))) (unfold lookup in refl)
