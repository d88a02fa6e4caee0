-- ===== src/Task/Alert.antt =====
-- lt/task_event_mapper.cc and lt/task_event_dispatcher.cc: the view of a session alert, the event
-- that it becomes, and its way into the pipeline.
use torrent_link.Prelude.{
  ℤ, ◌≡◌, refl, sym, ◌∙◌, inl, inr, Bool, true, false, ◌||◌, String, Option, none, some, List, [],
  ◌∷◌, arith, Option-cases, if◌then◌else◌,
}
use torrent_link.Types.{TaskId, TaskStatus, is_null, Doubles}
use torrent_link.Task.Event.{TaskEvent, TaskEventType, default_event}
use torrent_link.Task.Store.{TaskStateStore, apply_event, consume_batch}

pub data AlertType : Type 0 where
  task_added task_state_changed task_progress task_rate task_error duplicate_rejected task_removed
        ignored :
      AlertType

pub record LtAlertView (D : Type 0) : Type 0 where
  pub type : AlertType
  pub task_id : TaskId
  pub status : TaskStatus
  pub name : String
  pub save_path : String
  pub message : String
  pub total_bytes : ℤ
  pub selected_bytes : ℤ
  pub downloaded_bytes : ℤ
  pub uploaded_bytes : ℤ
  pub download_rate : ℤ
  pub upload_rate : ℤ
  pub seeders : ℤ
  pub users : ℤ
  pub availability : D
  pub category : String
  pub tags : String
  pub magnet : String
  pub info_hash_v1 : String
  pub info_hash_v2 : String
  pub comment : String
  pub event_ms : ℤ
  pub active_time_sec : ℤ
  pub dl_limit_bps : ℤ
  pub ul_limit_bps : ℤ
  pub wasted_bytes : ℤ
  pub next_announce_sec : ℤ
  pub last_seen_complete_ms : ℤ
  pub pieces : ℤ
  pub piece_length : ℤ
  pub created_by : String
  pub created_on_ms : ℤ
  pub completed_on_ms : ℤ
  pub is_private : ℤ

-- `alert.type == kIgnored`
abbrev is_ignored : AlertType → Bool
is_ignored ignored = true
is_ignored _ = false

module _ (d : Doubles) where
  open d use {Double, minus_one_d}

  -- The switch on the alert's type; `ev` has the id and the time of the alert already.
  unfoldable pub map_type :
      AlertType → LtAlertView Double → TaskEvent Double → Option (TaskEvent Double)
  map_type task_added alert ev = some (record ev {
    type = TaskEventType.upsert_meta;
    name = alert.name;
    save_path = alert.save_path;
    info_hash_v1 = alert.info_hash_v1;
    info_hash_v2 = alert.info_hash_v2;
    comment = alert.comment;
    total_bytes = alert.total_bytes;
    selected_bytes = alert.selected_bytes;
    pieces = alert.pieces;
    piece_length = alert.piece_length;
    created_by = alert.created_by;
    created_on_ms = alert.created_on_ms;
    is_private = alert.is_private;
  })
  map_type task_state_changed alert ev = some (record ev {
    type = TaskEventType.status_changed;
    status = alert.status;
    error_message = alert.message;
  })
  map_type task_progress alert ev = some (record ev {
    type = TaskEventType.progress_updated;
    name = alert.name;
    status = alert.status;
    total_bytes = alert.total_bytes;
    selected_bytes = alert.selected_bytes;
    downloaded_bytes = alert.downloaded_bytes;
    uploaded_bytes = alert.uploaded_bytes;
    download_rate = alert.download_rate;
    upload_rate = alert.upload_rate;
    seeders = alert.seeders;
    users = alert.users;
    availability = alert.availability;
    info_hash_v1 = alert.info_hash_v1;
    info_hash_v2 = alert.info_hash_v2;
    active_time_sec = alert.active_time_sec;
    dl_limit_bps = alert.dl_limit_bps;
    ul_limit_bps = alert.ul_limit_bps;
    wasted_bytes = alert.wasted_bytes;
    next_announce_sec = alert.next_announce_sec;
    last_seen_complete_ms = alert.last_seen_complete_ms;
    pieces = alert.pieces;
    piece_length = alert.piece_length;
    created_by = alert.created_by;
    created_on_ms = alert.created_on_ms;
    completed_on_ms = alert.completed_on_ms;
    is_private = alert.is_private;
  })
  map_type task_rate alert ev = some (record ev {
    type = TaskEventType.rate_updated;
    download_rate = alert.download_rate;
    upload_rate = alert.upload_rate;
  })
  map_type task_error alert ev =
      some (record ev { type = TaskEventType.error_occurred; error_message = alert.message })
  map_type duplicate_rejected alert ev =
      some (record ev { type = TaskEventType.duplicate_rejected; error_message = alert.message })
  map_type task_removed alert ev = some (record ev { type = TaskEventType.removed })
  map_type ignored alert ev = none

  unfoldable pub map_alert_to_task_event : LtAlertView Double → Option (TaskEvent Double)
  unfolding map_type default_event
  map_alert_to_task_event alert =
      if is_ignored alert.type || is_null alert.task_id
      then none
      else map_type alert.type alert (record (default_event minus_one_d) {
        task_id = alert.task_id;
        event_ms = alert.event_ms;
      })

  -- The loop that collects the events of the alerts that have one.
  unfoldable pub map_alerts : List (LtAlertView Double) → List (TaskEvent Double)
  map_alerts [] = []
  map_alerts (a ∷ as') = elim (map_alert_to_task_event a) [
    | none ↦ map_alerts as'
    | some ev ↦ ev ∷ map_alerts as'
  ]

  -- A mapped event is about the task of its alert, at the alert's time.
  pub task_id-map_alert :
      (a : LtAlertView Double) {ev : TaskEvent Double}
      → map_alert_to_task_event a ≡ some ev
      → (ev.task_id ≡ a.task_id) × (ev.event_ms ≡ a.event_ms)
  unfolding map_alert_to_task_event
  task_id-map_alert a h = ground arith

module _ (d : Doubles) (now : ℤ) where
  open d use {Double}

  -- The flag says that the pipeline is no null pointer.
  unfoldable pub dispatch_alert_view :
      Bool → LtAlertView Double → TaskStateStore Double → TaskStateStore Double
  dispatch_alert_view pipeline alert tasks =
      if pipeline
      then (elim (map_alert_to_task_event d alert) [
        | none ↦ tasks
        | some ev ↦ apply_event d now ev tasks
      ])
      else tasks

  -- `if (!events.empty()) pipeline->consumeBatch(events);`
  unfoldable pub consume_if_any :
      List (TaskEvent Double) → TaskStateStore Double → TaskStateStore Double
  consume_if_any [] tasks = tasks
  consume_if_any (e ∷ es) tasks = consume_batch d now (e ∷ es) tasks

  unfoldable pub dispatch_alert_views :
      Bool → List (LtAlertView Double) → TaskStateStore Double → TaskStateStore Double
  dispatch_alert_views pipeline alerts tasks =
      if pipeline then consume_if_any (map_alerts d alerts) tasks else tasks

  -- The callers that dispatch one alert at a time.
  pub dispatch_each :
      Bool → List (LtAlertView Double) → TaskStateStore Double → TaskStateStore Double
  dispatch_each pipeline [] tasks = tasks
  dispatch_each pipeline (a ∷ as') tasks =
      dispatch_each pipeline as' (dispatch_alert_view pipeline a tasks)

  pub consume_if_any_lem :
      (es : List (TaskEvent Double)) (tasks : TaskStateStore Double)
      → consume_if_any es tasks ≡ consume_batch d now es tasks
  unfolding consume_if_any consume_batch
  consume_if_any_lem [] tasks = refl
  consume_if_any_lem (e ∷ es) tasks = refl

  dispatch_each-consume_batch :
      (alerts : List (LtAlertView Double)) (tasks : TaskStateStore Double)
      → dispatch_each true alerts tasks ≡ consume_batch d now (map_alerts d alerts) tasks
  unfolding dispatch_each dispatch_alert_view map_alerts consume_batch
  dispatch_each-consume_batch [] tasks = refl
  dispatch_each-consume_batch (a ∷ as') tasks = elim (Option-cases (map_alert_to_task_event d a)) [
    | inl e ↦ rw (e, dispatch_alert_view, map_alerts) (dispatch_each-consume_batch as' tasks)
    | inr (ev, e) ↦
        rw (e, dispatch_alert_view, map_alerts)
          (dispatch_each-consume_batch as' (apply_event d now ev tasks))
  ]

  dispatch_each-null :
      (alerts : List (LtAlertView Double)) (tasks : TaskStateStore Double)
      → dispatch_each false alerts tasks ≡ tasks
  unfolding dispatch_each dispatch_alert_view
  dispatch_each-null [] tasks = refl
  dispatch_each-null (a ∷ as') tasks = dispatch_each-null as' tasks

  -- Dispatching a list of alerts as one batch leaves the same store as dispatching them one by one
  -- at the same clock, alerts without an event among them, with a pipeline and without.
  pub dispatch_alert_views-each :
      (pipeline : Bool) (alerts : List (LtAlertView Double)) (tasks : TaskStateStore Double)
      → dispatch_alert_views pipeline alerts tasks ≡ dispatch_each pipeline alerts tasks
  unfolding dispatch_alert_views
  dispatch_alert_views-each true alerts tasks =
      consume_if_any_lem (map_alerts d alerts) tasks
      ∙ sym (dispatch_each-consume_batch alerts tasks)
  dispatch_alert_views-each false alerts tasks = sym (dispatch_each-null alerts tasks)
