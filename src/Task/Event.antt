-- ===== src/Task/Event.antt =====
-- core/task_event.h: what the session layer tells the core. A negative number, an empty text and
-- the status `unknown` mean that the event says nothing of that field.
use torrent_link.Prelude.{ℤ, negsuc, String}
use torrent_link.Types.{TaskId, TaskStatus, invalid_ms}

pub data TaskEventType : Type 0 where
  upsert_meta status_changed progress_updated rate_updated error_occurred duplicate_rejected
        removed :
      TaskEventType

pub record TaskEvent (D : Type 0) : Type 0 where
  pub type : TaskEventType
  pub task_id : TaskId
  pub status : TaskStatus
  pub name : String
  pub save_path : String
  pub error_message : String
  pub info_hash_v1 : String
  pub info_hash_v2 : String
  pub comment : String
  pub total_bytes : ℤ
  pub selected_bytes : ℤ
  pub downloaded_bytes : ℤ
  pub uploaded_bytes : ℤ
  pub download_rate : ℤ
  pub upload_rate : ℤ
  pub seeders : ℤ
  pub users : ℤ
  pub availability : D
  pub category : String
  pub tags : String
  pub event_ms : ℤ
  pub active_time_sec : ℤ
  pub dl_limit_bps : ℤ
  pub ul_limit_bps : ℤ
  pub wasted_bytes : ℤ
  pub next_announce_sec : ℤ
  pub last_seen_complete_ms : ℤ
  pub pieces : ℤ
  pub piece_length : ℤ
  pub created_by : String
  pub created_on_ms : ℤ
  pub completed_on_ms : ℤ
  pub is_private : ℤ

-- A default-constructed event; its availability is -1.0.
unfoldable pub default_event : {D : Type 0} → D → TaskEvent D
default_event minus_one_d = record {
  type = TaskEventType.upsert_meta;
  task_id = 0;
  status = TaskStatus.unknown;
  name = "";
  save_path = "";
  error_message = "";
  info_hash_v1 = "";
  info_hash_v2 = "";
  comment = "";
  total_bytes = negsuc 0;
  selected_bytes = negsuc 0;
  downloaded_bytes = negsuc 0;
  uploaded_bytes = negsuc 0;
  download_rate = negsuc 0;
  upload_rate = negsuc 0;
  seeders = negsuc 0;
  users = negsuc 0;
  availability = minus_one_d;
  category = "";
  tags = "";
  event_ms = invalid_ms;
  active_time_sec = negsuc 0;
  dl_limit_bps = negsuc 0;
  ul_limit_bps = negsuc 0;
  wasted_bytes = negsuc 0;
  next_announce_sec = negsuc 0;
  last_seen_complete_ms = negsuc 0;
  pieces = negsuc 0;
  piece_length = negsuc 0;
  created_by = "";
  created_on_ms = negsuc 0;
  completed_on_ms = negsuc 0;
  is_private = negsuc 0;
}
