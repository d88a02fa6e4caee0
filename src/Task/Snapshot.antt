-- ===== src/Task/Snapshot.antt =====
-- core/task_snapshot.h: what the core shows of a task. `progress01` is not modelled: it divides
-- doubles.
use torrent_link.Prelude.{ℤ, pos, negsuc, String}
use torrent_link.Types.{TaskId, TaskStatus, invalid_ms}

pub record TaskSnapshot (D : Type 0) : Type 0 where
  pub task_id : TaskId
  pub status : TaskStatus
  pub name : String
  pub save_path : String
  pub error_message : String
  pub category : String
  pub tags : String
  pub info_hash_v1 : String
  pub info_hash_v2 : String
  pub comment : String
  pub total_bytes : ℤ
  pub selected_bytes : ℤ
  pub downloaded_bytes : ℤ
  pub uploaded_bytes : ℤ
  pub download_rate : ℤ
  pub upload_rate : ℤ
  pub seeders : ℤ
  pub users : ℤ
  pub availability : D
  pub added_at_ms : ℤ
  pub active_time_sec : ℤ
  pub dl_limit_bps : ℤ
  pub ul_limit_bps : ℤ
  pub wasted_bytes : ℤ
  pub next_announce_sec : ℤ
  pub last_seen_complete_ms : ℤ
  pub pieces : ℤ
  pub piece_length : ℤ
  pub created_by : String
  pub created_on_ms : ℤ
  pub completed_on_ms : ℤ
  pub is_private : ℤ
  pub last_updated_ms : ℤ

-- A default-constructed snapshot; its availability is 0.0.
unfoldable pub default_snapshot : {D : Type 0} → D → TaskSnapshot D
default_snapshot zero_d = record {
  task_id = 0;
  status = TaskStatus.unknown;
  name = "";
  save_path = "";
  error_message = "";
  category = "";
  tags = "";
  info_hash_v1 = "";
  info_hash_v2 = "";
  comment = "";
  total_bytes = pos 0;
  selected_bytes = pos 0;
  downloaded_bytes = pos 0;
  uploaded_bytes = pos 0;
  download_rate = pos 0;
  upload_rate = pos 0;
  seeders = pos 0;
  users = pos 0;
  availability = zero_d;
  added_at_ms = invalid_ms;
  active_time_sec = pos 0;
  dl_limit_bps = pos 0;
  ul_limit_bps = pos 0;
  wasted_bytes = pos 0;
  next_announce_sec = negsuc 0;
  last_seen_complete_ms = invalid_ms;
  pieces = pos 0;
  piece_length = pos 0;
  created_by = "";
  created_on_ms = invalid_ms;
  completed_on_ms = invalid_ms;
  is_private = negsuc 0;
  last_updated_ms = invalid_ms;
}
