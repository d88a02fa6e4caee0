-- ===== src/Task/Store/Merge.antt =====
-- The branches of TaskStateStore::applyEvent: which fields of a snapshot an event of each type
-- replaces.
use torrent_link.Prelude.{ℤ, pos, negsuc, String, is_empty, if◌then◌else◌}
use torrent_link.Types.{TaskStatus, is_known, Doubles}
use torrent_link.Task.Event.{TaskEvent}
use torrent_link.Task.Snapshot.{TaskSnapshot}

-- `if (!text.isEmpty()) field = text;`
unfoldable pub or_text : String → String → String
or_text text field = if is_empty text then field else text

-- `if (n >= 0) field = n;`
unfoldable pub or_num : ℤ → ℤ → ℤ
or_num (pos n) field = pos n
or_num (negsuc n) field = field

-- `if (status != kUnknown) field = status;`
unfoldable pub or_status : TaskStatus → TaskStatus → TaskStatus
or_status status field = if is_known status then status else field

module _ {D : Type 0} where
  unfoldable pub merge_meta : TaskEvent D → TaskSnapshot D → TaskSnapshot D
  merge_meta e s = record s {
    name = or_text e.name s.name;
    save_path = or_text e.save_path s.save_path;
    category = or_text e.category s.category;
    tags = or_text e.tags s.tags;
    info_hash_v1 = or_text e.info_hash_v1 s.info_hash_v1;
    info_hash_v2 = or_text e.info_hash_v2 s.info_hash_v2;
    comment = or_text e.comment s.comment;
    total_bytes = or_num e.total_bytes s.total_bytes;
    selected_bytes = or_num e.selected_bytes s.selected_bytes;
    pieces = or_num e.pieces s.pieces;
    piece_length = or_num e.piece_length s.piece_length;
    created_by = or_text e.created_by s.created_by;
    created_on_ms = or_num e.created_on_ms s.created_on_ms;
    is_private = or_num e.is_private s.is_private;
  }

  unfoldable pub merge_status : TaskEvent D → TaskSnapshot D → TaskSnapshot D
  merge_status e s = record s {
    status = e.status;
    error_message = or_text e.error_message s.error_message;
  }

  unfoldable pub merge_rate : TaskEvent D → TaskSnapshot D → TaskSnapshot D
  merge_rate e s = record s {
    download_rate = or_num e.download_rate s.download_rate;
    upload_rate = or_num e.upload_rate s.upload_rate;
  }

  unfoldable pub merge_error : TaskEvent D → TaskSnapshot D → TaskSnapshot D
  merge_error e s = record s { status = TaskStatus.error; error_message = e.error_message }

module _ (d : Doubles) where
  open d use {Double, at_least_zero}

  -- `if (x >= 0.0) field = x;`
  unfoldable pub or_double : Double → Double → Double
  or_double x field = if at_least_zero x then x else field

  unfoldable pub merge_progress : TaskEvent Double → TaskSnapshot Double → TaskSnapshot Double
  merge_progress e s = record s {
    name = or_text e.name s.name;
    status = or_status e.status s.status;
    total_bytes = or_num e.total_bytes s.total_bytes;
    selected_bytes = or_num e.selected_bytes s.selected_bytes;
    downloaded_bytes = or_num e.downloaded_bytes s.downloaded_bytes;
    uploaded_bytes = or_num e.uploaded_bytes s.uploaded_bytes;
    download_rate = or_num e.download_rate s.download_rate;
    upload_rate = or_num e.upload_rate s.upload_rate;
    seeders = or_num e.seeders s.seeders;
    users = or_num e.users s.users;
    availability = or_double e.availability s.availability;
    category = or_text e.category s.category;
    tags = or_text e.tags s.tags;
    info_hash_v1 = or_text e.info_hash_v1 s.info_hash_v1;
    info_hash_v2 = or_text e.info_hash_v2 s.info_hash_v2;
    active_time_sec = or_num e.active_time_sec s.active_time_sec;
    dl_limit_bps = or_num e.dl_limit_bps s.dl_limit_bps;
    ul_limit_bps = or_num e.ul_limit_bps s.ul_limit_bps;
    wasted_bytes = or_num e.wasted_bytes s.wasted_bytes;
    next_announce_sec = or_num e.next_announce_sec s.next_announce_sec;
    last_seen_complete_ms = or_num e.last_seen_complete_ms s.last_seen_complete_ms;
    pieces = or_num e.pieces s.pieces;
    piece_length = or_num e.piece_length s.piece_length;
    created_by = or_text e.created_by s.created_by;
    created_on_ms = or_num e.created_on_ms s.created_on_ms;
    completed_on_ms = or_num e.completed_on_ms s.completed_on_ms;
    is_private = or_num e.is_private s.is_private;
  }
