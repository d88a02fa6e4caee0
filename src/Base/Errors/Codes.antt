-- ===== src/Base/Errors/Codes.antt =====
-- The numbers of error codes.
use torrent_link.Prelude.{ℕ, ◌+◌, ◌≡◌, refl, arith}
use torrent_link.Base.Errors.{
  ErrorCode, success, invalid_magnet, invalid_torrent_path, invalid_save_path,
  save_path_not_writable, invalid_argument, file_not_found, file_read_failed, file_write_failed,
  directory_create_failed, disk_full, path_permission_denied, add_torrent_failed, duplicate_torrent,
  metadata_timeout, torrent_removed, load_tasks_failed, save_tasks_failed, load_resume_data_failed,
  save_resume_data_failed, unknown, to_int, from_int,
}

-- A code is read back from its number.
pub from_int-to_int : (c : ErrorCode) → from_int (to_int c) ≡ c
unfolding from_int to_int
from_int-to_int success = refl
from_int-to_int invalid_magnet = refl
from_int-to_int invalid_torrent_path = refl
from_int-to_int invalid_save_path = refl
from_int-to_int save_path_not_writable = refl
from_int-to_int invalid_argument = refl
from_int-to_int file_not_found = refl
from_int-to_int file_read_failed = refl
from_int-to_int file_write_failed = refl
from_int-to_int directory_create_failed = refl
from_int-to_int disk_full = refl
from_int-to_int path_permission_denied = refl
from_int-to_int add_torrent_failed = refl
from_int-to_int duplicate_torrent = refl
from_int-to_int metadata_timeout = refl
from_int-to_int torrent_removed = refl
from_int-to_int load_tasks_failed = refl
from_int-to_int save_tasks_failed = refl
from_int-to_int load_resume_data_failed = refl
from_int-to_int save_resume_data_failed = refl
from_int-to_int unknown = refl

-- A number that no code has is read as `unknown`.
pub from_int-past : (n : ℕ) → from_int (21 + n) ≡ unknown
unfolding from_int to_int
from_int-past n = ground arith
