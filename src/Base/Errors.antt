-- ===== src/Base/Errors.antt =====
-- base/errors.h and base/errors.cc: error codes, their numbers, domains and texts, and the errors of
-- the system. A message that is built from a pattern is that pattern with its arguments.
pub mod Codes
use torrent_link.Prelude.{
  ℕ, ℤ, pos, Bool, true, false, ◌||◌, String, is_empty, ◌==◌, List, [], ◌∷◌, if◌then◌else◌,
}

pub data ErrorCode : Type 0 where
  success invalid_magnet invalid_torrent_path invalid_save_path save_path_not_writable
        invalid_argument file_not_found file_read_failed file_write_failed directory_create_failed
        disk_full path_permission_denied add_torrent_failed duplicate_torrent metadata_timeout
        torrent_removed load_tasks_failed save_tasks_failed load_resume_data_failed
        save_resume_data_failed unknown :
      ErrorCode

pub data ErrorDomain : Type 0 where
  no_domain validation io system libtorrent persistence unknown_domain : ErrorDomain

abbrev pub is_success : ErrorCode → Bool
is_success success = true
is_success _ = false

unfoldable pub to_int : ErrorCode → ℕ
to_int success = 0
to_int invalid_magnet = 1
to_int invalid_torrent_path = 2
to_int invalid_save_path = 3
to_int save_path_not_writable = 4
to_int invalid_argument = 5
to_int file_not_found = 6
to_int file_read_failed = 7
to_int file_write_failed = 8
to_int directory_create_failed = 9
to_int disk_full = 10
to_int path_permission_denied = 11
to_int add_torrent_failed = 12
to_int duplicate_torrent = 13
to_int metadata_timeout = 14
to_int torrent_removed = 15
to_int load_tasks_failed = 16
to_int save_tasks_failed = 17
to_int load_resume_data_failed = 18
to_int save_resume_data_failed = 19
to_int unknown = 20

-- The cases of the switch, in order.
abbrev pub all_codes : List ErrorCode
all_codes =
    success ∷ invalid_magnet ∷ invalid_torrent_path ∷ invalid_save_path ∷ save_path_not_writable
    ∷ invalid_argument ∷ file_not_found ∷ file_read_failed ∷ file_write_failed
    ∷ directory_create_failed ∷ disk_full ∷ path_permission_denied ∷ add_torrent_failed
    ∷ duplicate_torrent ∷ metadata_timeout ∷ torrent_removed ∷ load_tasks_failed ∷ save_tasks_failed
    ∷ load_resume_data_failed ∷ save_resume_data_failed ∷ unknown ∷ []

unfoldable pub find_code : ℕ → List ErrorCode → ErrorCode
unfolding to_int
find_code n [] = unknown
find_code n (c ∷ cs) = if n == to_int c then c else find_code n cs

unfoldable pub from_int : ℕ → ErrorCode
unfolding find_code
from_int n = find_code n all_codes

unfoldable pub domain_for_code : ErrorCode → ErrorDomain
domain_for_code success = no_domain
domain_for_code invalid_magnet = validation
domain_for_code invalid_torrent_path = validation
domain_for_code invalid_save_path = validation
domain_for_code save_path_not_writable = validation
domain_for_code invalid_argument = validation
domain_for_code file_not_found = io
domain_for_code file_read_failed = io
domain_for_code file_write_failed = io
domain_for_code directory_create_failed = io
domain_for_code disk_full = io
domain_for_code path_permission_denied = io
domain_for_code add_torrent_failed = libtorrent
domain_for_code duplicate_torrent = libtorrent
domain_for_code metadata_timeout = libtorrent
domain_for_code torrent_removed = libtorrent
domain_for_code load_tasks_failed = persistence
domain_for_code save_tasks_failed = persistence
domain_for_code load_resume_data_failed = persistence
domain_for_code save_resume_data_failed = persistence
domain_for_code unknown = unknown_domain

pub data Argument : Type 0 where
  number : ℕ → Argument
  text : String → Argument
  code_of : ℤ → Argument

pub record Message : Type 0 where
  pub pattern : String
  pub arguments : List Argument

abbrev pub plain : String → Message
plain s = record { pattern = s; arguments = [] }

pub record Error : Type 0 where
  pub code : ErrorCode
  pub message : Message
  pub detail : Message
  pub domain : ErrorDomain
  pub raw_code : ℤ

-- Error()
abbrev pub no_error : Error
no_error = record {
  code = success;
  message = plain "";
  detail = plain "";
  domain = no_domain;
  raw_code = pos 0;
}

-- Error(code, message): the domain is that of the code.
unfoldable pub error_of : ErrorCode → Message → Error
unfolding domain_for_code
error_of code message = record {
  code = code;
  message = message;
  detail = plain "";
  domain = domain_for_code code;
  raw_code = pos 0;
}

abbrev pub has_error : Error → Bool
has_error e = elim (is_success e.code) [ true ↦ false | false ↦ true ]

abbrev pub is_ok : Error → Bool
is_ok e = is_success e.code

-- The conditions of <system_error> that the code asks for.
pub data Errno : Type 0 where
  none_set no_such_file no_space permission_denied operation_not_permitted other_error : Errno

unfoldable pub map_errno_to_code : Errno → ErrorCode
map_errno_to_code none_set = success
map_errno_to_code no_such_file = file_not_found
map_errno_to_code no_space = disk_full
map_errno_to_code permission_denied = path_permission_denied
map_errno_to_code operation_not_permitted = path_permission_denied
map_errno_to_code other_error = unknown

-- A std::error_code, as far as it is read here.
pub record StdError : Type 0 where
  pub is_set : Bool
  pub value : ℤ
  pub errno : Errno
  pub text_of : String
  pub category : String

unfoldable pub make_detail : String → StdError → Message
make_detail context ec =
    if is_empty context
    then record {
      pattern = "category=%1, code=%2";
      arguments = text ec.category ∷ code_of ec.value ∷ [];
    }
    else record {
      pattern = "%1 | category=%2, code=%3";
      arguments = text context ∷ text ec.category ∷ code_of ec.value ∷ [];
    }

unfoldable pub from_std_error : StdError → String → Error
unfolding map_errno_to_code make_detail
from_std_error ec context =
    if ec.is_set
    then record {
      code = map_errno_to_code ec.errno;
      message = plain ec.text_of;
      detail = make_detail context ec;
      domain = system;
      raw_code = ec.value;
    }
    else no_error

unfoldable pub default_message : ErrorCode → String
default_message success = ""
default_message invalid_magnet = "Invalid magnet URI or parse failure"
default_message invalid_torrent_path = "Invalid or unreadable torrent file path"
default_message invalid_save_path = "Save path is empty or invalid"
default_message save_path_not_writable = "Save path is not writable"
default_message invalid_argument = "Invalid argument"
default_message file_not_found = "File not found"
default_message file_read_failed = "Failed to read file"
default_message file_write_failed = "Failed to write file"
default_message directory_create_failed = "Failed to create directory"
default_message disk_full = "Disk is full"
default_message path_permission_denied = "Path permission denied"
default_message add_torrent_failed = "Failed to add torrent"
default_message duplicate_torrent = "Torrent task already exists"
default_message metadata_timeout = "Metadata retrieval timed out"
default_message torrent_removed = "Torrent task has been removed"
default_message load_tasks_failed = "Failed to load task list"
default_message save_tasks_failed = "Failed to save task list"
default_message load_resume_data_failed = "Failed to load resume data"
default_message save_resume_data_failed = "Failed to save resume data"
default_message unknown = "Unknown error"

unfoldable pub display_message : Error → Message
unfolding default_message
display_message e = if is_empty e.message.pattern then plain (default_message e.code) else e.message
