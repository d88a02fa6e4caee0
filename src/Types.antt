-- ===== src/Types.antt =====
-- The shared vocabulary of base/types.h and base/time_stamps.cc: task ids and states, log levels,
-- and timestamps in milliseconds. A QUuid is the number that its 128 bits spell; 0 is the null id.
-- The times that the program stores are signed, with -1 for "none".
use torrent_link.Prelude.{
  ℕ, ℤ, pos, negsuc, nonneg, ◌==◌, ◌≡◌, Bool, true, false, not, ◌&&◌, ◌||◌, String, str_eq, Option,
  none, some, if◌then◌else◌,
}

abbrev pub TaskId : Type 0
TaskId = ℕ

-- QUuid::isNull
abbrev pub is_null : TaskId → Bool
is_null id = id == 0

pub data TaskStatus : Type 0 where
  unknown queued checking downloading seeding paused finished error : TaskStatus

unfoldable pub is_finished : TaskStatus → Bool
is_finished finished = true
is_finished seeding = true
is_finished _ = false

unfoldable pub is_error : TaskStatus → Bool
is_error error = true
is_error _ = false

-- `s != TaskStatus::kUnknown`
abbrev pub is_known : TaskStatus → Bool
is_known TaskStatus.unknown = false
is_known _ = true

pub data LogLevel : Type 0 where
  debug info warning error fatal : LogLevel

unfoldable pub log_level_to_string : LogLevel → String
log_level_to_string debug = "debug"
log_level_to_string info = "info"
log_level_to_string warning = "warning"
log_level_to_string LogLevel.error = "error"
log_level_to_string fatal = "fatal"

-- `text` stands for `text.trimmed().toLower()`; `none` is the result `false`.
unfoldable pub parse_norm : String → Option LogLevel
parse_norm text =
    if str_eq text "debug"
    then some debug
    else if str_eq text "info"
    then some info
    else if str_eq text "warning" || str_eq text "warn"
    then some warning
    else if str_eq text "error"
    then some LogLevel.error
    else if str_eq text "fatal"
    then some fatal
    else none

-- `norm` is Qt's `trimmed().toLower()`. The flag says that `out` is no null pointer.
unfoldable pub try_parse_log_level : (String → String) → Bool → String → Option LogLevel
unfolding parse_norm
try_parse_log_level norm out text = if out then parse_norm (norm text) else none

abbrev pub invalid_ms : ℤ
invalid_ms = negsuc 0

same_as_invalid : ℤ → Bool
same_as_invalid (pos n) = false
same_as_invalid (negsuc n) = n == 0

-- `ms != invalidMs() && ms >= 0`
unfoldable pub is_valid_ms : ℤ → Bool
unfolding same_as_invalid
is_valid_ms ms = not (same_as_invalid ms) && nonneg ms

-- C++ doubles, with the values and the test that the task records use.
pub record Doubles : Type 1 where
  pub Double : Type 0
  pub zero_d : Double
  pub minus_one_d : Double
  -- `x >= 0.0`
  pub at_least_zero : Double → Bool
  pub minus_one-IsNegative : at_least_zero minus_one_d ≡ false
