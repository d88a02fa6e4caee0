-- ===== src/Logs.antt =====
-- core/log_store.h and makeLogEntry of core/log_store.cc: for each task a ring of log entries of
-- capacity 2 ^ k and a count of the entries that found it full. `stores_` holds shared pointers that
-- are never null and are not shared outside, so a store is held by its value.
pub mod Drain
pub mod Holding
pub mod Histories
use torrent_link.Prelude.{
  ℕ, ℤ, zero, suc, ◌+◌, ◌^◌, ◌%◌, min, Bool, true, false, String, Option, none, some, List, [], ◌∷◌,
  if◌then◌else◌, nat_key,
}
use torrent_link.Prelude.Assoc.{Assoc, lookup, put}
use torrent_link.Types.{TaskId, LogLevel}
use torrent_link.Base.Ring.{RingBuffer, word, new_ring, push, try_pop, peek_at, size}

pub record LogEntry : Type 0 where
  pub task_id : TaskId
  pub level : LogLevel
  pub timestamp_ms : ℤ
  pub message : String
  pub detail : String

-- `now` is currentMs().
unfoldable pub make_log_entry : ℤ → TaskId → LogLevel → String → String → LogEntry
make_log_entry now task_id level message detail = record {
  task_id = task_id;
  level = level;
  timestamp_ms = now;
  message = message;
  detail = detail;
}

pub record PerTaskStore : Type 0 where
  pub queue : RingBuffer LogEntry
  pub dropped : ℕ

abbrev pub LogStore : Type 0
LogStore = Assoc TaskId PerTaskStore

abbrev pub or_new : Option PerTaskStore → PerTaskStore
or_new none = record { queue = new_ring; dropped = 0 }
or_new (some st) = st

-- The store that getOrCreate returns; append puts it, with its entry, into the map.
abbrev pub get_or_create : TaskId → LogStore → PerTaskStore
get_or_create task_id stores = or_new (lookup task_id stores)

-- `none` says that a loop has used up its fuel, in all that follows.
module _ (k fuel : ℕ) where
  unfoldable pub append : LogEntry → LogStore → Option LogStore
  append entry stores =
      let st = get_or_create entry.task_id stores in
      elim (push k fuel entry st.queue) [
        | none ↦ none
        | some (queue, ok) ↦ some (
            put entry.task_id
              (record {
                queue = queue;
                dropped = if ok then st.dropped else (st.dropped + 1) % word;
              })
              stores)
      ]

  -- The loop of clear: TryPop until nothing comes, at most `rounds` times.
  unfoldable pub drain :
      (LogEntry → LogEntry) → ℕ → RingBuffer LogEntry → Option (RingBuffer LogEntry)
  drain moved zero queue = none
  drain moved (suc rounds) queue = elim (try_pop k moved fuel queue) [
    | none ↦ none
    | some (queue', none) ↦ some queue'
    | some (queue', some item) ↦ drain moved rounds queue'
  ]

  unfoldable pub clear : (LogEntry → LogEntry) → ℕ → TaskId → LogStore → Option LogStore
  clear moved rounds task_id stores = elim (lookup task_id stores) [
    | none ↦ some stores
    | some st ↦ elim (drain moved rounds st.queue) [
      | none ↦ none
      | some queue ↦ some (put task_id (record { queue = queue; dropped = 0 }) stores)
    ]
  ]

-- The loop of snapshot from the index `i`, with `n` rounds to go.
unfoldable pub collect : ℕ → RingBuffer LogEntry → ℕ → ℕ → List LogEntry
collect k queue i zero = []
collect k queue i (suc n) =
    let rest = collect k queue (i + 1) n in
    elim (peek_at k i queue) [ none ↦ rest | some entry ↦ entry ∷ rest ]

unfoldable pub snapshot : ℕ → TaskId → ℕ → LogStore → List LogEntry
snapshot k task_id max_count stores = elim (lookup task_id stores) [
  | none ↦ []
  | some st ↦ collect k st.queue 0 (min max_count (size st.queue))
]

unfoldable pub dropped_count : TaskId → LogStore → ℕ
dropped_count task_id stores = elim (lookup task_id stores) [ none ↦ 0 | some st ↦ st.dropped ]
