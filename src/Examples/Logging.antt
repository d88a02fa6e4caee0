-- ===== src/Examples/Logging.antt =====
-- base/ring_buffer.h and core/log_store.h at concrete inputs.
use torrent_link.Prelude.{
  ℕ, pos, ◌^◌, ◌-◌, ◌≡◌, refl, true, false, none, some, List, [], ◌∷◌, arith, length, take,
}
use torrent_link.Types.{TaskId, info}
use torrent_link.Base.Ring.{RingBuffer, new_ring}
use torrent_link.Base.Ring.Fifo.{
  Call, push_call, pop_call, batch_call, pushed, popped, batch, ring_calls, ring_calls-queue_calls,
}
use torrent_link.Logs.{LogEntry, LogStore, snapshot, dropped_count}
use torrent_link.Logs.Histories.{
  LogCall, append_call, clear_call, log_calls, since_clear, log_calls-snapshot,
}

abbrev calls : List (Call ℕ)
calls =
    push_call 7 ∷ push_call 8 ∷ push_call 9 ∷ pop_call ∷ push_call 10 ∷ batch_call 5 ∷ pop_call ∷ []

ring_calls-queue_calls_example :
    (r : RingBuffer ℕ) × (ring_calls (λ a. 0) 1 1 calls new_ring
      ≡ some (
        r,
        pushed true
            ∷ pushed true
            ∷ pushed false
            ∷ popped (some 7)
            ∷ pushed true
            ∷ batch (8 ∷ 10 ∷ [])
            ∷ popped none
            ∷ [],
      ))
ring_calls-queue_calls_example =
    ring_calls-queue_calls (λ a. 0) 0 1 calls (omega arith) (omega arith)

abbrev entry_of : TaskId → LogEntry
entry_of id = record {
  task_id = id;
  level = info;
  timestamp_ms = pos 5;
  message = "m";
  detail = "";
}

abbrev history : List LogCall
history =
    append_call (entry_of 1)
    ∷ append_call (entry_of 2)
    ∷ clear_call 1
    ∷ append_call (entry_of 2)
    ∷ append_call (entry_of 2)
    ∷ append_call (entry_of 1)
    ∷ []

log_calls-snapshot_example :
    (stores : LogStore) × (log_calls 1 1 (λ e. e) 3 history [] ≡ some stores)
    × ((id : TaskId) (max_count : ℕ)
        → (snapshot 1 id max_count stores
            ≡ take max_count (take (2 ^ 1) (since_clear id history [])))
          × (dropped_count id stores ≡ length (since_clear id history []) - 2 ^ 1))
log_calls-snapshot_example =
    log_calls-snapshot 1 0 3 (λ e. e) history (omega arith) (omega arith) (omega arith)
      (omega arith)

-- The third entry of task 2 found its ring of two entries full.
abbrev kept_of_2 : List LogEntry
kept_of_2 = take (2 ^ 1) (since_clear 2 history [])

kept_example : kept_of_2 ≡ entry_of 2 ∷ entry_of 2 ∷ []
kept_example = refl
