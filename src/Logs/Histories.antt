-- ===== src/Logs/Histories.antt =====
-- Histories of append and clear on the whole store, seen by snapshot and droppedCount.
use torrent_link.Prelude.{
  ℕ, suc, ◌+◌, ◌-◌, ◌^◌, ◌≤◌, ◌<◌, ◌≡◌, ◌∙◌, ◌==◌, sym, subst, take, Bool, true, false, Option,
  none, some, List, [], ◌∷◌, ◌++◌, refl, arith, length, if◌then◌else◌, nat_key, ==_iff,
}
use torrent_link.Prelude.Assoc.{lookup, put, lookup-put}
use torrent_link.Types.{TaskId}
use torrent_link.Base.Ring.{word}
use torrent_link.Logs.{LogEntry, PerTaskStore, LogStore, append, clear, snapshot, dropped_count}
use torrent_link.Logs.Holding.{
  Logged, absent, present, Logged-later, append-Holds, clear-Holds, Logged-snapshot, ==_self,
}

pub data LogCall : Type 0 where
  append_call : LogEntry → LogCall
  clear_call : TaskId → LogCall

abbrev pub log_call :
    (k fuel : ℕ) → (LogEntry → LogEntry) → ℕ → LogCall → LogStore → Option LogStore
log_call k fuel moved rounds (append_call entry) stores = append k fuel entry stores
log_call k fuel moved rounds (clear_call id) stores = clear k fuel moved rounds id stores

abbrev pub log_calls :
    (k fuel : ℕ) → (LogEntry → LogEntry) → ℕ → List LogCall → LogStore → Option LogStore
log_calls k fuel moved rounds [] stores = some stores
log_calls k fuel moved rounds (c ∷ cs) stores = elim (log_call k fuel moved rounds c stores) [
  | none ↦ none
  | some stores' ↦ log_calls k fuel moved rounds cs stores'
]

-- The entries of a task since it was last cleared, the oldest first, after one more call.
abbrev pub since_call : TaskId → LogCall → List LogEntry → List LogEntry
since_call id (append_call entry) xs = if entry.task_id == id then xs ++ entry ∷ [] else xs
since_call id (clear_call j) xs = if j == id then [] else xs

abbrev pub since_clear : TaskId → List LogCall → List LogEntry → List LogEntry
since_clear id [] xs = xs
since_clear id (c ∷ cs) xs = since_clear id cs (since_call id c xs)

module _ (k : ℕ) (k_min : 1 ≤ k) (k_max : k ≤ 62) where
  by_id :
      {n : ℕ} {o : Option PerTaskStore} {xs ys : List LogEntry} (b : Bool)
      → (b ≡ true → Logged k n xs o)
      → (b ≡ false → Logged k n ys o)
      → Logged k n (if b then xs else ys) o
  by_id true h h' = h refl
  by_id false h h' = h' refl

  abbrev AllLogged : ℕ → (TaskId → List LogEntry) → LogStore → Type 0
  AllLogged n f stores = (id : TaskId) → Logged k n (f id) (lookup id stores)

  log_call-AllLogged :
      (fuel n rounds : ℕ) (moved : LogEntry → LogEntry) (c : LogCall) (f : TaskId → List LogEntry)
      (stores : LogStore)
      → n < word - 1
      → 2 ^ k < rounds
      → AllLogged n f stores
      → (stores' : LogStore) × (log_call k (suc fuel) moved rounds c stores ≡ some stores')
        × AllLogged (suc n) (λ id. since_call id c (f id)) stores'
  log_call-AllLogged fuel n rounds moved (append_call entry) f stores small enough all =
      let (st, e, h) =
        append-Holds k k_min k_max fuel n entry (f entry.task_id) stores small
          (all entry.task_id) in
      (
        put entry.task_id st stores,
        e,
        λ id.
            by_id (entry.task_id == id)
              (λ same.
                let e' : entry.task_id ≡ id = (==_iff entry.task_id id).0 same in
                subst
                  (λ i.
                    Logged k (suc n) (f i ++ entry ∷ []) (lookup i (put entry.task_id st stores)))
                  e'
                  (subst (λ o. Logged k (suc n) (f entry.task_id ++ entry ∷ []) o)
                    (sym (
                      lookup-put entry.task_id entry.task_id st stores
                      ∙ rw (==_self entry.task_id)))
                    (present h)))
              (λ other.
                subst (λ o. Logged k (suc n) (f id) o)
                  (sym (lookup-put entry.task_id id st stores ∙ rw other))
                  (Logged-later k k_min k_max (all id))),
      )
  log_call-AllLogged fuel n rounds moved (clear_call j) f stores small enough all =
      let (stores', e, others, h) =
        clear-Holds k k_min k_max fuel n rounds moved j (f j) stores small enough (all j) in
      (
        stores',
        e,
        λ id.
            by_id (j == id)
              (λ same. subst (λ i. Logged k (suc n) [] (lookup i stores')) ((==_iff j id).0 same) h)
              (λ other.
                subst (λ o. Logged k (suc n) (f id) o) (sym (others id other))
                  (Logged-later k k_min k_max (all id))),
      )

  log_calls-AllLogged :
      (fuel n rounds : ℕ) (moved : LogEntry → LogEntry) (cs : List LogCall)
      (f : TaskId → List LogEntry) (stores : LogStore)
      → n + length cs < word
      → 2 ^ k < rounds
      → AllLogged n f stores
      → (stores' : LogStore) × (log_calls k (suc fuel) moved rounds cs stores ≡ some stores')
        × AllLogged (n + length cs) (λ id. since_clear id cs (f id)) stores'
  log_calls-AllLogged fuel n rounds moved [] f stores small enough all =
      let e : n ≡ n + 0 = omega arith in (stores, refl, subst (λ m. AllLogged m f stores) e all)
  log_calls-AllLogged fuel n rounds moved (c ∷ cs) f stores small enough all =
      let (stores', e, all') =
        log_call-AllLogged fuel n rounds moved c f stores (omega arith) enough all in
      let (stores'', e', all'') =
        log_calls-AllLogged fuel (suc n) rounds moved cs (λ id. since_call id c (f id)) stores'
          (omega arith) enough all' in
      let count : suc n + length cs ≡ n + suc (length cs) = omega arith in
      (
        stores'',
        rw (e, log_calls) e',
        subst (λ m. AllLogged m (λ id. since_clear id cs (since_call id c (f id))) stores'') count
            all'',
      )

-- After any sequence of append and clear on an empty log store, with fewer than 2 ^ 64 calls in all,
-- and rings of capacity 2 ^ k, k from 1 to 62: every call returns, where clear makes at most
-- 2 ^ k + 1 rounds of its loop. Then for each task, with `xs` the entries appended for it since it was
-- last cleared, the oldest first: a snapshot shows the first `max_count` of the first 2 ^ k entries
-- of `xs`, and droppedCount is the number of those after them. The other tasks' calls have no part.
pub log_calls-snapshot :
    (k fuel rounds : ℕ) (moved : LogEntry → LogEntry) (cs : List LogCall)
    → 1 ≤ k
    → k ≤ 62
    → 2 ^ k < rounds
    → length cs < word
    → (stores : LogStore) × (log_calls k (suc fuel) moved rounds cs [] ≡ some stores)
      × ((id : TaskId) (max_count : ℕ)
          → (snapshot k id max_count stores ≡ take max_count (take (2 ^ k) (since_clear id cs [])))
            × (dropped_count id stores ≡ length (since_clear id cs []) - 2 ^ k))
unfolding lookup
log_calls-snapshot k fuel rounds moved cs k_min k_max enough small =
    let (stores, e, all) =
      log_calls-AllLogged k k_min k_max fuel 0 rounds moved cs (λ id. []) [] (omega arith) enough
        (λ id. absent refl) in
    (
      stores,
      e,
      λ id max_count. Logged-snapshot k k_min k_max {n = length cs} id stores max_count small (
          subst (λ n. Logged k n (since_clear id cs []) (lookup id stores)) (omega arith) (all id)),
    )
