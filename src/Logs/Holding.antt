-- ===== src/Logs/Holding.antt =====
-- What one task's store holds, and what append, clear and snapshot do to it.
use torrent_link.Prelude.{
  ℕ, zero, suc, ◌+◌, ◌-◌, ◌^◌, ◌%◌, ◌≤◌, ◌<◌, ◌≡◌, ◌∙◌, ◌==◌, ltb, sym, ap, subst, take, min, Bool,
  true, false, Option-cases, inl, inr, Option, none, some, List, [], ◌∷◌, ◌++◌, refl, arith, length,
  length-take, length-append, if◌then◌else◌, nat_key, lt→ltb,
}
use torrent_link.Prelude.Assoc.{lookup, put, lookup-put}
use torrent_link.Types.{TaskId}
use torrent_link.Base.Ring.{word, size}
use torrent_link.Base.Ring.Queue.{Represents, queue_push, push-queue_push, new_ring-Represents}
use torrent_link.Base.Ring.Peeks.{size-length}
use torrent_link.Logs.{
  LogEntry, PerTaskStore, LogStore, or_new, get_or_create, append, clear, snapshot, collect,
  dropped_count,
}
use torrent_link.Logs.Drain.{drain-Represents, collect-take}

-- What a task's store holds after `n` calls, `xs` being the entries since it was last cleared.
pub record Holds (k n : ℕ) (xs : List LogEntry) (st : PerTaskStore) : Type 0 where
  pub taken : ℕ
  pub kept : Represents k taken (take (2 ^ k) xs) st.queue
  pub lost : st.dropped ≡ length xs - 2 ^ k
  pub bound : taken + length xs ≤ n

pub data Logged (k n : ℕ) (xs : List LogEntry) : Option PerTaskStore → Type 0 where
  absent : xs ≡ [] → Logged k n xs none
  present : {st : PerTaskStore} → Holds k n xs st → Logged k n xs (some st)

take-nil : {A : Type 0} (n : ℕ) → ◌≡◌ {A = List A} (take n []) []
take-nil zero = refl
take-nil (suc n) = refl

take-queue_push :
    {A : Type 0} (n : ℕ) (xs : List A) (x : A)
    → take n (xs ++ x ∷ [])
      ≡ (if ltb (length (take n xs)) n then take n xs ++ x ∷ [] else take n xs)
take-queue_push zero xs x = ground arith
take-queue_push (suc n) [] x =
    ap (λ l. x ∷ l) (take-nil n)
    ∙ sym (ap (λ b. if b then x ∷ [] else []) (lt→ltb 0 (suc n) (omega arith)))
take-queue_push (suc n) (y ∷ xs) x = ground (arith, take-queue_push n xs x)

take-min : {A : Type 0} (n : ℕ) (xs : List A) → take (min n (length xs)) xs ≡ take n xs
take-min zero xs = ap (λ m. take m xs) {y = zero} (omega arith)
take-min (suc n) [] = take-nil (min (suc n) 0)
take-min (suc n) (x ∷ xs) =
    let e : min (suc n) (length (x ∷ xs)) ≡ suc (min n (length xs)) = omega arith in
    ap (λ m. take m (x ∷ xs)) e ∙ ap (λ l. x ∷ l) (take-min n xs)

pub ==_self : (n : ℕ) → (n == n) ≡ true
==_self n = ground arith

module _ (k : ℕ) (k_min : 1 ≤ k) (k_max : k ≤ 62) where
  pub or_new-Holds :
      {n : ℕ} {xs : List LogEntry} {o : Option PerTaskStore}
      → Logged k n xs o
      → Holds k n xs (or_new o)
  or_new-Holds {n} {xs} (absent e) = rw e (record {
    taken = 0;
    kept = rw (take-nil (2 ^ k)) (new_ring-Represents k k_min k_max);
    lost = omega arith;
    bound = omega arith;
  })
  or_new-Holds (present h) = h

  pub Logged-later :
      {n : ℕ} {xs : List LogEntry} {o : Option PerTaskStore}
      → Logged k n xs o
      → Logged k (suc n) xs o
  Logged-later (absent e) = absent e
  Logged-later (present h) =
      present
        (record { taken = h.taken; kept = h.kept; lost = h.lost; bound = omega (arith, h.bound) })

  pub append-Holds :
      (fuel n : ℕ) (entry : LogEntry) (xs : List LogEntry) (stores : LogStore)
      → n < word - 1
      → Logged k n xs (lookup entry.task_id stores)
      → (st : PerTaskStore) × (append k (suc fuel) entry stores
          ≡ some (put entry.task_id st stores))
        × Holds k (suc n) (xs ++ entry ∷ []) st
  unfolding append
  append-Holds fuel n entry xs stores small logged =
      let h : Holds k n xs (get_or_create entry.task_id stores) = or_new-Holds logged in
      let (r, e, v) = push-queue_push k h.taken fuel entry h.kept in
      let ok : Bool = (queue_push k entry (take (2 ^ k) xs)).1 in
      let dropped : ℕ = (get_or_create entry.task_id stores).dropped in
      (
        record { queue = r; dropped = if ok then dropped else (dropped + 1) % word },
        rw (e, append),
        record {
          taken = h.taken;
          kept =
              subst (λ l. Represents k h.taken l r)
                (ground (arith, take-queue_push (2 ^ k) xs entry)) v;
          lost =
              ground
                (arith, h.lost, h.bound, length-take (2 ^ k) xs, length-append xs (entry ∷ []));
          bound = omega (arith, h.bound, length-append xs (entry ∷ []));
        },
      )

  pub clear-Holds :
      (fuel n rounds : ℕ) (moved : LogEntry → LogEntry) (id : TaskId) (xs : List LogEntry)
      (stores : LogStore)
      → n < word - 1
      → 2 ^ k < rounds
      → Logged k n xs (lookup id stores)
      → (stores' : LogStore) × (clear k (suc fuel) moved rounds id stores ≡ some stores')
        × ((j : TaskId) → (id == j) ≡ false → lookup j stores' ≡ lookup j stores)
        × Logged k (suc n) [] (lookup id stores')
  unfolding clear
  clear-Holds fuel n rounds moved id xs stores small enough logged =
      elim (Option-cases (lookup id stores)) [
        | inl e ↦ (
          stores,
          rw (e, clear),
          λ j h. refl,
          subst (λ o. Logged k (suc n) [] o) (sym e) (absent refl),
        )
        | inr (st, e) ↦
            let h : Holds k n xs st = or_new-Holds (subst (λ o. Logged k n xs o) e logged) in
            let (queue, e', v) =
              drain-Represents k fuel h.taken moved rounds (take (2 ^ k) xs)
                (omega (arith, length-take (2 ^ k) xs)) h.kept in
            let emptied : PerTaskStore = record { queue = queue; dropped = 0 } in
            (
              put id emptied stores,
              rw (e, clear) (rw e'),
              λ j h. lookup-put id j emptied stores ∙ rw h,
              subst (λ o. Logged k (suc n) [] o)
                  (sym (lookup-put id id emptied stores ∙ rw (==_self id)))
                  (present {st = emptied} (record {
                    taken = h.taken + length (take (2 ^ k) xs);
                    kept = rw (take-nil (2 ^ k)) v;
                    lost = omega arith;
                    bound = omega (arith, h.bound, length-take (2 ^ k) xs);
                  })),
            )
      ]

  absent_nil : {n : ℕ} {xs : List LogEntry} → Logged k n xs none → xs ≡ []
  absent_nil (absent e) = e

  pub Logged-snapshot :
      {n : ℕ} {xs : List LogEntry} (id : TaskId) (stores : LogStore) (max_count : ℕ)
      → n < word
      → Logged k n xs (lookup id stores)
      → (snapshot k id max_count stores ≡ take max_count (take (2 ^ k) xs))
        × (dropped_count id stores ≡ length xs - 2 ^ k)
  unfolding snapshot dropped_count
  Logged-snapshot {n} {xs} id stores max_count small logged =
      elim (Option-cases (lookup id stores)) [
        | inl e ↦
            let nothing : xs ≡ [] = absent_nil (subst (λ o. Logged k n xs o) e logged) in
            (
              rw (e, snapshot)
                  (sym (
                    ap (λ l. take max_count (take (2 ^ k) l)) nothing
                    ∙ ap (take max_count) (take-nil (2 ^ k))
                    ∙ take-nil max_count)),
              rw (e, dropped_count) (omega (arith, ap length nothing)),
            )
        | inr (st, e) ↦
            let h : Holds k n xs st = or_new-Holds (subst (λ o. Logged k n xs o) e logged) in
            let fits : h.taken + length (take (2 ^ k) xs) < word =
              omega (arith, h.bound, length-take (2 ^ k) xs) in
            let all_of_it : size st.queue ≡ length (take (2 ^ k) xs) =
              size-length k h.taken h.kept fits in
            (
              rw (e, snapshot)
                  (ap (λ n. collect k st.queue 0 (min max_count n)) all_of_it
                    ∙ collect-take k h.taken h.kept fits (min max_count (length (take (2 ^ k) xs)))
                        0 (omega arith)
                    ∙ take-min max_count (take (2 ^ k) xs)),
              rw (e, dropped_count) h.lost,
            )
      ]
