-- ===== src/Logs/Drain.antt =====
-- The loops of clear and snapshot on a ring that holds a given list.
use torrent_link.Prelude.{
  ℕ, zero, suc, ◌+◌, ◌≤◌, ◌<◌, ◌≡◌, ◌∙◌, sym, ap, subst, drop, some, List, [], ◌∷◌, refl, arith,
  length, get_elem?, take, drop,
}
use torrent_link.Base.Ring.{RingBuffer, word, peek_at}
use torrent_link.Base.Ring.Queue.{Represents, try_pop-queue}
use torrent_link.Base.Ring.Peeks.{peek_at-get_elem?}
use torrent_link.Logs.{LogEntry, drain, collect}

-- One round more than there are elements empties the ring.
pub drain-Represents :
    (k fuel t : ℕ) (moved : LogEntry → LogEntry) (rounds : ℕ) (xs : List LogEntry)
    {r : RingBuffer LogEntry}
    → length xs < rounds
    → Represents k t xs r
    → (r' : RingBuffer LogEntry) × (drain k (suc fuel) moved rounds r ≡ some r')
      × Represents k (t + length xs) [] r'
unfolding drain
drain-Represents k fuel t moved zero xs h v = absurd (omega arith)
drain-Represents k fuel t moved (suc rounds) [] h v =
    let (r', t', e, v', same) = try_pop-queue k t fuel moved [] v in
    (r', rw (e, drain), rw (← same) (subst (λ n. Represents k n [] r') (omega arith) v'))
drain-Represents k fuel t moved (suc rounds) (x ∷ xs) h v =
    let (r', t', e, v', same) = try_pop-queue k t fuel moved (x ∷ xs) v in
    let (r'', e', v'') = drain-Represents k fuel t' moved rounds xs (omega arith) v' in
    (r'', rw (e, drain) e', rw (← same) v'')

drop_cons :
    {A : Type 0} (i : ℕ) (xs : List A)
    → i < length xs
    → (x : A) × (get_elem? xs i ≡ some x) × (drop i xs ≡ x ∷ drop (suc i) xs)
drop_cons i [] h = absurd (omega arith)
drop_cons zero (x ∷ xs) h = (x, refl, refl)
drop_cons (suc i) (x ∷ xs) h = drop_cons i xs (omega arith)

pub collect-take :
    (k t : ℕ) {xs : List LogEntry} {r : RingBuffer LogEntry}
    → Represents k t xs r
    → t + length xs < word
    → (n i : ℕ) → i + n ≤ length xs
    → collect k r i n ≡ take n (drop i xs)
unfolding collect
collect-take k t v small zero i h = refl
collect-take k t {xs} {r} v small (suc n) i h =
    let (x, e, e') = drop_cons i xs (omega arith) in
    let tail : collect k r (i + 1) n ≡ take n (drop (suc i) xs) =
      collect-take k t v small n (i + 1) (omega arith)
      ∙ ap (λ j. take n (drop j xs)) {y = suc i} (omega arith) in
    let seen : peek_at k i r ≡ some x = peek_at-get_elem? k t v small i (omega arith) ∙ e in
    rw (seen, collect) (ap (λ l. x ∷ l) tail ∙ ap (take (suc n)) (sym e'))
