-- ===== src/Base/Ring/Queue.antt =====
-- The ring against a bounded first-in first-out queue.
use native.Mathlib.Decide.{dec_lt}
use native.Mathlib.Nat.{pow-le-pow_right}
use torrent_link.Prelude.{
  ℕ, zero, suc, ◌+◌, ◌-◌, ◌%◌, ◌^◌, ◌≤◌, ◌<◌, ◌≡◌, ◌==◌, ltb, Bool, true, false, Option, none, some,
  List, [], ◌∷◌, ◌++◌, if◌then◌else◌, refl, arith, ap, ap₂, ◌∙◌, length, get_elem?, drop,
  length-append, Bool-cases, inl, inr,
}
use torrent_link.Base.Ring.{
  word, slot, add_size, store, sign_of, negative, equal, RingBuffer, new_ring, push, push_slot,
  try_pop, pop_slot, moved_from,
}
use torrent_link.Base.Ring.Words.{mod_apart, mod-word}

-- The ring holds `xs`, the oldest first, after `t` elements have been taken out.
pub record Represents {A : Type 0} (k t : ℕ) (xs : List A) (r : RingBuffer A) : Type 0 where
  pub capacity_min : 1 ≤ k
  pub capacity_max : k ≤ 62
  pub fits : length xs ≤ 2 ^ k
  pub tail_at : r.tail ≡ t % word
  pub head_at : r.head ≡ (t + length xs) % word
  pub filled : (i : ℕ) → i < length xs → r.sequences (slot k (t + i)) ≡ (t + i + 1) % word
  pub held : (i : ℕ) → i < length xs → r.buffer (slot k (t + i)) ≡ get_elem? xs i
  pub free : (i : ℕ) → length xs ≤ i → i < 2 ^ k → r.sequences (slot k (t + i)) ≡ (t + i) % word

pub sign_of_self : (x : ℕ) → sign_of x x ≡ equal
unfolding sign_of
sign_of_self x = ground arith

-- A sequence number that is behind by at most half the range.
pub sign_of_behind :
    (x d : ℕ)
    → 0 < d
    → d ≤ 4_611_686_018_427_387_904
    → sign_of (x % word) ((x + d) % word) ≡ negative
unfolding sign_of
sign_of_behind x d h h' = ground arith

-- Slots, counted from the oldest element.
module _ (k t : ℕ) where
  slot-word : (i : ℕ) → k ≤ 62 → slot k ((t + i) % word) ≡ slot k (t + i)
  slot-word i h = mod-word k (t + i) (omega arith)

  slot_eq : (i j : ℕ) → i < 2 ^ k → j < 2 ^ k → (slot k (t + i) == slot k (t + j)) ≡ (i == j)
  slot_eq i j h h' = ground (arith, mod_apart (2 ^ k) t i j, mod_apart (2 ^ k) t j i)

  store-slot {ℓ} :
      {B : Type ℓ} (i j : ℕ) (b : B) (f : ℕ → B)
      → i < 2 ^ k
      → j < 2 ^ k
      → store (slot k (t + i)) b f (slot k (t + j)) ≡ (if i == j then b else f (slot k (t + j)))
  unfolding store
  store-slot i j b f h h' = rw (slot_eq i j h h')

  slot_round : slot k (t + 2 ^ k) ≡ slot k (t + 0)
  slot_round = grind arith

pub power_bounds : (k : ℕ) → 1 ≤ k → k ≤ 62 → (2 ≤ 2 ^ k) × (2 ^ k ≤ 4_611_686_018_427_387_904)
power_bounds k h h' = (
  pow-le-pow_right {n = 2} (omega arith) {i = 1} h,
  pow-le-pow_right {n = 2} (omega arith) {j = 62} h',
)

get_elem?-append :
    {A : Type 0} (xs : List A) (x : A) (i : ℕ)
    → get_elem? (xs ++ x ∷ []) i
      ≡ (if ltb i (length xs) then get_elem? xs i else (if i == length xs then some x else none))
get_elem?-append [] x zero = ground arith
get_elem?-append [] x (suc i) = ground arith
get_elem?-append (y ∷ xs) x zero = ground arith
get_elem?-append (y ∷ xs) x (suc i) = ground (arith, get_elem?-append xs x i)

module _ {A : Type 0} (k t : ℕ) (item : A) {xs : List A} {r : RingBuffer A}
    (v : Represents k t xs r) where
  slot_at_head : slot k r.head ≡ slot k (t + length xs)
  slot_at_head = rw v.head_at (slot-word k t (length xs) v.capacity_max)

  push_slot-Represents : length xs < 2 ^ k → Represents k t (xs ++ item ∷ []) (push_slot k item r)
  unfolding push_slot
  push_slot-Represents room = record {
    capacity_min = v.capacity_min;
    capacity_max = v.capacity_max;
    fits = omega (arith, length-append xs (item ∷ []));
    tail_at = v.tail_at;
    head_at = omega (arith, v.head_at, length-append xs (item ∷ []));
    filled = λ i h.
        rw
          (
            slot_at_head,
            store-slot k t (length xs) i (add_size r.head 1) r.sequences room
                (omega (arith, v.fits, length-append xs (item ∷ []))),
          )
          (ground (arith, v.head_at, v.filled i, length-append xs (item ∷ [])));
    held = λ i h.
        rw
          (
            slot_at_head,
            store-slot k t (length xs) i (some item) r.buffer room
                (omega (arith, v.fits, length-append xs (item ∷ []))),
          )
          (ground (arith, v.held i, length-append xs (item ∷ []), get_elem?-append xs item i));
    free = λ i h h'.
        rw (slot_at_head, store-slot k t (length xs) i (add_size r.head 1) r.sequences room h')
          (ground (arith, v.free i, length-append xs (item ∷ [])));
  }

  push_room :
      (fuel : ℕ) → length xs < 2 ^ k → push k (suc fuel) item r ≡ some (push_slot k item r, true)
  unfolding push
  push_room fuel room =
      let e : sign_of (r.sequences (slot k r.head)) r.head ≡ equal =
        ap₂ sign_of (ap r.sequences slot_at_head ∙ v.free (length xs) (omega arith) room) v.head_at
        ∙ sign_of_self _ in
      rw (e, push)

  push_full : (fuel : ℕ) → length xs ≡ 2 ^ k → push k (suc fuel) item r ≡ some (r, false)
  unfolding push
  push_full fuel full =
      let (two, most) = power_bounds k v.capacity_min v.capacity_max in
      let oldest : slot k r.head ≡ slot k (t + 0) =
        slot_at_head ∙ ap (λ n. slot k (t + n)) full ∙ slot_round k t in
      let e : sign_of (r.sequences (slot k r.head)) r.head ≡ negative =
        ap₂ sign_of (ap r.sequences oldest ∙ v.filled 0 (omega arith))
          (v.head_at ∙ ap (λ n. n % word) (omega arith))
        ∙ sign_of_behind (t + 0 + 1) (2 ^ k - 1) (omega arith) (omega arith) in
      rw (e, push)

module _ {A : Type 0} (k t : ℕ) (moved : A → A) (x : A) {xs : List A} {r : RingBuffer A}
    (v : Represents k t (x ∷ xs) r) where
  slot_at_tail : slot k r.tail ≡ slot k (t + 0)
  slot_at_tail =
      ap (slot k) (v.tail_at ∙ ap (λ n. n % word) (omega arith)) ∙ slot-word k t 0 v.capacity_max

  later : (i : ℕ) → slot k (t + 1 + i) ≡ slot k (t + suc i)
  later i = ap (slot k) (omega arith)

  free_after :
      (i : ℕ)
      → Dec (suc i < 2 ^ k)
      → length xs ≤ i
      → i < 2 ^ k
      → store (slot k r.tail) (add_size r.tail (2 ^ k)) r.sequences (slot k (t + 1 + i))
        ≡ (t + 1 + i) % word
  free_after i (yes inside) h h' =
      rw
        (
          slot_at_tail,
          later i,
          store-slot k t 0 (suc i) (add_size r.tail (2 ^ k)) r.sequences (omega (arith, v.fits))
              inside,
        )
        (ground (arith, v.free (suc i)))
  free_after i (no outside) h h' =
      let last : slot k (t + 1 + i) ≡ slot k (t + 0) = ap (slot k) (omega arith) ∙ slot_round k t in
      rw
        (
          slot_at_tail,
          last,
          store-slot k t 0 0 (add_size r.tail (2 ^ k)) r.sequences (omega (arith, v.fits))
              (omega (arith, v.fits)),
        )
        (omega (arith, v.tail_at))

  pop_slot-Represents : Represents k (t + 1) xs (pop_slot k moved r)
  unfolding pop_slot
  pop_slot-Represents = record {
    capacity_min = v.capacity_min;
    capacity_max = v.capacity_max;
    fits = omega (arith, v.fits);
    tail_at = omega (arith, v.tail_at);
    head_at = omega (arith, v.head_at);
    filled = λ i h.
        rw
          (
            slot_at_tail,
            later i,
            store-slot k t 0 (suc i) (add_size r.tail (2 ^ k)) r.sequences (omega (arith, v.fits))
                (omega (arith, v.fits)),
          )
          (ground (arith, v.filled (suc i)));
    held = λ i h.
        rw
          (
            slot_at_tail,
            later i,
            store-slot k t 0 (suc i) (moved_from moved (r.buffer (slot k (t + 0)))) r.buffer
                (omega (arith, v.fits)) (omega (arith, v.fits)),
          )
          (ground (arith, v.held (suc i)));
    free = λ i h h'. free_after i (dec_lt (suc i) (2 ^ k)) h h';
  }

  try_pop-some : (fuel : ℕ) → try_pop k moved (suc fuel) r ≡ some (pop_slot k moved r, some x)
  unfolding try_pop
  try_pop-some fuel =
      let e : sign_of (r.sequences (slot k r.tail)) (add_size r.tail 1) ≡ equal =
        ap₂ sign_of (ap r.sequences slot_at_tail ∙ v.filled 0 (omega arith))
          (omega (arith, v.tail_at))
        ∙ sign_of_self _ in
      rw (e, try_pop)
        (ap (λ o. some (pop_slot k moved r, o)) (ap r.buffer slot_at_tail ∙ v.held 0 (omega arith)))

module _ {A : Type 0} (k t : ℕ) (moved : A → A) {r : RingBuffer A} (v : Represents k t [] r) where
  try_pop-none : (fuel : ℕ) → try_pop k moved (suc fuel) r ≡ some (r, none)
  unfolding try_pop
  try_pop-none fuel =
      let (two, most) = power_bounds k v.capacity_min v.capacity_max in
      let at_tail : slot k r.tail ≡ slot k (t + 0) =
        ap (slot k) (v.tail_at ∙ ap (λ n. n % word) (omega arith))
        ∙ slot-word k t 0 v.capacity_max in
      let e : sign_of (r.sequences (slot k r.tail)) (add_size r.tail 1) ≡ negative =
        ap₂ sign_of (ap r.sequences at_tail ∙ v.free 0 (omega arith) (omega arith))
          (ap (λ n. add_size n 1) v.tail_at ∙ omega arith)
        ∙ sign_of_behind (t + 0) 1 (omega arith) (omega arith) in
      rw (e, try_pop)

abbrev pub queue_push : {A : Type 0} → ℕ → A → List A → List A × Bool
queue_push k item xs = if ltb (length xs) (2 ^ k) then (xs ++ item ∷ [], true) else (xs, false)

abbrev pub head? : {A : Type 0} → List A → Option A
head? [] = none
head? (x ∷ xs) = some x

-- Push on the ring is push on the queue; one round of the loop is enough.
pub push-queue_push :
    {A : Type 0} (k t fuel : ℕ) (item : A) {xs : List A} {r : RingBuffer A}
    → Represents k t xs r
    → (r' : RingBuffer A) × (push k (suc fuel) item r ≡ some (r', (queue_push k item xs).1))
      × Represents k t (queue_push k item xs).0 r'
push-queue_push k t fuel item {xs} {r} v = elim (Bool-cases (ltb (length xs) (2 ^ k))) [
  | inl room ↦ rw room (
    push_slot k item r,
    push_room k t item v fuel (ground arith),
    push_slot-Represents k t item v (ground arith),
  )
  | inr full ↦ rw full (r, push_full k t item v fuel (ground (arith, v.fits)), v)
]

-- TryPop on the ring takes the queue's oldest element.
pub try_pop-queue :
    {A : Type 0} (k t fuel : ℕ) (moved : A → A) {r : RingBuffer A} (xs : List A)
    → Represents k t xs r
    → (r' : RingBuffer A) × (t' : ℕ) × (try_pop k moved (suc fuel) r ≡ some (r', head? xs))
      × Represents k t' (drop 1 xs) r'
      × (t' + length (drop 1 xs) ≡ t + length xs)
try_pop-queue k t fuel moved {r} [] v = (r, t, try_pop-none k t moved v fuel, v, refl)
try_pop-queue k t fuel moved {r} (x ∷ xs) v = (
  pop_slot k moved r,
  t + 1,
  try_pop-some k t moved x v fuel,
  pop_slot-Represents k t moved x v,
  omega arith,
)

pub new_ring-Represents : {A : Type 0} (k : ℕ) → 1 ≤ k → k ≤ 62 → Represents {A = A} k 0 [] new_ring
unfolding new_ring
new_ring-Represents k h h' =
    let (two, most) = power_bounds k h h' in
    record {
      capacity_min = h;
      capacity_max = h';
      fits = omega arith;
      tail_at = omega arith;
      head_at = omega arith;
      filled = λ i j. absurd (omega arith);
      held = λ i j. absurd (omega arith);
      free = λ i j j'. grind arith;
    }
