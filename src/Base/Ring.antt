-- ===== src/Base/Ring.antt =====
-- base/ring_buffer.h, with the capacity 2 ^ k: the calls of one thread at a time. An array is a
-- function of its index; every index is taken `& (Capacity - 1)`, which for a power of two is the
-- remainder. A `size_t` is a number below 2 ^ 64.
pub mod Words
pub mod Queue
pub mod Fifo
pub mod Peeks
use torrent_link.Prelude.{
  ℕ, zero, suc, ◌+◌, ◌-◌, ◌%◌, ◌^◌, ◌==◌, ltb, leb, Bool, true, false, Option, none, some, List, [],
  ◌∷◌, if◌then◌else◌,
}

-- 2 ^ 64
abbrev pub word : ℕ
word = 18_446_744_073_709_551_616

abbrev pub add_size : ℕ → ℕ → ℕ
add_size a b = (a + b) % word

abbrev pub sub_size : ℕ → ℕ → ℕ
sub_size a b = (a + word - b) % word

pub record RingBuffer (A : Type 0) : Type 0 where
  pub buffer : ℕ → Option A
  pub sequences : ℕ → ℕ
  pub head : ℕ
  pub tail : ℕ

unfoldable pub store {ℓ} : {B : Type ℓ} → ℕ → B → (ℕ → B) → ℕ → B
store i b f j = if i == j then b else f j

-- The sign of `diff`, a difference of two `size_t` read as a signed number.
pub data Sign : Type 0 where
  negative equal positive : Sign

unfoldable pub sign_of : ℕ → ℕ → Sign
sign_of seq x =
    if seq == x
    then equal
    else if ltb (sub_size seq x) 9_223_372_036_854_775_808
    then positive
    else negative

-- `x & (Capacity - 1)`
abbrev pub slot : ℕ → ℕ → ℕ
slot k x = x % 2 ^ k

module _ {A : Type 0} where
  unfoldable pub new_ring : RingBuffer A
  new_ring = record { buffer = λ i. none; sequences = λ i. i; head = 0; tail = 0 }

-- A `std::optional` that has been moved from keeps its element, as moving leaves it: `moved`.
unfoldable pub moved_from {ℓ} : {A : Type ℓ} → (A → A) → Option A → Option A
moved_from moved none = none
moved_from moved (some a) = some (moved a)

module _ {A : Type 0} (k : ℕ) where
  -- The body of PushImpl's loop at `diff == 0`, where the exchange succeeds.
  unfoldable pub push_slot : A → RingBuffer A → RingBuffer A
  push_slot item r = record r {
    head = add_size r.head 1;
    buffer = store (slot k r.head) (some item) r.buffer;
    sequences = store (slot k r.head) (add_size r.head 1) r.sequences;
  }

  -- The loop, on fuel: `none` if it does not end. A loop that comes back has loaded `head_` again.
  unfoldable pub push : ℕ → A → RingBuffer A → Option (RingBuffer A × Bool)
  push zero item r = none
  push (suc fuel) item r = elim (sign_of (r.sequences (slot k r.head)) r.head) [
    | equal ↦ some (push_slot item r, true)
    | negative ↦ some (r, false)
    | positive ↦ push fuel item r
  ]

  -- The body of TryPop's loop at `diff == 0`.
  unfoldable pub pop_slot : (A → A) → RingBuffer A → RingBuffer A
  pop_slot moved r = record r {
    tail = add_size r.tail 1;
    buffer = store (slot k r.tail) (moved_from moved (r.buffer (slot k r.tail))) r.buffer;
    sequences = store (slot k r.tail) (add_size r.tail (2 ^ k)) r.sequences;
  }

  unfoldable pub try_pop : (A → A) → ℕ → RingBuffer A → Option (RingBuffer A × Option A)
  try_pop moved zero r = none
  try_pop moved (suc fuel) r = elim (sign_of (r.sequences (slot k r.tail)) (add_size r.tail 1)) [
    | equal ↦ some (pop_slot moved r, r.buffer (slot k r.tail))
    | negative ↦ some (r, none)
    | positive ↦ try_pop moved fuel r
  ]

  -- The loop of TryPopBatch; each TryPop has fuel for itself.
  unfoldable pub try_pop_batch : (A → A) → ℕ → ℕ → RingBuffer A → Option (RingBuffer A × List A)
  try_pop_batch moved fuel zero r = some (r, [])
  try_pop_batch moved fuel (suc n) r = elim (try_pop moved fuel r) [
    | none ↦ none
    | some (r', none) ↦ some (r', [])
    | some (r', some a) ↦ elim (try_pop_batch moved fuel n r') [
      | none ↦ none
      | some (r'', items) ↦ some (r'', a ∷ items)
    ]
  ]

  -- The part of PeekAt after the tests of the counters.
  unfoldable pub peek_slot : ℕ → RingBuffer A → Option A
  peek_slot index r =
      let pos = slot k (add_size r.tail index) in
      elim (sign_of (r.sequences pos) (add_size (add_size r.tail index) 1)) [
        | negative ↦ none
        | _ ↦ r.buffer pos
      ]

  unfoldable pub peek_at : ℕ → RingBuffer A → Option A
  peek_at index r =
      if ltb r.head r.tail
      then none
      else if leb (sub_size r.head r.tail) index
      then none
      else peek_slot index r

  unfoldable pub peek_front : RingBuffer A → Option A
  peek_front r = peek_at 0 r

  unfoldable pub peek_latest : RingBuffer A → Option A
  peek_latest r =
      if leb r.head r.tail then none else peek_at (sub_size (sub_size r.head r.tail) 1) r

module _ {A : Type 0} where
  unfoldable pub size : RingBuffer A → ℕ
  size r = if leb r.tail r.head then sub_size r.head r.tail else 0

  unfoldable pub empty : RingBuffer A → Bool
  empty r = size r == 0
