-- ===== src/Base/Ring/Fifo.antt =====
-- Histories of calls on the ring, against a queue; what the consumer sees without taking it out.
use torrent_link.Prelude.{
  ℕ, zero, suc, ◌≤◌, ◌≡◌, Bool, Option, none, some, List, [], ◌∷◌, refl, take, drop,
}
use torrent_link.Base.Ring.{RingBuffer, new_ring, push, try_pop, try_pop_batch}
use torrent_link.Base.Ring.Queue.{
  Represents, queue_push, head?, push-queue_push, try_pop-queue, new_ring-Represents,
}

pub data Call (A : Type 0) : Type 0 where
  push_call : A → Call A
  pop_call : Call A
  batch_call : ℕ → Call A

pub data Reply (A : Type 0) : Type 0 where
  pushed : Bool → Reply A
  popped : Option A → Reply A
  batch : List A → Reply A

-- One call on a queue of capacity 2 ^ k.
abbrev pub queue_call : {A : Type 0} → ℕ → Call A → List A → List A × Reply A
queue_call k (push_call item) xs = let (xs', done) = queue_push k item xs in (xs', pushed done)
queue_call k pop_call xs = (drop 1 xs, popped (head? xs))
queue_call k (batch_call n) xs = (drop n xs, batch (take n xs))

abbrev pub queue_calls : {A : Type 0} → ℕ → List (Call A) → List A → List A × List (Reply A)
queue_calls k [] xs = (xs, [])
queue_calls k (c ∷ cs) xs =
    let (xs', reply) = queue_call k c xs in
    let (xs'', replies) = queue_calls k cs xs' in (xs'', reply ∷ replies)

module _ {A : Type 0} (moved : A → A) (fuel k : ℕ) where
  abbrev pub ring_call : Call A → RingBuffer A → Option (RingBuffer A × Reply A)
  ring_call (push_call item) r = elim (push k fuel item r) [
    | none ↦ none
    | some (r', done) ↦ some (r', pushed done)
  ]
  ring_call pop_call r = elim (try_pop k moved fuel r) [
    | none ↦ none
    | some (r', item) ↦ some (r', popped item)
  ]
  ring_call (batch_call n) r = elim (try_pop_batch k moved fuel n r) [
    | none ↦ none
    | some (r', items) ↦ some (r', batch items)
  ]

  abbrev pub ring_calls : List (Call A) → RingBuffer A → Option (RingBuffer A × List (Reply A))
  ring_calls [] r = some (r, [])
  ring_calls (c ∷ cs) r = elim (ring_call c r) [
    | none ↦ none
    | some (r', reply) ↦ elim (ring_calls cs r') [
      | none ↦ none
      | some (r'', replies) ↦ some (r'', reply ∷ replies)
    ]
  ]

try_pop_batch-take :
    {A : Type 0} (moved : A → A) (fuel k t n : ℕ) {r : RingBuffer A} (xs : List A)
    → Represents k t xs r
    → (r' : RingBuffer A) × (t' : ℕ) × (try_pop_batch k moved (suc fuel) n r ≡ some (r', take n xs))
      × Represents k t' (drop n xs) r'
unfolding try_pop_batch
try_pop_batch-take moved fuel k t zero {r} xs v = (r, t, refl, v)
try_pop_batch-take moved fuel k t (suc n) {r} [] v =
    let (r', t', e, v', _) = try_pop-queue k t fuel moved [] v in
    (r', t', rw (e, try_pop_batch), v')
try_pop_batch-take moved fuel k t (suc n) {r} (x ∷ xs) v =
    let (r', t', e, v', _) = try_pop-queue k t fuel moved (x ∷ xs) v in
    let (r'', t'', e', v'') = try_pop_batch-take moved fuel k t' n xs v' in
    (r'', t'', rw (e, try_pop_batch) (rw e'), v'')

ring_call-queue_call :
    {A : Type 0} (moved : A → A) (fuel k t : ℕ) (c : Call A) {r : RingBuffer A} {xs : List A}
    → Represents k t xs r
    → (r' : RingBuffer A) × (t' : ℕ) × (ring_call moved (suc fuel) k c r
        ≡ some (r', (queue_call k c xs).1))
      × Represents k t' (queue_call k c xs).0 r'
ring_call-queue_call moved fuel k t (push_call item) v =
    let (r', e, v') = push-queue_push k t fuel item v in (r', t, rw (e, ring_call), v')
ring_call-queue_call moved fuel k t pop_call {xs = xs} v =
    let (r', t', e, v', _) = try_pop-queue k t fuel moved xs v in (r', t', rw (e, ring_call), v')
ring_call-queue_call moved fuel k t (batch_call n) {xs = xs} v =
    let (r', t', e, v') = try_pop_batch-take moved fuel k t n xs v in
    (r', t', rw (e, ring_call), v')

pub ring_calls-Represents :
    {A : Type 0} (moved : A → A) (fuel k t : ℕ) (cs : List (Call A)) {r : RingBuffer A}
    {xs : List A}
    → Represents k t xs r
    → (r' : RingBuffer A) × (t' : ℕ) × (ring_calls moved (suc fuel) k cs r
        ≡ some (r', (queue_calls k cs xs).1))
      × Represents k t' (queue_calls k cs xs).0 r'
ring_calls-Represents moved fuel k t [] {r} v = (r, t, refl, v)
ring_calls-Represents moved fuel k t (c ∷ cs) v =
    let (r', t', e, v') = ring_call-queue_call moved fuel k t c v in
    let (r'', t'', e', v'') = ring_calls-Represents moved fuel k t' cs v' in
    (r'', t'', rw (e, ring_calls) (rw e'), v'')

-- A ring of capacity 2 ^ k, with k from 1 to 62, is a queue of that capacity: whatever calls of Push,
-- TryPop and TryPopBatch are made on a new ring, one after the other, each returns, and its reply is
-- the queue's. A full ring refuses and changes nothing, and this holds for any number of calls, also
-- after the counters have wrapped around. One round of each loop is enough.
pub ring_calls-queue_calls :
    {A : Type 0} (moved : A → A) (fuel k : ℕ) (cs : List (Call A))
    → 1 ≤ k
    → k ≤ 62
    → (r : RingBuffer A) × (ring_calls moved (suc fuel) k cs new_ring
        ≡ some (r, (queue_calls k cs []).1))
ring_calls-queue_calls moved fuel k cs h h' =
    let (r, t, e, v) = ring_calls-Represents moved fuel k 0 cs (new_ring-Represents k h h') in
    (r, e)
