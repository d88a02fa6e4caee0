-- ===== src/Base/Ring/Peeks.antt =====
-- What the consumer sees without taking it out: Size, Empty, PeekAt, PeekFront, PeekLatest.
use torrent_link.Prelude.{
  ℕ, zero, suc, ◌+◌, ◌-◌, ◌≤◌, ◌<◌, ◌≡◌, ◌==◌, none, List, [], ◌∷◌, refl, arith, ap, ap₂, ◌∙◌,
  length, get_elem?, Bool-cases, inl, inr,
}
use torrent_link.Base.Ring.{
  word, slot, add_size, sign_of, equal, RingBuffer, peek_slot, peek_at, peek_latest, size,
}
use torrent_link.Base.Ring.Words.{mod-word}
use torrent_link.Base.Ring.Queue.{Represents, sign_of_self}

module _ {A : Type 0} (k t : ℕ) {xs : List A} {r : RingBuffer A} (v : Represents k t xs r) where
  peek_slot-get_elem? : (i : ℕ) → i < length xs → peek_slot k i r ≡ get_elem? xs i
  unfolding peek_slot
  peek_slot-get_elem? i h =
      let at : slot k (add_size r.tail i) ≡ slot k (t + i) =
        ap (slot k) (omega (arith, v.tail_at))
        ∙ mod-word k (t + i) (omega (arith, v.capacity_max)) in
      let e : sign_of (r.sequences (slot k (add_size r.tail i))) (add_size (add_size r.tail i) 1)
          ≡ equal =
        ap₂ sign_of (ap r.sequences at ∙ v.filled i h) (omega (arith, v.tail_at))
        ∙ sign_of_self _ in
      rw (e, peek_slot) (ap r.buffer at ∙ v.held i h)

  get_elem?-past : (ys : List A) (i : ℕ) → length ys ≤ i → get_elem? ys i ≡ none
  get_elem?-past [] i h = refl
  get_elem?-past (y ∷ ys) zero h = absurd (omega arith)
  get_elem?-past (y ∷ ys) (suc i) h = get_elem?-past ys i (omega arith)

  module _ (unwrapped : t + length xs < word) where
    -- Before the counters wrap, Size is the number of elements.
    pub size-length : size r ≡ length xs
    unfolding size
    size-length = ground (arith, v.tail_at, v.head_at)

    pub peek_at-get_elem? : (i : ℕ) → i < length xs → peek_at k i r ≡ get_elem? xs i
    unfolding peek_at
    peek_at-get_elem? i h = ground (arith, v.tail_at, v.head_at, v.fits, peek_slot-get_elem? i h)

    pub peek_at-past : (i : ℕ) → length xs ≤ i → peek_at k i r ≡ none
    unfolding peek_at
    peek_at-past i h = ground (arith, v.tail_at, v.head_at, v.fits)

    pub peek_latest-last : peek_latest k r ≡ get_elem? xs (length xs - 1)
    unfolding peek_latest
    peek_latest-last = elim (Bool-cases (length xs == 0)) [
      | inl nothing ↦ ground (arith, v.tail_at, v.head_at, get_elem?-past xs (length xs - 1))
      | inr something ↦
          ground (arith, v.tail_at, v.head_at, v.fits, peek_at-get_elem? (length xs - 1))
    ]
