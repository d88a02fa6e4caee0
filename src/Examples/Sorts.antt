-- ===== src/Examples/Sorts.antt =====
-- A sort by insertion, and times compared as in Qt, for the examples.
use torrent_link.Prelude.{
  ℕ, ◌+◌, ℤ, pos, ltb_ℤ, ◌≡◌, refl, arith, Bool, false, none, some, List, [], ◌∷◌, All, count,
  Bool-cases, inl, inr, if◌then◌else◌,
}
use torrent_link.Rss.Types.{RssItem, DateTime}
use torrent_link.Rss.Dedup.{ItemSort}
use torrent_link.Rss.Dedup.History.{IsWeakOrder, IsSort, AreOrdered}

abbrev time_of : DateTime → ℤ
time_of none = pos 0
time_of (some t) = t

abbrev later : DateTime → DateTime → Bool
later a b = ltb_ℤ (time_of b) (time_of a)

later-IsWeakOrder : IsWeakOrder later
later-IsWeakOrder = record {
  asym = λ a b h. ground (arith, h);
  neg_trans = λ a b c h k. ground (arith, h, k);
}

module _ (less : RssItem → RssItem → Bool) where
  pub insert : RssItem → List RssItem → List RssItem
  insert x [] = x ∷ []
  insert x (y ∷ ys) = let rest = insert x ys in if less y x then y ∷ rest else x ∷ y ∷ ys

  pub sorted : List RssItem → List RssItem
  sorted [] = []
  sorted (x ∷ xs) = insert x (sorted xs)

  one_of : (RssItem → Bool) → RssItem → ℕ
  one_of p x = if p x then 1 else 0

  count-insert :
      (p : RssItem → Bool) (x : RssItem) (ys : List RssItem)
      → count p (insert x ys) ≡ one_of p x + count p ys
  unfolding insert one_of
  count-insert p x [] = ground arith
  count-insert p x (y ∷ ys) = ground (arith, count-insert p x ys)

  count-sorted : (p : RssItem → Bool) (xs : List RssItem) → count p (sorted xs) ≡ count p xs
  unfolding sorted one_of
  count-sorted p [] = refl
  count-sorted p (x ∷ xs) = ground (arith, count-insert p x (sorted xs), count-sorted p xs)

  module _ (w : IsWeakOrder less) where
    All-insert :
        (z x : RssItem) (ys : List RssItem)
        → less x z ≡ false
        → All (λ y. less y z ≡ false) ys
        → All (λ y. less y z ≡ false) (insert x ys)
    unfolding insert
    All-insert z x [] h k = (h, tt)
    All-insert z x (y ∷ ys) h k = elim (Bool-cases (less y x)) [
      | inl after ↦ rw (after, insert) (k.0, All-insert z x ys h k.1)
      | inr here ↦ rw (here, insert) (h, k)
    ]

    All-not_before :
        (x y : RssItem) (ys : List RssItem)
        → less y x ≡ false
        → All (λ z. less z y ≡ false) ys
        → All (λ z. less z x ≡ false) ys
    All-not_before x y [] h k = tt
    All-not_before x y (z ∷ ys) h k = (w.neg_trans z y x k.0 h, All-not_before x y ys h k.1)

    insert-AreOrdered :
        (x : RssItem) (ys : List RssItem) → AreOrdered less ys → AreOrdered less (insert x ys)
    unfolding insert
    insert-AreOrdered x [] k = (tt, tt)
    insert-AreOrdered x (y ∷ ys) k = elim (Bool-cases (less y x)) [
      | inl after ↦
          rw (after, insert) (All-insert y x ys (w.asym y x after) k.0, insert-AreOrdered x ys k.1)
      | inr here ↦ rw (here, insert) ((here, All-not_before x y ys here k.0), k)
    ]

    sorted-AreOrdered : (xs : List RssItem) → AreOrdered less (sorted xs)
    unfolding sorted
    sorted-AreOrdered [] = tt
    sorted-AreOrdered (x ∷ xs) = insert-AreOrdered x (sorted xs) (sorted-AreOrdered xs)

abbrev pub by_insertion : ItemSort
by_insertion = record { later = later; sort = sorted }

pub by_insertion-IsSort : IsSort by_insertion
by_insertion-IsSort = record {
  times = later-IsWeakOrder;
  counts = λ less p its w. count-sorted less p its;
  ordered = λ less its w. sorted-AreOrdered less w its;
}
