-- ===== src/Rss/Dedup/History.antt =====
-- Pruning the history keeps what was downloaded.
use torrent_link.Prelude.{
  ℕ, zero, suc, ℤ, pos, pos_part, ◌≤◌, ◌≡◌, ◌⊎◌, refl, min, ltb_ℤ, Bool, true, false, All, not,
  ◌&&◌, List, [], ◌∷◌, arith, length, count, take, drop, filter, ◌+◌, ◌||◌, Bool-cases, inl, inr,
  length-take, if◌then◌else◌,
}
use torrent_link.Rss.Types.{RssItem, HistoryPolicy, DateTime}
use torrent_link.Rss.Dedup.{ItemSort, sorts_before, is_aged, prune_history}

abbrev pub is_downloaded : RssItem → Bool
is_downloaded it = it.downloaded

-- Behind an item that was not downloaded there is none that was.
abbrev pub DownloadedFirst : List RssItem → Type 0
DownloadedFirst [] = Unit {0}
DownloadedFirst (it ∷ its) =
    (it.downloaded ≡ false → count is_downloaded its ≡ 0) × DownloadedFirst its

-- A strict weak order, which std::sort wants of its comparison.
pub record IsWeakOrder {A : Type 0} (less : A → A → Bool) : Type 0 where
  pub asym : (a b : A) → less a b ≡ true → less b a ≡ false
  pub neg_trans : (a b c : A) → less a b ≡ false → less b c ≡ false → less a c ≡ false

-- No item belongs before one that stands before it.
abbrev pub AreOrdered : (RssItem → RssItem → Bool) → List RssItem → Type 0
AreOrdered less [] = Unit {0}
AreOrdered less (it ∷ its) = All (λ x. less x it ≡ false) its × AreOrdered less its

-- What Qt and std::sort promise: later times are a strict weak order, and sorting by one permutes the
-- items and leaves them ordered.
pub record IsSort (qt : ItemSort) : Type 0 where
  pub times : IsWeakOrder qt.later
  pub counts :
      (less : RssItem → RssItem → Bool) (p : RssItem → Bool) (its : List RssItem)
      → IsWeakOrder less
      → count p (qt.sort less its) ≡ count p its
  pub ordered :
      (less : RssItem → RssItem → Bool) (its : List RssItem)
      → IsWeakOrder less
      → AreOrdered less (qt.sort less its)

-- The comparison of the code is a strict weak order.
sorts_before-IsWeakOrder :
    (later : DateTime → DateTime → Bool) → IsWeakOrder later → IsWeakOrder (sorts_before later)
unfolding sorts_before
sorts_before-IsWeakOrder later w = record {
  asym = λ a b h. ground (arith, h, w.asym a.published_at b.published_at);
  neg_trans =
      λ a b c h k. ground (arith, h, k, w.neg_trans a.published_at b.published_at c.published_at);
}

count_none :
    (later : DateTime → DateTime → Bool) (it : RssItem) (its : List RssItem)
    → it.downloaded ≡ false
    → All (λ x. sorts_before later x it ≡ false) its
    → count is_downloaded its ≡ 0
unfolding sorts_before
count_none later it [] h k = refl
count_none later it (x ∷ its) h k = ground (arith, h, k.0, count_none later it its h k.1)

AreOrdered-DownloadedFirst :
    (later : DateTime → DateTime → Bool) (its : List RssItem)
    → AreOrdered (sorts_before later) its
    → DownloadedFirst its
AreOrdered-DownloadedFirst later [] k = tt
AreOrdered-DownloadedFirst later (it ∷ its) k =
    (λ h. count_none later it its h k.0, AreOrdered-DownloadedFirst later its k.1)

count-take-le :
    (p : RssItem → Bool) (n : ℕ) (its : List RssItem) → count p (take n its) ≤ count p its
count-take-le p zero its = omega arith
count-take-le p (suc n) [] = omega arith
count-take-le p (suc n) (it ∷ its) = ground (arith, count-take-le p n its)

count-filter-le : (p q : RssItem → Bool) (its : List RssItem) → count p (filter q its) ≤ count p its
count-filter-le p q [] = omega arith
count-filter-le p q (it ∷ its) = ground (arith, count-filter-le p q its)

-- Whether an item deserves its place over another: it alone was downloaded, or both or neither were and
-- the other's time is not later.
abbrev pub outranks : (DateTime → DateTime → Bool) → RssItem → RssItem → Bool
outranks later a b =
    (a.downloaded && not b.downloaded)
    || ((if a.downloaded then b.downloaded else not b.downloaded)
        && not (later b.published_at a.published_at))

-- Each of the dropped items is outranked by all that are kept.
abbrev pub AreOutranked : (DateTime → DateTime → Bool) → List RssItem → List RssItem → Type 0
AreOutranked later kept dropped = All (λ d. All (λ k. outranks later k d ≡ true) kept) dropped

none_kept :
    (later : DateTime → DateTime → Bool) (dropped : List RssItem) → AreOutranked later [] dropped
none_kept later [] = tt
none_kept later (d ∷ ds) = (tt, none_kept later ds)

one_more_kept :
    (later : DateTime → DateTime → Bool) (it : RssItem) (n : ℕ) (kept its : List RssItem)
    → All (λ x. sorts_before later x it ≡ false) its
    → AreOutranked later kept (drop n its)
    → AreOutranked later (it ∷ kept) (drop n its)
unfolding sorts_before
one_more_kept later it zero kept [] h k = tt
one_more_kept later it (suc n) kept [] h k = tt
one_more_kept later it zero kept (x ∷ its) h k =
    ((ground (arith, h.0), k.0), one_more_kept later it zero kept its h.1 k.1)
one_more_kept later it (suc n) kept (x ∷ its) h k = one_more_kept later it n kept its h.1 k

drop-AreOutranked :
    (later : DateTime → DateTime → Bool) (n : ℕ) (its : List RssItem)
    → AreOrdered (sorts_before later) its
    → AreOutranked later (take n its) (drop n its)
drop-AreOutranked later zero its h = none_kept later its
drop-AreOutranked later (suc n) [] h = tt
drop-AreOutranked later (suc n) (it ∷ its) h =
    one_more_kept later it n (take n its) its h.0 (drop-AreOutranked later n its h.1)

count-take-drop :
    (p : RssItem → Bool) (n : ℕ) (its : List RssItem)
    → count p (take n its) + count p (drop n its) ≡ count p its
count-take-drop p zero its = omega arith
count-take-drop p (suc n) [] = omega arith
count-take-drop p (suc n) (it ∷ its) = ground (arith, count-take-drop p n its)

-- The oldest go, but none that was downloaded.
count-young :
    (cutoff : ℤ) (its : List RssItem)
    → count is_downloaded (filter (λ it. not (is_aged cutoff it)) its) ≡ count is_downloaded its
count-young cutoff [] = refl
count-young cutoff (it ∷ its) = ground (arith, count-young cutoff its)

count-take_first :
    (n : ℕ) (its : List RssItem)
    → DownloadedFirst its
    → count is_downloaded (take n its) ≡ min n (count is_downloaded its)
count-take_first zero its d = omega arith
count-take_first (suc n) [] d = omega arith
count-take_first (suc n) (it ∷ its) d =
    ground (arith, count-take_first n its d.1, count-take-le is_downloaded n its, d.0)

-- The step by age.
abbrev pub young : (ℤ → ℤ) → HistoryPolicy → List RssItem → List RssItem
young cutoff_days policy its =
    if ltb_ℤ (pos 0) policy.max_age_days
    then filter (λ it. not (is_aged (cutoff_days policy.max_age_days) it)) its
    else its

count-young_policy :
    (cutoff_days : ℤ → ℤ) (policy : HistoryPolicy) (its : List RssItem)
    → count is_downloaded (young cutoff_days policy its) ≡ count is_downloaded its
count-young_policy cutoff_days policy its = elim (Bool-cases (ltb_ℤ (pos 0) policy.max_age_days)) [
  | inl on ↦ rw on (count-young (cutoff_days policy.max_age_days) its)
  | inr off ↦ rw off
]

count-young_le :
    (p : RssItem → Bool) (cutoff_days : ℤ → ℤ) (policy : HistoryPolicy) (its : List RssItem)
    → count p (young cutoff_days policy its) ≤ count p its
count-young_le p cutoff_days policy its = elim (Bool-cases (ltb_ℤ (pos 0) policy.max_age_days)) [
  | inl on ↦
      rw on (count-filter-le p (λ it. not (is_aged (cutoff_days policy.max_age_days) it)) its)
  | inr off ↦ rw off (omega arith)
]

module _ (cutoff_days : ℤ → ℤ) (qt : ItemSort) (law : IsSort qt) (policy : HistoryPolicy) where
  abbrev pub pruned : List RssItem → List RssItem
  pruned its = prune_history cutoff_days qt policy its

  abbrev over_limit : List RssItem → Bool
  over_limit ys = ltb_ℤ (pos 0) policy.max_items && ltb_ℤ policy.max_items (pos (length ys))

  -- The history after pruning holds nothing that was not in it, and at most `max_items` items if
  -- that limit is positive; and an item that was downloaded is dropped only if there are more of
  -- those alone than the limit allows. And of the items that are young enough for the limit on age the
  -- limit on their number drops only such as are outranked by all that stay, which are downloaded
  -- items where the dropped one is not, or no less downloaded and not older. It is relied on that QDateTime's > is a strict weak order, and
  -- that std::sort by one permutes the items and leaves none behind an item that it belongs before.
  pub prune_history_lem :
      (its : List RssItem)
      → ((p : RssItem → Bool) → count p (pruned its) ≤ count p its)
        × ((ltb_ℤ (pos 0) policy.max_items ≡ false)
            ⊎ (length (pruned its) ≤ pos_part policy.max_items))
        × ((count is_downloaded (pruned its) ≡ count is_downloaded its)
            ⊎ (count is_downloaded (pruned its) ≡ pos_part policy.max_items))
        × ((dropped : List RssItem) × ((p : RssItem → Bool)
              → count p (pruned its) + count p dropped ≡ count p (young cutoff_days policy its))
            × AreOutranked qt.later (pruned its) dropped)
  unfolding prune_history
  prune_history_lem its = elim (Bool-cases (over_limit (young cutoff_days policy its))) [
    | inl over ↦
        let ys : List RssItem = young cutoff_days policy its in
        let less : RssItem → RssItem → Bool = sorts_before qt.later in
        let weak : IsWeakOrder less = sorts_before-IsWeakOrder qt.later law.times in
        rw over (
          λ p. omega (
            arith,
            count-take-le p (pos_part policy.max_items) (qt.sort less ys),
            law.counts less p ys weak,
            count-young_le p cutoff_days policy its,
          ),
          inr (omega (arith, length-take (pos_part policy.max_items) (qt.sort less ys))),
          omega (
            arith,
            count-take_first (pos_part policy.max_items) (qt.sort less ys)
                (AreOrdered-DownloadedFirst qt.later (qt.sort less ys) (law.ordered less ys weak)),
            law.counts less is_downloaded ys weak,
            count-young_policy cutoff_days policy its,
          ),
          (
            drop (pos_part policy.max_items) (qt.sort less ys),
            λ p. omega (
              arith,
              count-take-drop p (pos_part policy.max_items) (qt.sort less ys),
              law.counts less p ys weak,
            ),
            drop-AreOutranked qt.later (pos_part policy.max_items) (qt.sort less ys)
                (law.ordered less ys weak),
          ),
        )
    | inr within ↦ rw within (
      λ p. count-young_le p cutoff_days policy its,
      ground (arith, within),
      inl (count-young_policy cutoff_days policy its),
      ([], λ p. omega arith, tt),
    )
  ]
