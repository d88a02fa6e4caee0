-- ===== src/Rss/Dedup/Filtering.antt =====
-- Of the incoming items the first of those that share a key is kept, if none is known already.
use torrent_link.Prelude.{
  ◌≡◌, refl, ◌∙◌, ap, false, List, [], ◌∷◌, ◌++◌, arith, any, any-append, if◌then◌else◌, Bool-cases,
  inl, inr,
}
use torrent_link.Rss.Types.{RssItem}
use torrent_link.Rss.Dedup.{
  Text, RssDedup, record_item, is_duplicate, build_index, keep_unique, filter_duplicates,
}
use torrent_link.Rss.Dedup.Sharing.{shares_key, is_duplicate-record_item, is_duplicate-build_index}

module _ (text : Text) where
  -- Filtering without an index: an item is kept if it shares no key with what is known or was kept.
  pub unique_from : List RssItem → List RssItem → List RssItem
  unique_from seen [] = []
  unique_from seen (it ∷ its) =
      let kept = it ∷ unique_from (seen ++ it ∷ []) its in
      let dropped = unique_from seen its in if any (shares_key text it) seen then dropped else kept

  abbrev Knows : RssDedup → List RssItem → Type 0
  Knows d seen = (it : RssItem) → is_duplicate text it d ≡ any (shares_key text it) seen

  Knows-record_item :
      (d : RssDedup) (seen : List RssItem) (x : RssItem)
      → Knows d seen
      → Knows (record_item text x d) (seen ++ x ∷ [])
  Knows-record_item d seen x k it = ground (
    arith,
    is_duplicate-record_item text it x d,
    k it,
    any-append (shares_key text it) seen (x ∷ []),
  )

  keep_unique_lem :
      (its : List RssItem) (d : RssDedup) (seen : List RssItem)
      → Knows d seen
      → (keep_unique text its d).0 ≡ unique_from seen its
  unfolding keep_unique unique_from
  keep_unique_lem [] d seen k = refl
  keep_unique_lem (it ∷ its) d seen k = ground (
    arith,
    k it,
    keep_unique_lem its d seen k,
    keep_unique_lem its (record_item text it d) (seen ++ it ∷ []) (Knows-record_item d seen it k),
  )

  -- Filtering with the index keeps exactly what filtering by comparing items keeps, in order.
  pub filter_duplicates-unique_from :
      (existing incoming : List RssItem)
      → filter_duplicates text existing incoming ≡ unique_from existing incoming
  unfolding filter_duplicates
  filter_duplicates-unique_from existing incoming =
      keep_unique_lem incoming (build_index text existing) existing
        (λ it. is_duplicate-build_index text it existing)

  -- No item of the list shares a key with a known one or with one before it.
  pub AreNew : List RssItem → List RssItem → Type 0
  AreNew seen [] = Unit {0}
  AreNew seen (it ∷ its) = (any (shares_key text it) seen ≡ false) × AreNew (seen ++ it ∷ []) its

  unique_from-AreNew : (seen its : List RssItem) → AreNew seen (unique_from seen its)
  unfolding unique_from AreNew
  unique_from-AreNew seen [] = tt
  unique_from-AreNew seen (it ∷ its) = elim (Bool-cases (any (shares_key text it) seen)) [
    | inl old ↦ rw old (unique_from-AreNew seen its)
    | inr new ↦ rw new (new, unique_from-AreNew (seen ++ it ∷ []) its)
  ]

  unique_from_self : (seen its : List RssItem) → AreNew seen its → unique_from seen its ≡ its
  unfolding unique_from AreNew
  unique_from_self seen [] n = refl
  unique_from_self seen (it ∷ its) n =
      rw n.0 (ap (◌∷◌ it) (unique_from_self (seen ++ it ∷ []) its n.1))

  -- What is kept is new: no kept item shares a key with an existing item or with an item that was
  -- kept before it. And filtering what is kept once more drops nothing.
  pub filter_duplicates-AreNew :
      (existing incoming : List RssItem)
      → AreNew existing (filter_duplicates text existing incoming)
        × (filter_duplicates text existing (filter_duplicates text existing incoming)
            ≡ filter_duplicates text existing incoming)
  filter_duplicates-AreNew existing incoming = rw filter_duplicates-unique_from (
    unique_from-AreNew existing incoming,
    filter_duplicates-unique_from existing (unique_from existing incoming)
        ∙ unique_from_self existing (unique_from existing incoming)
            (unique_from-AreNew existing incoming),
  )
