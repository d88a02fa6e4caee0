-- ===== src/Rss/Service/Feeds.antt =====
-- RssService::upsertFeed (core/rss/rss_service.cc) and the ids of the feeds.
use torrent_link.Prelude.{
  Bool, true, false, ◌&&◌, not, String, is_empty, str_eq, str_eq_iff, List, [], ◌∷◌, ◌++◌, any,
  any-append, ◌≡◌, refl, ◌⊎◌, inl, inr, arith, Bool-cases, if◌then◌else◌,
}
use torrent_link.Rss.Types.{RssFeed}
use torrent_link.Rss.Service.{
  RssService, has_feed_id, has_url, update_first, with_id, merge_feed, upsert_in, upsert_feed,
}

abbrev pub AreDistinct : List RssFeed → Type 0
AreDistinct [] = Unit {0}
AreDistinct (f ∷ fs) = (any (has_feed_id f.id) fs ≡ false) × AreDistinct fs

-- What a change may do to the id of a feed: keep it, or make it one that no feed of the list has.
abbrev KeepsIds : (RssFeed → Bool) → (RssFeed → RssFeed) → List RssFeed → Type 0
KeepsIds p g feeds =
    (x : RssFeed) → p x ≡ true → ((g x).id ≡ x.id) ⊎ (any (has_feed_id (g x).id) feeds ≡ false)

any-update_first :
    (p : RssFeed → Bool) (g : RssFeed → RssFeed) (k : String) (xs : List RssFeed)
    → ((x : RssFeed) → p x ≡ true → ((g x).id ≡ x.id) ⊎ (str_eq (g x).id k ≡ false))
    → any (has_feed_id k) xs ≡ false
    → any (has_feed_id k) (update_first p g xs) ≡ false
unfolding update_first
any-update_first p g k [] h n = refl
any-update_first p g k (x ∷ xs) h n =
    ground (arith, n, h x, any-update_first p g k xs h, str_eq_iff (g x).id k, str_eq_iff x.id k)

update_first-AreDistinct :
    (p : RssFeed → Bool) (g : RssFeed → RssFeed) (xs : List RssFeed)
    → KeepsIds p g xs
    → AreDistinct xs
    → AreDistinct (update_first p g xs)
unfolding update_first
update_first-AreDistinct p g [] h d = tt
update_first-AreDistinct p g (x ∷ xs) h d = elim (Bool-cases (p x)) [
  | inl on ↦ rw on (ground (arith, on, h x, d.0), d.1)
  | inr off ↦ rw off (
    any-update_first p g x.id xs
        (λ y q. ground (arith, h y q, str_eq_iff (g y).id x.id, str_eq_iff x.id (g y).id)) d.0,
    update_first-AreDistinct p g xs (λ y q. ground (arith, h y q)) d.1,
  )
]

append-AreDistinct :
    (f : RssFeed) (xs : List RssFeed)
    → any (has_feed_id f.id) xs ≡ false
    → AreDistinct xs
    → AreDistinct (xs ++ f ∷ [])
append-AreDistinct f [] n d = (refl, tt)
append-AreDistinct f (x ∷ xs) n d = (
  ground (
    arith,
    any-append (has_feed_id x.id) xs (f ∷ []),
    d.0,
    n,
    str_eq_iff f.id x.id,
    str_eq_iff x.id f.id,
  ),
  append-AreDistinct f xs (ground (arith, n)) d.1,
)

-- Adding or updating a feed keeps the ids of the feeds distinct, whichever of the two searches finds a
-- feed or whether neither does, if the text of a new QUuid is the id of no feed yet.
pub upsert_feed-AreDistinct :
    (uuid : String) (feed : RssFeed) (s : RssService)
    → any (has_feed_id uuid) s.feeds ≡ false
    → AreDistinct s.feeds
    → AreDistinct (upsert_feed uuid feed s).feeds
unfolding upsert_feed upsert_in
upsert_feed-AreDistinct uuid feed s fresh d =
    pick (not (is_empty feed.id) && any (has_feed_id feed.id) s.feeds)
      (not (is_empty feed.url) && any (has_url feed.url) s.feeds) refl
  where
    by_id :
        not (is_empty feed.id) ≡ true
        → KeepsIds (has_feed_id feed.id) (merge_feed uuid feed) s.feeds
    by_id h x q = inl (unfold merge_feed in ground (arith, h, q, str_eq_iff x.id feed.id))

    by_url :
        (not (is_empty feed.id) && any (has_feed_id feed.id) s.feeds) ≡ false
        → KeepsIds (has_url feed.url) (merge_feed uuid feed) s.feeds
    by_url h x q = unfold merge_feed in ground (arith, h, fresh)

    new_id :
        (not (is_empty feed.id) && any (has_feed_id feed.id) s.feeds) ≡ false
        → any (has_feed_id (with_id uuid feed).id) s.feeds ≡ false
    new_id h = unfold with_id in ground (arith, h, fresh)

    pick :
        (found_id found_url : Bool)
        → (not (is_empty feed.id) && any (has_feed_id feed.id) s.feeds) ≡ found_id
        → AreDistinct (
            if found_id
            then update_first (has_feed_id feed.id) (merge_feed uuid feed) s.feeds
            else if found_url
            then update_first (has_url feed.url) (merge_feed uuid feed) s.feeds
            else s.feeds ++ with_id uuid feed ∷ [])
    pick true found_url h =
        update_first-AreDistinct (has_feed_id feed.id) (merge_feed uuid feed) s.feeds
          (by_id (ground (arith, h))) d
    pick false true h =
        update_first-AreDistinct (has_url feed.url) (merge_feed uuid feed) s.feeds (by_url h) d
    pick false false h = append-AreDistinct (with_id uuid feed) s.feeds (new_id h) d
