-- ===== src/Rss/Service/Refresh/Fetched.antt =====
-- What a refresh of all feeds does to each feed.
use torrent_link.Prelude.{
  ℤ, false, String, str_eq_iff, List, [], ◌∷◌, ◌++◌, map, any, any-append, append_assoc, ◌≡◌, refl,
  sym, ap, subst, ◌∙◌, arith, Bool-cases, inl, inr, if◌then◌else◌,
}
use torrent_link.Rss.Types.{RssFeed, DateTime}
use torrent_link.Rss.Dedup.{Text, ItemSort}
use torrent_link.Rss.Service.{
  RssService, FetchResult, fetch_failed, parse_failed, parsed, has_feed_id, update_first,
  note_refresh, refresh_feed, prune_items_without_matching_feed,
}
use torrent_link.Rss.Service.Feeds.{AreDistinct}
use torrent_link.Rss.Service.Refresh.{refresh_enabled, refresh_all_feeds}
use torrent_link.Rss.Service.Refresh.Feeds.{id-note_refresh, feeds-take_items, feeds-prune_items}

update_first_absent :
    (k : String) (g : RssFeed → RssFeed) (xs : List RssFeed)
    → any (has_feed_id k) xs ≡ false
    → update_first (has_feed_id k) g xs ≡ xs
unfolding update_first
update_first_absent k g [] h = refl
update_first_absent k g (x ∷ xs) h = ground (arith, h, update_first_absent k g xs)

update_first_behind :
    (g : RssFeed → RssFeed) (front : List RssFeed) (f : RssFeed) (fs : List RssFeed)
    → any (has_feed_id f.id) front ≡ false
    → update_first (has_feed_id f.id) g (front ++ f ∷ fs) ≡ front ++ g f ∷ fs
unfolding update_first
update_first_behind g [] f fs h = ground (arith, str_eq_iff f.id f.id)
update_first_behind g (x ∷ front) f fs h = ground (arith, h, update_first_behind g front f fs)

-- None of the feeds has the id of one of those in front.
abbrev AreBehind : List RssFeed → List RssFeed → Type 0
AreBehind front [] = Unit {0}
AreBehind front (f ∷ fs) = (any (has_feed_id f.id) front ≡ false) × AreBehind front fs

AreBehind-snoc :
    (front : List RssFeed) (x f : RssFeed) (fs : List RssFeed)
    → x.id ≡ f.id
    → any (has_feed_id f.id) fs ≡ false
    → AreBehind front fs
    → AreBehind (front ++ x ∷ []) fs
AreBehind-snoc front x f [] e h k = tt
AreBehind-snoc front x f (y ∷ fs) e h k = (
  ground (
    arith,
    any-append (has_feed_id y.id) front (x ∷ []),
    h,
    k.0,
    str_eq_iff x.id y.id,
    str_eq_iff y.id f.id,
    e,
  ),
  AreBehind-snoc front x f fs e (ground (arith, h)) k.1,
)

AreBehind-nil : (fs : List RssFeed) → AreBehind [] fs
AreBehind-nil [] = tt
AreBehind-nil (f ∷ fs) = (refl, AreBehind-nil fs)

-- The error and the time of the last success that a fetch leaves.
abbrev pub error_of : FetchResult → String
error_of (fetch_failed error) = error
error_of (parse_failed error) = error
error_of (parsed items) = ""

abbrev pub success_of : DateTime → FetchResult → DateTime → DateTime
success_of now (fetch_failed error) before = before
success_of now _ before = now

-- A feed before and after: fetched at `now` if it is enabled, and else as it was.
abbrev pub IsRefreshed : DateTime → FetchResult → RssFeed → RssFeed → Type 0
IsRefreshed now r f g =
    (g.id ≡ f.id)
    × (g.url ≡ f.url)
    × (g.enabled ≡ f.enabled)
    × (g.auto_download_enabled ≡ f.auto_download_enabled)
    × (g.last_refreshed_at ≡ (if f.enabled then now else f.last_refreshed_at))
    × (g.last_success_refreshed_at ≡ (
        if f.enabled
        then success_of now r f.last_success_refreshed_at
        else f.last_success_refreshed_at))
    × (g.last_error ≡ (if f.enabled then error_of r else f.last_error))

abbrev pub AreRefreshed : DateTime → (String → FetchResult) → List RssFeed → List RssFeed → Type 0
AreRefreshed now fetch [] [] = Unit {0}
AreRefreshed now fetch (f ∷ fs) (g ∷ gs) =
    IsRefreshed now (fetch f.id) f g × AreRefreshed now fetch fs gs
AreRefreshed now fetch _ _ = ⊥

module _ (text : Text) (now : DateTime) where
  feeds-refresh_feed :
      (id : String) (r : FetchResult) (s : RssService)
      → (refresh_feed text id now r s).feeds
        ≡ update_first (has_feed_id id) (note_refresh text now r) s.feeds
  unfolding refresh_feed prune_items_without_matching_feed
  feeds-refresh_feed id r s = elim (Bool-cases (any (has_feed_id id) s.feeds)) [
    | inl there ↦ rw (there, refresh_feed) (feeds-take_items text r _)
    | inr absent ↦ rw (absent, refresh_feed) (sym (update_first_absent id _ s.feeds absent))
  ]

  noted : FetchResult → RssFeed → RssFeed
  noted r f = if f.enabled then note_refresh text now r f else f

  id-noted : (r : FetchResult) (f : RssFeed) → (noted r f).id ≡ f.id
  unfolding noted
  id-noted r f = ground (arith, id-note_refresh text now r f)

  noted-IsRefreshed : (r : FetchResult) (f : RssFeed) → IsRefreshed now r f (noted r f)
  unfolding noted note_refresh
  noted-IsRefreshed (fetch_failed error) f = ground arith
  noted-IsRefreshed (parse_failed error) f = ground arith
  noted-IsRefreshed (parsed items) f = ground arith

  feeds_step :
      (front fs : List RssFeed) (f : RssFeed) (r : FetchResult) (s : RssService)
      → s.feeds ≡ front ++ f ∷ fs
      → any (has_feed_id f.id) front ≡ false
      → (if f.enabled then refresh_feed text f.id now r s else s).feeds ≡ front ++ noted r f ∷ fs
  unfolding noted
  feeds_step front fs f r s e b = elim (Bool-cases f.enabled) [
    | inr off ↦ simp off e
    | inl on ↦ simp on (
        feeds-refresh_feed f.id r s
        ∙ ap (update_first (has_feed_id f.id) (note_refresh text now r)) e
        ∙ update_first_behind (note_refresh text now r) front f fs b)
  ]

  module _ (cutoff_days : ℤ → ℤ) (sorting : ItemSort) (fetch : String → FetchResult) where
    feeds-refresh_enabled :
        (front fs : List RssFeed) (s : RssService)
        → s.feeds ≡ front ++ fs
        → AreBehind front fs
        → AreDistinct fs
        → (refresh_enabled text cutoff_days sorting now fetch fs s).feeds
          ≡ front ++ map (λ f. noted (fetch f.id) f) fs
    unfolding refresh_enabled
    feeds-refresh_enabled front [] s e b d = e
    feeds-refresh_enabled front (f ∷ fs) s e b d =
        let g : RssFeed = noted (fetch f.id) f in
        feeds-refresh_enabled (front ++ g ∷ []) fs
          (if f.enabled then refresh_feed text f.id now (fetch f.id) s else s)
          (feeds_step front fs f (fetch f.id) s e b.0 ∙ sym (append_assoc front (g ∷ []) fs))
          (AreBehind-snoc front g f fs (id-noted (fetch f.id) f) d.0 b.1) d.1
        ∙ append_assoc front (g ∷ []) _

    refreshed-AreRefreshed :
        (fs : List RssFeed) → AreRefreshed now fetch fs (map (λ f. noted (fetch f.id) f) fs)
    refreshed-AreRefreshed [] = tt
    refreshed-AreRefreshed (f ∷ fs) = (noted-IsRefreshed (fetch f.id) f, refreshed-AreRefreshed fs)

    -- Refreshing all feeds of a service whose feeds have different ids notes the fetch of each
    -- enabled feed and of no other: an enabled feed gets the time of the refresh and the error of its fetch, and the
    -- time of the last success unless fetching failed; a feed that is not enabled keeps all these, and
    -- no feed comes, goes, moves or changes its id, URL or flags.
    pub refresh_all_feeds-AreRefreshed :
        (s : RssService)
        → AreDistinct s.feeds
        → AreRefreshed now fetch s.feeds
            (refresh_all_feeds text cutoff_days sorting now fetch s).feeds
    unfolding refresh_all_feeds prune_items_without_matching_feed
    refresh_all_feeds-AreRefreshed s d =
        let start : RssService = record s { last_refresh_new_item_ids = [] } in
        subst (AreRefreshed now fetch s.feeds)
          (sym (
            feeds-prune_items text cutoff_days sorting now fetch
              (refresh_enabled text cutoff_days sorting now fetch s.feeds start)
            ∙ feeds-refresh_enabled [] s.feeds start refl (AreBehind-nil s.feeds) d))
          (refreshed-AreRefreshed s.feeds)
