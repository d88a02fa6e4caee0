-- ===== src/Rss/Service/Ownership.antt =====
-- The operations of core/rss/rss_service.cc that end with a prune and a new index.
use torrent_link.Prelude.{
  Bool, true, false, ◌&&◌, not, String, str_eq, is_empty, ◌||◌, ◌==◌, length, arith, sym, subst,
  ◌∙◌, [], ◌∷◌, List, map, All, any, filter, ◌≡◌, refl, ap, filter-All, filter-filter,
  any-filter_self, if◌then◌else◌,
}
use torrent_link.Rss.Types.{RssFeed, RssItem, RssRule, RssSettings, DateTime}
use torrent_link.Rss.Dedup.{Text, build_index}
use torrent_link.Rss.Rules.{is_nil, contains}
use torrent_link.Rss.Service.{
  feed_ids, RssService, FetchResult, is_owned, has_feed_id, prune_items_without_matching_feed,
  load_state, apply_settings, remove_feed, refresh_feed, take_items, update_first, note_refresh,
  reindex,
}

-- An item's feed is there: a feed has the item's feed id, which is not empty, or the item has no feed
-- id and there is no feed at all.
abbrev pub belongs : List RssFeed → RssItem → Bool
belongs feeds it =
    any (λ f. not (is_empty it.feed_id) && str_eq f.id it.feed_id) feeds
    || (is_empty it.feed_id && length feeds == 0)

any_named :
    (b : Bool) (id : String) (feeds : List RssFeed)
    → any (λ f. not b && str_eq f.id id) feeds ≡ (not b && contains (feed_ids feeds) id)
any_named true id [] = refl
any_named false id [] = refl
any_named true id (f ∷ fs) = any_named true id fs
any_named false id (f ∷ fs) = ap (λ c. str_eq f.id id || c) (any_named false id fs)

nil_length : (feeds : List RssFeed) → is_nil feeds ≡ (length feeds == 0)
nil_length [] = refl
nil_length (f ∷ fs) = ground arith

is_owned-belongs : (feeds : List RssFeed) (it : RssItem) → is_owned feeds it ≡ belongs feeds it
unfolding is_owned
is_owned-belongs feeds it =
    ground (arith, any_named (is_empty it.feed_id) it.feed_id feeds, nil_length feeds)

filter_ext :
    {A : Type 0} (p r : A → Bool)
    → ((x : A) → p x ≡ r x)
    → (xs : List A) → filter p xs ≡ filter r xs
filter_ext p r h [] = refl
filter_ext p r h (x ∷ xs) = ground (arith, h x, filter_ext p r h xs)

-- Every item's feed is there, and the index is that of the items.
unfoldable pub IsConsistent : Text → RssService → Type 0
IsConsistent text s =
    All (λ it. belongs s.feeds it ≡ true) s.items × s.dedup ≡ build_index text s.items

pub filter-belongs :
    (feeds : List RssFeed) (items : List RssItem)
    → All (λ it. belongs feeds it ≡ true) (filter (is_owned feeds) items)
filter-belongs feeds items =
    subst (λ its. All (λ it. belongs feeds it ≡ true) its)
      (sym (filter_ext (is_owned feeds) (belongs feeds) (is_owned-belongs feeds) items))
      (filter-All (belongs feeds) items)

module _ (text : Text) where
  -- After loading, whatever the files hold, and after removing a feed from any state, the feed of every
  -- item is there and the index is that of the items; after the removal no feed has the id,
  -- and what is left of the items are those that do not have its id as their feed's and whose feed is left. An item's feed is there if a feed has the
  -- item's feed id, which is not empty, or if the item has no feed id and there are no feeds.
  pub reload-IsConsistent :
      (trim : String → String) (feeds : List RssFeed) (items : List RssItem) (rules : List RssRule)
      (settings : RssSettings) (s : RssService) (id : String)
      → IsConsistent text (load_state text trim feeds items rules settings s)
        × IsConsistent text (remove_feed text id s)
        × any (has_feed_id id) (remove_feed text id s).feeds ≡ false
        × (remove_feed text id s).items
          ≡ filter
              (λ it. not (str_eq it.feed_id id) && belongs (remove_feed text id s).feeds it)
              s.items
  unfolding IsConsistent load_state remove_feed prune_items_without_matching_feed apply_settings
  reload-IsConsistent trim feeds items rules settings s id = (
    (filter-belongs feeds (map {A = RssItem} reset items), refl),
    (filter-belongs left (filter {A = RssItem} elsewhere s.items), refl),
    any-filter_self (has_feed_id id) (λ f. not (has_feed_id id f)) s.feeds (λ f h. ap not h),
    filter-filter (is_owned left) elsewhere s.items
        ∙ filter_ext _ (λ it. elsewhere it && belongs left it)
            (λ it. ap (λ b. elsewhere it && b) (is_owned-belongs left it)) s.items,
  )
    where
      reset : RssItem → RssItem
      reset it = record it { queued = false; rss_auto_waitlisted = false }

      elsewhere : RssItem → Bool
      elsewhere it = not (str_eq it.feed_id id)

      left : List RssFeed
      left = filter (λ f. not (has_feed_id id f)) s.feeds

  -- Refreshing a feed keeps the state consistent, whatever the id, the fetch and the parser gave.
  pub refresh_feed-IsConsistent :
      (id : String) (now : DateTime) (fetched : FetchResult) (s : RssService)
      → IsConsistent text s
      → IsConsistent text (refresh_feed text id now fetched s)
  unfolding IsConsistent refresh_feed prune_items_without_matching_feed
  refresh_feed-IsConsistent id now fetched s c =
      kept (any (has_feed_id id) s.feeds) (filter-belongs taken.feeds taken.items, refl)
    where
      taken : RssService
      taken = take_items text fetched (record s {
        feeds = update_first (has_feed_id id) (note_refresh text now fetched) s.feeds;
      })

      refreshed : RssService
      refreshed = reindex text (prune_items_without_matching_feed taken)

      kept :
          (b : Bool) → IsConsistent text refreshed → IsConsistent text (if b then refreshed else s)
      kept true h = h
      kept false h = c
