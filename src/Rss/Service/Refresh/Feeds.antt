-- ===== src/Rss/Service/Refresh/Feeds.antt =====
-- What a refresh of all feeds leaves.
use torrent_link.Prelude.{
  ℤ, Bool, String, List, [], ◌∷◌, filter, not, ◌≡◌, refl, ap, ◌∙◌, arith, if◌then◌else◌,
}
use torrent_link.Rss.Types.{RssFeed, DateTime}
use torrent_link.Rss.Rules.{is_nil, contains}
use torrent_link.Rss.Dedup.{Text, ItemSort}
use torrent_link.Rss.Service.{
  RssService, FetchResult, fetch_failed, parse_failed, parsed, feed_ids, has_feed_id, update_first,
  note_refresh, reindex, take_items, add_new_items, refresh_feed, prune_items_without_matching_feed,
}
use torrent_link.Rss.Service.Ownership.{IsConsistent, filter-belongs}
use torrent_link.Rss.Service.Refresh.{
  prune_items, refresh_enabled, refresh_all_feeds, reload_item_stream,
}

feed_ids-update_first :
    (p : RssFeed → Bool) (f : RssFeed → RssFeed)
    → ((x : RssFeed) → (f x).id ≡ x.id)
    → (feeds : List RssFeed) → feed_ids (update_first p f feeds) ≡ feed_ids feeds
unfolding update_first
feed_ids-update_first p f h [] = refl
feed_ids-update_first p f h (x ∷ xs) = ground (arith, h x, feed_ids-update_first p f h xs)

module _ (text : Text) where
  pub id-note_refresh :
      (now : DateTime) (r : FetchResult) (f : RssFeed) → (note_refresh text now r f).id ≡ f.id
  unfolding note_refresh
  id-note_refresh now (fetch_failed error) f = refl
  id-note_refresh now (parse_failed error) f = refl
  id-note_refresh now (parsed items) f = refl

  pub feeds-take_items : (r : FetchResult) (s : RssService) → (take_items text r s).feeds ≡ s.feeds
  unfolding take_items add_new_items
  feeds-take_items (fetch_failed error) s = refl
  feeds-take_items (parse_failed error) s = refl
  feeds-take_items (parsed items) s = refl

  feed_ids-refresh_feed :
      (id : String) (now : DateTime) (r : FetchResult) (s : RssService)
      → feed_ids (refresh_feed text id now r s).feeds ≡ feed_ids s.feeds
  unfolding refresh_feed prune_items_without_matching_feed
  feed_ids-refresh_feed id now r s =
      let noted = update_first (has_feed_id id) (note_refresh text now r) s.feeds in
      ground (
        arith,
        ap feed_ids (feeds-take_items r (record s { feeds = noted })),
        feed_ids-update_first (has_feed_id id) (note_refresh text now r) (id-note_refresh now r)
            s.feeds,
      )

  module _ (cutoff_days : ℤ → ℤ) (sorting : ItemSort) (now : DateTime)
      (fetch : String → FetchResult) where
    feed_ids-refresh_enabled :
        (fs : List RssFeed) (s : RssService)
        → feed_ids (refresh_enabled text cutoff_days sorting now fetch fs s).feeds
          ≡ feed_ids s.feeds
    unfolding refresh_enabled
    feed_ids-refresh_enabled [] s = refl
    feed_ids-refresh_enabled (f ∷ fs) s =
        feed_ids-refresh_enabled fs
          (if f.enabled then refresh_feed text f.id now (fetch f.id) s else s)
        ∙ ground (arith, feed_ids-refresh_feed f.id now (fetch f.id) s)

    pub feeds-prune_items :
        (s : RssService) → (prune_items text cutoff_days sorting now fetch s).feeds ≡ s.feeds
    unfolding prune_items
    feeds-prune_items s = ground arith

    -- After the refresh of all feeds, or the reload of their items, every item's feed
    -- is there and the index is that of the items, whatever the service held before and whatever the
    -- fetches gave; and the feeds are those of before, by their ids and in their order. An item's
    -- feed is there if a feed has the item's feed id, which is not empty, or if the item has no feed id
    -- and there are no feeds.
    pub refresh_all_feeds-IsConsistent :
        (s : RssService)
        → IsConsistent text (refresh_all_feeds text cutoff_days sorting now fetch s)
          × IsConsistent text (reload_item_stream text cutoff_days sorting now fetch s)
          × (feed_ids (refresh_all_feeds text cutoff_days sorting now fetch s).feeds
              ≡ feed_ids s.feeds)
          × (feed_ids (reload_item_stream text cutoff_days sorting now fetch s).feeds
              ≡ feed_ids s.feeds)
    unfolding IsConsistent refresh_all_feeds reload_item_stream prune_items_without_matching_feed
    refresh_all_feeds-IsConsistent s = (consistent s, consistent t, same s, same t ∙ ground arith)
      where
        t : RssService
        t =
            let enabled_ids = feed_ids (filter (λ f. f.enabled) s.feeds) in
            if is_nil enabled_ids
            then s
            else reindex text
                (record s { items = filter (λ it. not (contains enabled_ids it.feed_id)) s.items })

        swept : RssService → RssService
        swept u = prune_items text cutoff_days sorting now fetch (
            refresh_enabled text cutoff_days sorting now fetch u.feeds
              (record u { last_refresh_new_item_ids = [] }))

        consistent :
            (u : RssService)
            → IsConsistent text (refresh_all_feeds text cutoff_days sorting now fetch u)
        consistent u = (filter-belongs (swept u).feeds (swept u).items, refl)

        same :
            (u : RssService)
            → feed_ids (refresh_all_feeds text cutoff_days sorting now fetch u).feeds
              ≡ feed_ids u.feeds
        same u =
            ap feed_ids (
              feeds-prune_items (
                refresh_enabled text cutoff_days sorting now fetch u.feeds
                  (record u { last_refresh_new_item_ids = [] })))
            ∙ feed_ids-refresh_enabled u.feeds (record u { last_refresh_new_item_ids = [] })
