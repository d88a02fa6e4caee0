-- ===== src/Rss/Service/Refresh.antt =====
-- core/rss/rss_service.cc: the refresh of all feeds, the history, and the queries.
pub mod Feeds
pub mod Fetched
use torrent_link.Prelude.{
  ℤ, Bool, String, is_empty, str_eq, Option, List, [], ◌∷◌, map, filter, find?, not, ltb, length,
  if◌then◌else◌, true,
}
use torrent_link.Rss.Types.{
  RssFeed, RssItem, HistoryPolicy, DateTime, RuleMatchResult, all_eligible,
}
use torrent_link.Rss.Rules.{Matcher, is_nil, contains, evaluate_all}
use torrent_link.Rss.Dedup.{Text, ItemSort, prune_history}
use torrent_link.Rss.Service.{
  RssService, FetchResult, has_feed_id, feed_ids, reindex, refresh_feed,
  prune_items_without_matching_feed,
}
use torrent_link.Rss.Service.Auto.{diagnose_item}
use torrent_link.Rss.Service.Dispatch.{Sorting, apply_overflow_markers, sync_waitlist_markers}

unfoldable pub find_feed : String → RssService → Option RssFeed
find_feed id s = find? (has_feed_id id) s.feeds

unfoldable pub items_for_feed : String → RssService → List RssItem
items_for_feed id s = filter (λ it. str_eq it.feed_id id) s.items

unfoldable pub evaluate_item : Matcher → RssItem → RssService → List RuleMatchResult
evaluate_item m it s = evaluate_all m s.rules it

unfoldable pub set_history_policy : HistoryPolicy → RssService → RssService
set_history_policy policy s = record s { history_policy = policy }

-- The loop diagnoses the items of one feed.
unfoldable pub refresh_diagnostics_for_feed : Sorting → Matcher → String → RssService → RssService
refresh_diagnostics_for_feed sorting m id s =
    let diagnosed = record s {
      items = map (λ it. if str_eq it.feed_id id then diagnose_item m s it else it) s.items;
    } in
    if is_empty id
    then s
    else sync_waitlist_markers sorting all_eligible (apply_overflow_markers sorting diagnosed)

-- `cutoff_days` and `sorting` are those of the history; `fetch` says what the fetcher and the parser
-- give for the feed with an id.
module _ (text : Text) (cutoff_days : ℤ → ℤ) (sorting : ItemSort) (now : DateTime)
    (fetch : String → FetchResult) where
  -- RssService::pruneHistory
  unfoldable pub prune_items : RssService → RssService
  prune_items s =
      let items = prune_history cutoff_days sorting s.history_policy s.items in
      let pruned = record s { items = items } in
      if ltb (length items) (length s.items) then reindex text pruned else pruned

  unfoldable pub refresh_enabled : List RssFeed → RssService → RssService
  refresh_enabled [] s = s
  refresh_enabled (f ∷ fs) s =
      refresh_enabled fs (if f.enabled then refresh_feed text f.id now (fetch f.id) s else s)

  unfoldable pub refresh_all_feeds : RssService → RssService
  unfolding refresh_enabled prune_items
  refresh_all_feeds s =
      let start = record s { last_refresh_new_item_ids = [] } in
      reindex text (prune_items_without_matching_feed (prune_items (refresh_enabled s.feeds start)))

  unfoldable pub reload_item_stream : RssService → RssService
  unfolding refresh_all_feeds
  reload_item_stream s =
      let enabled_ids = feed_ids (filter (λ f. f.enabled) s.feeds) in
      let cleared =
        reindex text
          (record s { items = filter (λ it. not (contains enabled_ids it.feed_id)) s.items }) in
      refresh_all_feeds (if is_nil enabled_ids then s else cleared)
