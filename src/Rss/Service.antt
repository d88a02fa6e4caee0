-- ===== src/Rss/Service.antt =====
-- core/rss/rss_service.cc: the state of the RSS service and its operations on feeds, items, rules and
-- settings. The repository, the fetcher and the parser are not modelled:
-- what they read is an argument, and saving has no effect here. `now` is the clock and `uuid` the
-- text of a new QUuid. A QSet is a list.
pub mod Auto
pub mod Dispatch
pub mod Refresh
pub mod Feeds
pub mod Ownership
pub mod Settlement
use Prim.Native.String.{◌++◌ as text_append}
use torrent_link.Prelude.{
  ℕ, zero, suc, ℤ, pos, negsuc, ◌+◌, clamp_ℤ, Bool, true, false, ◌||◌, ◌&&◌, not, String, is_empty,
  str_eq, Option, none, some, List, [], ◌∷◌, ◌++◌, map, any, filter, find?, length, if◌then◌else◌,
}
use torrent_link.Rss.Types.{
  RssFeed, RssItem, RssRule, RssSettings, HistoryPolicy, AutoDownloadDecision, AutoDownloadRequest,
  RssDownloadSettlement, DateTime,
}
use torrent_link.Rss.Rules.{is_nil, contains}
use torrent_link.Rss.Dedup.{Text, RssDedup, build_index, keep_unique}

-- `requests` records, oldest first, the requests that went to the callback; `has_callback` says
-- whether one is set. The callback is taken not to call the service back.
pub record RssService : Type 0 where
  pub dedup : RssDedup
  pub feeds : List RssFeed
  pub items : List RssItem
  pub rules : List RssRule
  pub auto_download_enabled : Bool
  pub max_auto_per_refresh : ℤ
  pub history_policy : HistoryPolicy
  pub settings : RssSettings
  pub has_callback : Bool
  pub last_refresh_new_item_ids : List String
  pub requests : List AutoDownloadRequest

unfoldable pub mark_item_decision : AutoDownloadDecision → String → String → RssItem → RssItem
mark_item_decision decision code text it = record it {
  last_auto_decision = decision;
  last_auto_reason_code = code;
  last_auto_reason_text = text;
}

-- The loops that change the first element that passes a test.
unfoldable pub update_first {ℓ} : {A : Type ℓ} → (A → Bool) → (A → A) → List A → List A
update_first p f [] = []
update_first p f (x ∷ xs) = if p x then f x ∷ xs else x ∷ update_first p f xs

abbrev pub feed_ids : List RssFeed → List String
feed_ids = map (λ f. f.id)

-- An item whose feed is there; one without a feed id counts only while there are no feeds.
unfoldable pub is_owned : List RssFeed → RssItem → Bool
is_owned feeds it =
    if is_empty it.feed_id then is_nil feeds else contains (feed_ids feeds) it.feed_id

unfoldable pub prune_items_without_matching_feed : RssService → RssService
prune_items_without_matching_feed s = record s { items = filter (is_owned s.feeds) s.items }

unfoldable pub set_auto_download_enabled : Bool → RssService → RssService
set_auto_download_enabled on s = record s {
  auto_download_enabled = on;
  settings = record s.settings { global_auto_download = on };
}

unfoldable pub set_max_auto_downloads_per_refresh : ℤ → RssService → RssService
set_max_auto_downloads_per_refresh max s =
    let n = clamp_ℤ max (pos 1) (pos 100) in
    record s {
      max_auto_per_refresh = n;
      settings = record s.settings { max_auto_downloads_per_refresh = n };
    }

-- `trim` is QString::trimmed.
unfoldable pub apply_settings : (String → String) → RssSettings → RssService → RssService
apply_settings trim given s =
    let used = record given {
      refresh_interval_minutes = clamp_ℤ given.refresh_interval_minutes (pos 5) (pos 1440);
      max_auto_downloads_per_refresh =
          clamp_ℤ given.max_auto_downloads_per_refresh (pos 1) (pos 100);
      max_concurrent_auto_downloads = clamp_ℤ given.max_concurrent_auto_downloads (pos 1) (pos 50);
      max_auto_download_backlog = clamp_ℤ given.max_auto_download_backlog (pos 1) (pos 500);
      history_max_items = clamp_ℤ given.history_max_items (pos 100) (pos 100000);
      history_max_age_days = clamp_ℤ given.history_max_age_days (pos 0) (pos 3650);
      external_player_command = trim given.external_player_command;
    } in
    record s {
      settings = used;
      auto_download_enabled = used.global_auto_download;
      max_auto_per_refresh = used.max_auto_downloads_per_refresh;
      history_policy = record {
        max_items = used.history_max_items;
        max_age_days = used.history_max_age_days;
      };
    }

-- `copy.id` of a new feed.
unfoldable pub with_id : String → RssFeed → RssFeed
with_id uuid feed = if is_empty feed.id then record feed { id = uuid } else feed

-- The update of a feed that is there: without an id of its own, the new one takes over the id and
-- the flags and times of the old.
unfoldable pub merge_feed : String → RssFeed → RssFeed → RssFeed
merge_feed uuid feed previous =
    if is_empty feed.id
    then record feed {
      id = if is_empty previous.id then uuid else previous.id;
      enabled = previous.enabled;
      auto_download_enabled = previous.auto_download_enabled;
      last_refreshed_at = previous.last_refreshed_at;
      last_success_refreshed_at = previous.last_success_refreshed_at;
      last_error = previous.last_error;
    }
    else feed

-- The two searches: by id, and then by URL.
abbrev pub has_feed_id : String → RssFeed → Bool
has_feed_id id f = str_eq f.id id

abbrev pub has_url : String → RssFeed → Bool
has_url url f = str_eq f.url url

unfoldable pub upsert_in : String → RssFeed → List RssFeed → List RssFeed
upsert_in uuid feed feeds =
    if not (is_empty feed.id) && any (has_feed_id feed.id) feeds
    then update_first (has_feed_id feed.id) (merge_feed uuid feed) feeds
    else if not (is_empty feed.url) && any (has_url feed.url) feeds
    then update_first (has_url feed.url) (merge_feed uuid feed) feeds
    else feeds ++ with_id uuid feed ∷ []

unfoldable pub upsert_feed : String → RssFeed → RssService → RssService
upsert_feed uuid feed s = record s { feeds = upsert_in uuid feed s.feeds }

unfoldable pub upsert_rule : String → RssRule → RssService → RssService
upsert_rule uuid rule s =
    let copy = if is_empty rule.id then record rule { id = uuid } else rule in
    if any (λ r. str_eq r.id rule.id) s.rules
    then record s { rules = update_first (λ r. str_eq r.id rule.id) (λ _. rule) s.rules }
    else record s { rules = s.rules ++ copy ∷ [] }

unfoldable pub remove_rule : String → RssService → RssService
remove_rule id s = record s { rules = filter (λ r. not (str_eq r.id id)) s.rules }

unfoldable pub mark_item_read : String → RssService → RssService
mark_item_read id s = record s {
  items = update_first (λ it. str_eq it.id id) (λ it. record it { is_read = true }) s.items;
}

unfoldable pub mark_item_ignored : String → RssService → RssService
mark_item_ignored id s = record s {
  items = update_first (λ it. str_eq it.id id) (λ it. record it { ignored = true }) s.items;
}

unfoldable pub mark_items_ignored : List String → RssService → RssService
mark_items_ignored ids s = record s {
  items = map (λ it. if contains ids it.id then record it { ignored = true } else it) s.items;
}

-- `++it.retry_count`.
unfoldable pub increment : ℤ → ℤ
increment (pos n) = pos (suc n)
increment (negsuc zero) = pos 0
increment (negsuc (suc m)) = negsuc m

-- What settling does to the item.
unfoldable pub settle_item : DateTime → Bool → String → RssItem → RssItem
unfolding mark_item_decision increment
settle_item now success path it =
    let closed = record it { queued = false; last_attempt_at = now } in
    if success
    then mark_item_decision AutoDownloadDecision.succeeded "settlement_success"
        "Request accepted by download pipeline."
        (record closed {
          accepted = true;
          downloaded = true;
          retry_count = pos 0;
          download_save_path = path;
          last_success_at = now;
        })
    else mark_item_decision AutoDownloadDecision.failed "settlement_failed"
        "Request failed or cancelled."
        (record closed { retry_count = increment closed.retry_count })

unfoldable pub apply_rss_download_settlement :
    (String → String) → DateTime → RssDownloadSettlement → Bool → String → RssService → RssService
apply_rss_download_settlement trim now settled success override s =
    let path = if is_empty (trim override) then settled.record_save_path else override in
    if is_empty settled.item_id then s else record s {
      items =
          update_first (λ it. str_eq it.id settled.item_id) (settle_item now success path) s.items;
    }

module _ (text : Text) where
  abbrev pub reindex : RssService → RssService
  reindex s = record s { dedup = build_index text s.items }

  -- What the repository has is given.
  unfoldable pub load_state :
      (String → String)
      → List RssFeed
      → List RssItem
      → List RssRule
      → RssSettings
      → RssService
      → RssService
  load_state trim feeds items rules settings s =
      let fresh =
        map {A = RssItem} (λ it. record it { queued = false; rss_auto_waitlisted = false }) items in
      let loaded = record s { feeds = feeds; items = fresh; rules = rules } in
      reindex (prune_items_without_matching_feed (apply_settings trim settings loaded))

  unfoldable pub remove_feed : String → RssService → RssService
  remove_feed id s = reindex (
      prune_items_without_matching_feed (record s {
        feeds = filter (λ f. not (has_feed_id id f)) s.feeds;
        items = filter (λ it. not (str_eq it.feed_id id)) s.items;
      }))

  unfoldable pub clear_items_for_feed : String → RssService → RssService
  clear_items_for_feed id s =
      reindex (record s { items = filter (λ it. not (str_eq it.feed_id id)) s.items })

  unfoldable pub clear_items_for_feeds : List String → RssService → RssService
  clear_items_for_feeds ids s =
      if is_nil ids
      then s
      else reindex (record s { items = filter (λ it. not (contains ids it.feed_id)) s.items })

  -- dedupIncoming, and the loop that appends what it keeps.
  unfoldable pub add_new_items : List RssItem → RssService → RssService
  add_new_items incoming s =
      let (kept, dedup) = keep_unique text incoming s.dedup in
      record s {
        items = s.items ++ kept;
        dedup = dedup;
        last_refresh_new_item_ids = map (λ it. it.id) kept ++ s.last_refresh_new_item_ids;
      }

-- What fetching a feed and parsing its body gave.
pub data FetchResult : Type 0 where
  fetch_failed parse_failed : String → FetchResult
  parsed : List RssItem → FetchResult

module _ (text : Text) where
  unfoldable pub note_refresh : DateTime → FetchResult → RssFeed → RssFeed
  note_refresh now (fetch_failed error) f = record f { last_refreshed_at = now; last_error = error }
  note_refresh now (parse_failed error) f = record f {
    last_refreshed_at = now;
    last_success_refreshed_at = now;
    last_error = error;
  }
  note_refresh now (parsed items) f = record f {
    last_refreshed_at = now;
    last_success_refreshed_at = now;
    last_error = "";
    title =
        if is_empty f.title && not (is_nil items)
        then text_append "Feed (" (text_append (text.decimal (length items)) " items)")
        else f.title;
  }

  unfoldable pub take_items : FetchResult → RssService → RssService
  take_items (parsed items) s = add_new_items text items s
  take_items _ s = s

  unfoldable pub refresh_feed : String → DateTime → FetchResult → RssService → RssService
  unfolding note_refresh take_items
  refresh_feed id now fetched s =
      if any (has_feed_id id) s.feeds
      then reindex text (
          prune_items_without_matching_feed (
            take_items fetched (record s {
              feeds = update_first (has_feed_id id) (note_refresh now fetched) s.feeds;
            })))
      else s
