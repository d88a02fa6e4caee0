-- ===== src/Examples/Subscriptions.antt =====
-- RSS subscriptions (core/rss) at concrete inputs.
use torrent_link.Prelude.{
  ℤ, pos, ltb_ℤ, ◌≡◌, ◌≤◌, ◌⊎◌, ◌+◌, refl, Bool, true, false, not, ◌&&◌, String, str_eq, some, none,
  List, [], ◌∷◌, length, filter, count, any, find?,
}
use torrent_link.Rss.Types.{
  RssFeed, RssItem, RssRule, RssSettings, AutoDownloadDecision, all_eligible,
}
use torrent_link.Rss.Rules.{Matcher, evaluate, find_first_enabled_match}
use torrent_link.Rss.Rules.Match.{selects, applies, evaluate-selects, find_first_enabled_match_lem}
use torrent_link.Rss.Dedup.{Text, filter_duplicates, prune_history}
use torrent_link.Rss.Dedup.Filtering.{
  unique_from, AreNew, filter_duplicates-unique_from, filter_duplicates-AreNew,
}
use torrent_link.Examples.Sorts.{by_insertion, by_insertion-IsSort}
use torrent_link.Rss.Dedup.History.{young, AreOutranked, is_downloaded, prune_history_lem}
use torrent_link.Rss.Service.{
  RssService, FetchResult, feed_ids, has_feed_id, parsed, load_state, remove_feed,
  apply_rss_download_settlement,
}
use torrent_link.Rss.Service.Refresh.{refresh_all_feeds, reload_item_stream}
use torrent_link.Rss.Service.Refresh.Feeds.{refresh_all_feeds-IsConsistent}
use torrent_link.Rss.Service.Refresh.Fetched.{AreRefreshed, refresh_all_feeds-AreRefreshed}
use torrent_link.Rss.Service.Dispatch.{Sorting, dispatch_deferred}
use torrent_link.Rss.Service.Dispatch.Caps.{IsCapped, dispatch_deferred-IsCapped}
use torrent_link.Rss.Service.{upsert_feed}
use torrent_link.Rss.Service.Feeds.{AreDistinct, upsert_feed-AreDistinct}
use torrent_link.Rss.Service.Ownership.{IsConsistent, belongs, reload-IsConsistent}
use torrent_link.Rss.Service.Settlement.{find_item, Outcome, IsSettled, find_item-settlement}

abbrev item : String → String → Bool → RssItem
item id guid downloaded = record {
  id = id;
  feed_id = "feed";
  title = "Linux";
  link = "";
  guid = guid;
  summary = "";
  published_at = some (pos 50);
  magnet = "";
  torrent_url = "";
  is_read = false;
  ignored = false;
  downloaded = downloaded;
  accepted = false;
  queued = true;
  rss_auto_waitlisted = false;
  last_auto_decision = AutoDownloadDecision.undecided;
  last_auto_reason_code = "";
  last_auto_reason_text = "";
  last_attempt_at = none;
  last_success_at = none;
  retry_count = pos 0;
  download_save_path = "";
}

abbrev feed : RssFeed
feed = record {
  id = "feed";
  title = "";
  url = "http://example.org";
  enabled = true;
  auto_download_enabled = true;
  last_refreshed_at = none;
  last_success_refreshed_at = none;
  last_error = "";
}

abbrev rule : RssRule
rule = record {
  id = "r";
  name = "linux";
  feed_ids = [];
  include_keywords = "Linux" ∷ [];
  exclude_keywords = "beta" ∷ [];
  use_regex = false;
  enabled = true;
  save_path = "";
  category = "";
  tags_csv = "";
}

abbrev matcher : Matcher
matcher = record { regex_has_match = λ keyword s. false; contains_ci = str_eq }

abbrev text : Text
text = record { normalize_torrent_url = λ s. s; extract_info_hash = λ s. s; decimal = λ n. "1" }

abbrev settings : RssSettings
settings = record {
  global_auto_download = true;
  refresh_interval_minutes = pos 30;
  max_auto_downloads_per_refresh = pos 10;
  max_concurrent_auto_downloads = pos 3;
  max_auto_download_backlog = pos 50;
  history_max_items = pos 5000;
  history_max_age_days = pos 90;
  external_player_command = "";
}

abbrev service : RssService
service = record {
  dedup = record {
    known_ids = [];
    known_guids = [];
    known_links = [];
    known_torrent_urls = [];
    known_infohashes = [];
  };
  feeds = feed ∷ [];
  items = item "1" "a" false ∷ item "2" "b" false ∷ [];
  rules = rule ∷ [];
  auto_download_enabled = true;
  max_auto_per_refresh = pos 10;
  history_policy = record { max_items = pos 5000; max_age_days = pos 90 };
  settings = settings;
  has_callback = true;
  last_refresh_new_item_ids = [];
  requests = [];
}

evaluate-selects_example :
    (evaluate matcher rule (item "1" "a" false)).matched ≡ selects matcher rule (item "1" "a" false)
evaluate-selects_example = evaluate-selects matcher rule (item "1" "a" false)

find_first_enabled_match_lem_example :
    find_first_enabled_match matcher
      (record rule { enabled = false } ∷ rule ∷ [])
      (item "1" "a" false)
    ≡ (elim (find?
        (applies matcher (item "1" "a" false))
        (record rule { enabled = false } ∷ rule ∷ [])) [
          | none ↦ none
          | some r ↦ some (evaluate matcher r (item "1" "a" false))
        ])
find_first_enabled_match_lem_example =
    find_first_enabled_match_lem matcher (record rule { enabled = false } ∷ rule ∷ [])
      (item "1" "a" false)

-- Two items of which one is known by its GUID.
abbrev known : List RssItem
known = item "1" "a" false ∷ []

abbrev arriving : List RssItem
arriving = item "2" "a" false ∷ item "3" "b" false ∷ item "4" "b" false ∷ []

filter_duplicates-unique_from_example :
    filter_duplicates text known arriving ≡ unique_from text known arriving
filter_duplicates-unique_from_example = filter_duplicates-unique_from text known arriving

filter_duplicates-AreNew_example :
    AreNew text known (filter_duplicates text known arriving)
    × (filter_duplicates text known (filter_duplicates text known arriving)
        ≡ filter_duplicates text known arriving)
filter_duplicates-AreNew_example = filter_duplicates-AreNew text known arriving

-- Ninety days before the clock, which is at 60.
abbrev cutoff : ℤ → ℤ
cutoff days = pos 60

prune_history_lem_example :
    let its = item "1" "a" false ∷ item "2" "b" true ∷ item "3" "c" true ∷ [] in
    let pruned =
      prune_history cutoff by_insertion (record { max_items = pos 1; max_age_days = pos 90 }) its in
    ((p : RssItem → Bool) → count p pruned ≤ count p its)
    × ((ltb_ℤ (pos 0) (pos 1) ≡ false) ⊎ (length pruned ≤ 1))
    × ((count is_downloaded pruned ≡ count is_downloaded its) ⊎ (count is_downloaded pruned ≡ 1))
    × ((dropped : List RssItem) × ((p : RssItem → Bool)
          → count p pruned + count p dropped
            ≡ count p (young cutoff (record { max_items = pos 1; max_age_days = pos 90 }) its))
        × AreOutranked by_insertion.later pruned dropped)
prune_history_lem_example =
    prune_history_lem cutoff by_insertion by_insertion-IsSort
      (record { max_items = pos 1; max_age_days = pos 90 })
      (item "1" "a" false ∷ item "2" "b" true ∷ item "3" "c" true ∷ [])

reload-IsConsistent_example :
    IsConsistent text (load_state text (λ s. s) (feed ∷ []) arriving (rule ∷ []) settings service)
    × IsConsistent text (remove_feed text "feed" service)
    × (any (has_feed_id "feed") (remove_feed text "feed" service).feeds ≡ false)
    × ((remove_feed text "feed" service).items
        ≡ filter
            (λ it.
              not (str_eq it.feed_id "feed") && belongs (remove_feed text "feed" service).feeds it)
            service.items)
reload-IsConsistent_example =
    reload-IsConsistent text (λ s. s) (feed ∷ []) arriving (rule ∷ []) settings service "feed"

abbrev loaded : RssService
loaded = load_state text (λ s. s) (feed ∷ []) arriving (rule ∷ []) settings service

find_item-settlement_example :
    Outcome true (IsSettled (some (pos 70)) true "/downloads") (find_item "2" service.items) (
      find_item "2"
        (apply_rss_download_settlement
          (λ s. s)
          (some (pos 70))
          (record { item_id = "2"; record_save_path = "/downloads" })
          true
          ""
          service).items)
find_item-settlement_example =
    find_item-settlement (λ s. s) (some (pos 70))
      (record { item_id = "2"; record_save_path = "/downloads" }) true "" service "2"

-- Candidates in the order of their indices.
abbrev in_place : Sorting
in_place = record { sort = λ less xs. xs; partial_sort = λ less n xs. xs }

-- Two items wait, with a link each.
abbrev with_links : RssService
with_links = record service {
  items =
      record (item "1" "a" false) { magnet = "magnet:a"; queued = false }
      ∷ record (item "2" "b" false) { magnet = "magnet:b"; queued = false }
      ∷ [];
}

dispatch_deferred-IsCapped_example :
    IsCapped in_place matcher
      (some (pos 70))
      (pos 1)
      with_links
      (dispatch_deferred in_place matcher (some (pos 70)) (pos 1) true all_eligible with_links)
dispatch_deferred-IsCapped_example =
    dispatch_deferred-IsCapped in_place matcher (some (pos 70)) (pos 1) true all_eligible with_links

abbrev fetch : String → FetchResult
fetch id = parsed arriving

refresh_all_feeds-IsConsistent_example :
    IsConsistent text (refresh_all_feeds text cutoff by_insertion (some (pos 70)) fetch service)
    × IsConsistent text (reload_item_stream text cutoff by_insertion (some (pos 70)) fetch service)
    × (feed_ids (refresh_all_feeds text cutoff by_insertion (some (pos 70)) fetch service).feeds
        ≡ "feed" ∷ [])
    × (feed_ids (reload_item_stream text cutoff by_insertion (some (pos 70)) fetch service).feeds
        ≡ "feed" ∷ [])
refresh_all_feeds-IsConsistent_example =
    refresh_all_feeds-IsConsistent text cutoff by_insertion (some (pos 70)) fetch service

-- The same URL without an id.
upsert_feed-AreDistinct_example :
    AreDistinct (upsert_feed "uuid" (record feed { id = ""; title = "News" }) service).feeds
upsert_feed-AreDistinct_example =
    upsert_feed-AreDistinct "uuid" (record feed { id = ""; title = "News" }) service refl (refl, tt)

-- One feed is enabled and one is not.
abbrev two_feeds : RssService
two_feeds = record service { feeds = feed ∷ record feed { id = "quiet"; enabled = false } ∷ [] }

refresh_all_feeds-AreRefreshed_example :
    AreRefreshed
      (some (pos 70))
      fetch
      two_feeds.feeds
      (refresh_all_feeds text cutoff by_insertion (some (pos 70)) fetch two_feeds).feeds
refresh_all_feeds-AreRefreshed_example =
    refresh_all_feeds-AreRefreshed text (some (pos 70)) cutoff by_insertion fetch two_feeds
      (refl, (refl, tt))
