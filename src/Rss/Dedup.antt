-- ===== src/Rss/Dedup.antt =====
-- core/rss/rss_dedup.cc: an index of what is known of the items, and the test whether an item is
-- known. The sets are lists; only membership counts. Qt's `trimmed().toLower()` of a URL and the
-- regular expressions that take an info-hash out of a magnet link are the fields of `Text`, which also has the texts of numbers.
pub mod Sharing
pub mod Filtering
pub mod History
use Prim.Native.String.{◌++◌ as text_append}
use torrent_link.Prelude.{
  ℕ, ℤ, pos, negsuc, ◌+◌, ◌*◌, ◌-◌, pos_part, neg_part, ltb, ltb_ℤ, Bool, true, false, ◌||◌, ◌&&◌,
  not, String, is_empty, str_eq, Option, none, some, List, [], ◌∷◌, ◌++◌, any, filter, length, take,
  if◌then◌else◌,
}
use torrent_link.Rss.Types.{RssItem, HistoryPolicy, DateTime}

pub record Text : Type 0 where
  pub normalize_torrent_url : String → String
  -- empty if the link has no info-hash
  pub extract_info_hash : String → String
  -- QString::arg with a number
  pub decimal : ℕ → String

pub record RssDedup : Type 0 where
  pub known_ids : List String
  pub known_guids : List String
  pub known_links : List String
  pub known_torrent_urls : List String
  pub known_infohashes : List String

unfoldable pub empty_dedup : RssDedup
empty_dedup = record {
  known_ids = [];
  known_guids = [];
  known_links = [];
  known_torrent_urls = [];
  known_infohashes = [];
}

-- The feed's id and the key, with the separator U+001E between them.
unfoldable pub feed_scope_key : String → String → String
feed_scope_key feed_id key =
    if is_empty key
    then ""
    else if is_empty feed_id
    then key
    else text_append feed_id (text_append "\u{1e}" key)

-- `if (!part.isEmpty()) set.insert(key);`
unfoldable pub insert_if : String → String → List String → List String
insert_if part key set = if is_empty part then set else key ∷ set

-- `!part.isEmpty() && set.count(key) > 0`
unfoldable pub known_if : String → String → List String → Bool
known_if part key set = not (is_empty part) && any (λ k. str_eq k key) set

module _ (text : Text) where
  open text use {normalize_torrent_url, extract_info_hash}

  -- The key of the URL, empty where the code looks for none; so for the magnet link.
  unfoldable pub url_part : RssItem → String
  url_part it = if is_empty it.torrent_url then "" else normalize_torrent_url it.torrent_url

  unfoldable pub hash_part : RssItem → String
  hash_part it = if is_empty it.magnet then "" else extract_info_hash it.magnet

  unfoldable pub record_item : RssItem → RssDedup → RssDedup
  record_item it d = record {
    known_ids = insert_if it.id it.id d.known_ids;
    known_guids = insert_if it.guid (feed_scope_key it.feed_id it.guid) d.known_guids;
    known_links = insert_if it.link (feed_scope_key it.feed_id it.link) d.known_links;
    known_torrent_urls =
        insert_if (url_part it) (feed_scope_key it.feed_id (url_part it)) d.known_torrent_urls;
    known_infohashes =
        insert_if (hash_part it) (feed_scope_key it.feed_id (hash_part it)) d.known_infohashes;
  }

  unfoldable pub is_duplicate : RssItem → RssDedup → Bool
  is_duplicate it d =
      known_if it.id it.id d.known_ids
      || (known_if it.guid (feed_scope_key it.feed_id it.guid) d.known_guids
          || (known_if it.link (feed_scope_key it.feed_id it.link) d.known_links
              || (known_if (url_part it) (feed_scope_key it.feed_id (url_part it))
                    d.known_torrent_urls
                  || known_if (hash_part it) (feed_scope_key it.feed_id (hash_part it))
                      d.known_infohashes)))

  unfoldable pub record_items : List RssItem → RssDedup → RssDedup
  record_items [] d = d
  record_items (it ∷ its) d = record_items its (record_item it d)

  -- buildIndex: the sets are cleared first.
  unfoldable pub build_index : List RssItem → RssDedup
  unfolding empty_dedup record_items
  build_index existing = record_items existing empty_dedup

  -- The loop that filterDuplicates and RssService::dedupIncoming share: the items that are no
  -- duplicates, each recorded as it is kept, and the index after them.
  unfoldable pub keep_unique : List RssItem → RssDedup → List RssItem × RssDedup
  keep_unique [] d = ([], d)
  keep_unique (it ∷ its) d =
      let dropped = keep_unique its d in
      let (kept, d') = keep_unique its (record_item it d) in
      if is_duplicate it d then dropped else (it ∷ kept, d')

  unfoldable pub filter_duplicates : List RssItem → List RssItem → List RssItem
  filter_duplicates existing incoming = (keep_unique incoming (build_index existing)).0

-- `it.published_at.isValid() && it.published_at < cutoff && !it.downloaded`
abbrev pub is_aged : ℤ → RssItem → Bool
is_aged cutoff it = elim it.published_at [
  | none ↦ false
  | some t ↦ ltb_ℤ t cutoff && not it.downloaded
]

-- `QDateTime::operator>` and std::sort, which gets its comparison.
pub record ItemSort : Type 0 where
  pub later : DateTime → DateTime → Bool
  pub sort : (RssItem → RssItem → Bool) → List RssItem → List RssItem

-- The comparison of pruneHistory: downloaded items first, then the newest.
unfoldable pub sorts_before : (DateTime → DateTime → Bool) → RssItem → RssItem → Bool
sorts_before later a b =
    if a.downloaded
    then (if b.downloaded then later a.published_at b.published_at else true)
    else (if b.downloaded then false else later a.published_at b.published_at)

-- The first argument is `now.addDays`, which gives the cutoff.
unfoldable pub prune_history : (ℤ → ℤ) → ItemSort → HistoryPolicy → List RssItem → List RssItem
unfolding sorts_before
prune_history cutoff_days qt policy items =
    let young =
      if ltb_ℤ (pos 0) policy.max_age_days
      then filter (λ it. not (is_aged (cutoff_days policy.max_age_days) it)) items
      else items in
    if ltb_ℤ (pos 0) policy.max_items && ltb_ℤ policy.max_items (pos (length young))
    then take (pos_part policy.max_items) (qt.sort (sorts_before qt.later) young)
    else young
