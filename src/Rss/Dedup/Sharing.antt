-- ===== src/Rss/Dedup/Sharing.antt =====
-- The index knows an item exactly if some recorded item shares a key with it.
use torrent_link.Prelude.{
  ◌≡◌, ◌∙◌, ap, Bool, false, ◌||◌, ◌&&◌, not, String, is_empty, str_eq, List, [], ◌∷◌, arith, any,
}
use torrent_link.Rss.Types.{RssItem}
use torrent_link.Rss.Dedup.{
  Text, RssDedup, empty_dedup, feed_scope_key, insert_if, known_if, url_part, hash_part,
  record_item, is_duplicate, record_items, build_index,
}

-- Two parts that are not empty and make the same key.
unfoldable pub same_key : String → String → String → String → Bool
same_key part key part' key' = not (is_empty part) && (not (is_empty part') && str_eq key' key)

module _ (text : Text) where
  -- The items have the same id; or, with their feeds' ids, the same GUID, link, normalised URL or
  -- info-hash. Empty parts are the same as nothing.
  unfoldable pub shares_key : RssItem → RssItem → Bool
  shares_key it x =
      same_key it.id it.id x.id x.id
      || (same_key it.guid (feed_scope_key it.feed_id it.guid) x.guid
            (feed_scope_key x.feed_id x.guid)
          || (same_key it.link (feed_scope_key it.feed_id it.link) x.link
                (feed_scope_key x.feed_id x.link)
              || (same_key (url_part text it) (feed_scope_key it.feed_id (url_part text it))
                    (url_part text x) (feed_scope_key x.feed_id (url_part text x))
                  || same_key (hash_part text it) (feed_scope_key it.feed_id (hash_part text it))
                      (hash_part text x) (feed_scope_key x.feed_id (hash_part text x)))))

  known_if-insert_if :
      (part key part' key' : String) (set : List String)
      → known_if part key (insert_if part' key' set)
        ≡ (known_if part key set || same_key part key part' key')
  unfolding known_if insert_if same_key
  known_if-insert_if part key part' key' set = ground arith

  interchange : (a b c d : Bool) → ((a || b) || (c || d)) ≡ ((a || c) || (b || d))
  interchange a b c d = ground arith

  -- An index that has one more item knows what it knew before and what shares a key with that item.
  pub is_duplicate-record_item :
      (it x : RssItem) (d : RssDedup)
      → is_duplicate text it (record_item text x d) ≡ (is_duplicate text it d || shares_key it x)
  unfolding is_duplicate record_item shares_key
  is_duplicate-record_item it x d = simp known_if-insert_if (simp interchange)

  is_duplicate-record_items :
      (it : RssItem) (xs : List RssItem) (d : RssDedup)
      → is_duplicate text it (record_items text xs d)
        ≡ (is_duplicate text it d || any (shares_key it) xs)
  unfolding record_items
  is_duplicate-record_items it [] d = ground arith
  is_duplicate-record_items it (x ∷ xs) d = ground (
    arith,
    is_duplicate-record_items it xs (record_item text x d),
    is_duplicate-record_item it x d,
  )

  is_duplicate-empty : (it : RssItem) → is_duplicate text it empty_dedup ≡ false
  unfolding is_duplicate empty_dedup known_if
  is_duplicate-empty it = ground arith

  -- The index that is built from a list of items calls an item a duplicate exactly if it shares a
  -- key with some item of the list.
  pub is_duplicate-build_index :
      (it : RssItem) (existing : List RssItem)
      → is_duplicate text it (build_index text existing) ≡ any (shares_key it) existing
  unfolding build_index
  is_duplicate-build_index it existing =
      is_duplicate-record_items it existing empty_dedup
      ∙ ap (λ b. b || any (shares_key it) existing) (is_duplicate-empty it)
