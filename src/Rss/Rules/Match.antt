-- ===== src/Rss/Rules/Match.antt =====
-- When a rule matches an item, and which rule is taken.
use torrent_link.Prelude.{
  ◌≡◌, refl, Bool, true, false, ◌||◌, ◌&&◌, not, String, none, some, List, [], ◌∷◌, arith, any,
  find?,
}
use torrent_link.Rss.Types.{RssItem, RssRule}
use torrent_link.Rss.Rules.{
  Matcher, is_nil, contains, keyword_match, first_match, conclude, verdict, evaluate,
  find_first_enabled_match,
}

module _ (m : Matcher) where
  -- Some keyword of the list matches the title.
  abbrev pub hits : RssRule → RssItem → List String → Bool
  hits rule item = any (λ kw. keyword_match m item.title kw rule.use_regex)

  -- What a rule is meant to select.
  abbrev pub selects : RssRule → RssItem → Bool
  selects rule item =
      (is_nil rule.feed_ids || contains rule.feed_ids item.feed_id)
      && ((is_nil rule.include_keywords || hits rule item rule.include_keywords)
          && not (hits rule item rule.exclude_keywords))

  first_match-hits :
      (rule : RssRule) (item : RssItem) (kws : List String)
      → hits rule item kws ≡ (elim (first_match m rule item kws) [ none ↦ false | some kw ↦ true ])
  unfolding first_match
  first_match-hits rule item [] = refl
  first_match-hits rule item (kw ∷ kws) = ground (arith, first_match-hits rule item kws)

  first_match-nil : (rule : RssRule) (item : RssItem) → first_match m rule item [] ≡ none
  unfolding first_match
  first_match-nil rule item = refl

  -- A rule matches an item exactly if the item's feed is in its scope or it has none, the title hits
  -- an include keyword or there are none, and the title hits no exclude keyword.
  pub evaluate-selects :
      (rule : RssRule) (item : RssItem) → (evaluate m rule item).matched ≡ selects rule item
  unfolding evaluate verdict conclude
  evaluate-selects rule item = ground (
    arith,
    first_match-hits rule item rule.include_keywords,
    first_match-hits rule item rule.exclude_keywords,
    first_match-nil rule item,
  )

  abbrev pub applies : RssItem → RssRule → Bool
  applies item rule = rule.enabled && selects rule item

  -- The rule that is taken is the first enabled one that selects the item; none is taken exactly if
  -- there is no such rule.
  pub find_first_enabled_match_lem :
      (rules : List RssRule) (item : RssItem)
      → find_first_enabled_match m rules item ≡ (elim (find? (applies item) rules) [
        | none ↦ none
        | some rule ↦ some (evaluate m rule item)
      ])
  unfolding find_first_enabled_match
  find_first_enabled_match_lem [] item = refl
  find_first_enabled_match_lem (rule ∷ rules) item =
      ground (arith, evaluate-selects rule item, find_first_enabled_match_lem rules item)
