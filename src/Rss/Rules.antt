-- ===== src/Rss/Rules.antt =====
-- core/rss/rss_rule_engine.cc. Matching a keyword is Qt's: a case-insensitive regular expression,
-- which matches nothing if it is invalid, or a case-insensitive search.
pub mod Match
use torrent_link.Prelude.{
  Bool, true, false, ◌||◌, ◌&&◌, not, String, is_empty, str_eq, Option, none, some, List, [], ◌∷◌,
  map, any, find?, if◌then◌else◌,
}
use torrent_link.Rss.Types.{
  RssItem, RssRule, RuleMatchResult, Reason, feed_out_of_scope, no_include_keyword, excluded_by,
  unlimited, included_by,
}

pub record Matcher : Type 0 where
  pub regex_has_match : String → String → Bool
  pub contains_ci : String → String → Bool

-- `isEmpty` and `contains` of a list of texts
abbrev pub is_nil {ℓ} : {A : Type ℓ} → List A → Bool
is_nil [] = true
is_nil (x ∷ xs) = false

abbrev pub contains : List String → String → Bool
contains xs s = any (λ x. str_eq x s) xs

module _ (m : Matcher) where
  unfoldable pub keyword_match : String → String → Bool → Bool
  keyword_match text keyword use_regex =
      if use_regex then m.regex_has_match keyword text else m.contains_ci text keyword

  -- The loops over the keywords: the first that matches.
  unfoldable pub first_match : RssRule → RssItem → List String → Option String
  first_match rule item keywords = find? (λ kw. keyword_match item.title kw rule.use_regex) keywords

  -- The part from the exclude keywords on, with the include keyword that matched or an empty text.
  unfoldable pub conclude : RssRule → RssItem → String → Bool × Reason
  conclude rule item included = elim (first_match rule item rule.exclude_keywords) [
    | some kw ↦ (false, excluded_by kw)
    | none ↦
        (true, if is_empty included then unlimited rule.name else included_by rule.name included)
  ]

  unfoldable pub verdict : RssRule → RssItem → Bool × Reason
  verdict rule item =
      if not (is_nil rule.feed_ids) && not (contains rule.feed_ids item.feed_id)
      then (false, feed_out_of_scope)
      else (elim (first_match rule item rule.include_keywords) [
        | some kw ↦ conclude rule item kw
        | none ↦
            if is_nil rule.include_keywords
            then conclude rule item ""
            else (false, no_include_keyword)
      ])

  unfoldable pub evaluate : RssRule → RssItem → RuleMatchResult
  evaluate rule item =
      let (matched, reason) = verdict rule item in
      record { rule_id = rule.id; rule_name = rule.name; matched = matched; reason = reason }

  unfoldable pub evaluate_all : List RssRule → RssItem → List RuleMatchResult
  evaluate_all rules item = map (λ rule. evaluate rule item) rules

  unfoldable pub find_first_enabled_match : List RssRule → RssItem → Option RuleMatchResult
  find_first_enabled_match [] item = none
  find_first_enabled_match (rule ∷ rules) item =
      let rest = find_first_enabled_match rules item in
      let result = evaluate rule item in
      if not rule.enabled then rest else if result.matched then some result else rest
