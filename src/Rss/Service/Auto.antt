-- ===== src/Rss/Service/Auto.antt =====
-- core/rss/rss_service.cc: a download on demand, and the diagnosis of an item.
use torrent_link.Prelude.{
  Bool, true, false, ◌&&◌, ◌||◌, not, String, is_empty, str_eq, Option, none, some, List, [], ◌∷◌,
  ◌++◌, map, find?, if◌then◌else◌,
}
use torrent_link.Rss.Types.{RssItem, RssRule, AutoDownloadDecision, AutoDownloadRequest, DateTime}
use torrent_link.Rss.Rules.{Matcher, find_first_enabled_match}
use torrent_link.Rss.Service.{RssService, mark_item_decision, has_feed_id}

abbrev pub has_no_resource : RssItem → Bool
has_no_resource it = is_empty it.magnet && is_empty it.torrent_url

abbrev pub is_blocked : RssItem → Bool
is_blocked it = it.queued || (it.downloaded || it.ignored)

-- isDiagnosticAutoEligible of the item's code
abbrev pub is_eligible : RssItem → Bool
is_eligible it = str_eq it.last_auto_reason_code "diagnostic_rule_eligible"

module _ (m : Matcher) where
  -- The rule of the first enabled match, found again by its id.
  unfoldable pub matched_rule : RssService → RssItem → Option RssRule
  matched_rule s it = elim (find_first_enabled_match m s.rules it) [
    | none ↦ none
    | some match ↦ find? (λ r. str_eq r.id match.rule_id) s.rules
  ]

  unfoldable pub request_of : RssService → RssItem → AutoDownloadRequest
  unfolding matched_rule
  request_of s it =
      let referer : String = elim (find? (has_feed_id it.feed_id) s.feeds) [
        | none ↦ ""
        | some f ↦ f.url
      ] in
      let save_path : String = elim (matched_rule s it) [ none ↦ "" | some r ↦ r.save_path ] in
      let category : String = elim (matched_rule s it) [ none ↦ "" | some r ↦ r.category ] in
      let tags_csv : String = elim (matched_rule s it) [ none ↦ "" | some r ↦ r.tags_csv ] in
      record {
        magnet = it.magnet;
        torrent_url = it.torrent_url;
        save_path = save_path;
        category = category;
        tags_csv = tags_csv;
        rule_id = "";
        item_id = it.id;
        feed_id = it.feed_id;
        item_title = it.title;
        referer_url = referer;
        rss_settlement = record { item_id = it.id; record_save_path = save_path };
        add_without_interactive_confirm = true;
      }

  -- The body of the loop of downloadItem: the item after it, and the request if there is one.
  unfoldable pub attempt : DateTime → RssService → RssItem → RssItem × Option AutoDownloadRequest
  unfolding mark_item_decision request_of
  attempt now s it =
      if has_no_resource it
      then (
        mark_item_decision AutoDownloadDecision.skipped "no_resource" "No magnet or torrent URL."
            it,
        none,
      )
      else if it.queued
      then (
        mark_item_decision AutoDownloadDecision.skipped "already_queued" "Item is already queued."
            it,
        none,
      )
      else if not s.has_callback
      then (
        mark_item_decision AutoDownloadDecision.failed "no_callback" "Download callback is not set."
            it,
        none,
      )
      else (
        mark_item_decision AutoDownloadDecision.queued "manual_queued" "Manual download queued."
            (record it { queued = true; last_attempt_at = now }),
        some (request_of s it),
      )

  -- The loop: the first item with the id.
  unfoldable pub download_in :
      DateTime → RssService → String → List RssItem → List RssItem × Option AutoDownloadRequest
  download_in now s id [] = ([], none)
  download_in now s id (it ∷ its) =
      let (rest, request) = download_in now s id its in
      let (it', request') = attempt now s it in
      if str_eq it.id id then (it' ∷ its, request') else (it ∷ rest, request)

  -- The request goes to the callback, and the result says whether there was one.
  unfoldable pub send : List RssItem × Option AutoDownloadRequest → RssService → RssService × Bool
  send (items, none) s = (record s { items = items }, false)
  send (items, some request) s =
      (record s { items = items; requests = s.requests ++ request ∷ [] }, true)

  unfoldable pub download_item : DateTime → String → RssService → RssService × Bool
  unfolding send
  download_item now id s = send (download_in now s id s.items) s

  unfoldable pub diagnose_rule : RssService → RssItem → RssItem
  unfolding mark_item_decision
  diagnose_rule s it = elim (find? (has_feed_id it.feed_id) s.feeds) [
    | none ↦
        mark_item_decision AutoDownloadDecision.skipped "unknown_feed"
          "条目的 feed_id 与当前订阅列表不一致（可能为历史数据或合并订阅导致）。" it
    | some f ↦
        if not f.auto_download_enabled
        then mark_item_decision AutoDownloadDecision.skipped "feed_auto_off" "该订阅源已关闭「自动下载」。" it
        else (elim (find_first_enabled_match m s.rules it) [
          | none ↦
              mark_item_decision AutoDownloadDecision.skipped "no_rule_match" "No rule matched." it
          | some match ↦ elim (find? (λ r. str_eq r.id match.rule_id) s.rules) [
            | none ↦
                mark_item_decision AutoDownloadDecision.failed "rule_missing"
                  "Matched rule not found." it
            | some r ↦
                if not s.has_callback
                then mark_item_decision AutoDownloadDecision.failed "no_callback"
                    "Download callback is not set." it
                else mark_item_decision AutoDownloadDecision.skipped "diagnostic_rule_eligible"
                    "Rule would auto-download (diagnostic only)." it
          ]
        ])
  ]

  unfoldable pub diagnose_item : RssService → RssItem → RssItem
  unfolding mark_item_decision
  diagnose_item s it =
      if not s.auto_download_enabled
      then mark_item_decision AutoDownloadDecision.skipped "global_disabled"
          "Global auto download is disabled." it
      else if has_no_resource it
      then mark_item_decision AutoDownloadDecision.skipped "no_resource" "No magnet or torrent URL."
          it
      else if it.downloaded || (it.ignored || it.queued)
      then mark_item_decision AutoDownloadDecision.skipped "state_blocked"
          "Item is downloaded/ignored/queued." it
      else diagnose_rule s it

  unfoldable pub diagnose_all : RssService → RssService
  diagnose_all s = record s { items = map (diagnose_item s) s.items }
