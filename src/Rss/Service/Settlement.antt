-- ===== src/Rss/Service/Settlement.antt =====
-- RssService::applyRssDownloadSettlement (core/rss/rss_service.cc).
use torrent_link.Prelude.{
  Bool, true, false, ◌&&◌, not, String, is_empty, str_eq, str_eq_iff, Option, some, none, List, [],
  ◌∷◌, find?, ◌≡◌, refl, arith, sym, subst, ◌||◌, ℤ, pos, negsuc, zero, suc, ◌+ℤ◌, if◌then◌else◌,
}
use torrent_link.Rss.Types.{RssItem, RssDownloadSettlement, AutoDownloadDecision, DateTime}
use torrent_link.Rss.Service.{
  RssService, mark_item_decision, update_first, increment, settle_item,
  apply_rss_download_settlement,
}

pub find_item : String → List RssItem → Option RssItem
find_item id items = find? (λ it. str_eq it.id id) items

-- Option.map, for an item that may be there.
abbrev pub settle_option : (RssItem → RssItem) → Option RssItem → Option RssItem
settle_option f none = none
settle_option f (some it) = some (f it)

id-settle_item :
    (now : DateTime) (success : Bool) (path : String) (it : RssItem)
    → (settle_item now success path it).id ≡ it.id
unfolding settle_item mark_item_decision
id-settle_item now true path it = refl
id-settle_item now false path it = refl

find_item-update_first :
    (k id : String) (f : RssItem → RssItem)
    → ((it : RssItem) → (f it).id ≡ it.id)
    → (items : List RssItem)
    → find_item id (update_first (λ it. str_eq it.id k) f items)
      ≡ (if str_eq k id then settle_option f (find_item id items) else find_item id items)
unfolding find_item update_first
find_item-update_first k id f h [] = ground arith
find_item-update_first k id f h (it ∷ items) = ground (
  arith,
  find_item-update_first k id f h items,
  h it,
  str_eq_iff k id,
  str_eq_iff it.id k,
  str_eq_iff it.id id,
  str_eq_iff (f it).id id,
)

-- An item before and after a settlement, field by field.
pub record IsSettled (now : DateTime) (success : Bool) (path : String) (before after : RssItem)
    : Type 0 where
  pub unqueued : after.queued ≡ false
  pub attempted : after.last_attempt_at ≡ now
  pub downloaded : after.downloaded ≡ (success || before.downloaded)
  pub accepted : after.accepted ≡ (success || before.accepted)
  pub retries : after.retry_count ≡ (if success then pos 0 else before.retry_count +ℤ pos 1)
  pub saved_at : after.download_save_path ≡ (if success then path else before.download_save_path)
  pub succeeded_at : after.last_success_at ≡ (if success then now else before.last_success_at)
  pub decision :
      after.last_auto_decision
      ≡ (if success then AutoDownloadDecision.succeeded else AutoDownloadDecision.failed)
  pub same_id : after.id ≡ before.id
  pub same_feed : after.feed_id ≡ before.feed_id
  pub same_texts :
      (after.title ≡ before.title) × (after.guid ≡ before.guid) × (after.summary ≡ before.summary)
  pub same_links :
      (after.link ≡ before.link)
      × (after.magnet ≡ before.magnet)
      × (after.torrent_url ≡ before.torrent_url)
  pub same_marks : (after.is_read ≡ before.is_read) × (after.ignored ≡ before.ignored)

increment_lem : (n : ℤ) → increment n ≡ n +ℤ pos 1
unfolding increment
increment_lem (pos n) = ground arith
increment_lem (negsuc zero) = ground arith
increment_lem (negsuc (suc m)) = ground arith

settle_item-IsSettled :
    (now : DateTime) (success : Bool) (path : String) (it : RssItem)
    → IsSettled now success path it (settle_item now success path it)
unfolding settle_item mark_item_decision
settle_item-IsSettled now true path it = record {
  unqueued = refl;
  attempted = refl;
  downloaded = refl;
  accepted = refl;
  retries = refl;
  saved_at = refl;
  succeeded_at = refl;
  decision = refl;
  same_id = refl;
  same_feed = refl;
  same_texts = (refl, refl, refl);
  same_links = (refl, refl, refl);
  same_marks = (refl, refl);
}
settle_item-IsSettled now false path it = record {
  unqueued = refl;
  attempted = refl;
  downloaded = refl;
  accepted = refl;
  retries = increment_lem it.retry_count;
  saved_at = refl;
  succeeded_at = refl;
  decision = refl;
  same_id = refl;
  same_feed = refl;
  same_texts = (refl, refl, refl);
  same_links = (refl, refl, refl);
  same_marks = (refl, refl);
}

-- What is found under an id before and after: settled if the id is the one meant, else the same.
abbrev pub Outcome : Bool → (RssItem → RssItem → Type 0) → Option RssItem → Option RssItem → Type 0
Outcome false P before after = after ≡ before
Outcome true P none none = Unit
Outcome true P (some it) (some it') = P it it'
Outcome true P _ _ = ⊥

Outcome-settle :
    (b : Bool) (P : RssItem → RssItem → Type 0) (f : RssItem → RssItem) (o : Option RssItem)
    → ((it : RssItem) → P it (f it))
    → Outcome b P o (if b then settle_option f o else o)
Outcome-settle false P f o h = refl
Outcome-settle true P f none h = tt
Outcome-settle true P f (some it) h = h it

-- Under the settled id, if it is not empty, an item is found exactly if one was, and it is settled: no
-- longer queued, downloaded and accepted on success, where the count of retries starts again and the
-- path is the override or, if that is blank, the recorded one; else one more retry; its identity, links
-- and marks stay. Under every other id the same is found as before.
pub find_item-settlement :
    (trim : String → String) (now : DateTime) (settled : RssDownloadSettlement) (success : Bool)
    (override : String) (s : RssService) (id : String)
    → Outcome
        (not (is_empty settled.item_id) && str_eq settled.item_id id)
        (IsSettled now success
          (if is_empty (trim override) then settled.record_save_path else override))
        (find_item id s.items)
        (find_item id (apply_rss_download_settlement trim now settled success override s).items)
unfolding apply_rss_download_settlement
find_item-settlement trim now settled success override s id =
    let path : String = if is_empty (trim override) then settled.record_save_path else override in
    let meant : Bool = not (is_empty settled.item_id) && str_eq settled.item_id id in
    subst (Outcome meant (IsSettled now success path) (find_item id s.items))
      (sym (
        ground (
          arith,
          find_item-update_first settled.item_id id (settle_item now success path)
              (id-settle_item now success path) s.items,
        )))
      (Outcome-settle meant (IsSettled now success path) (settle_item now success path)
        (find_item id s.items) (settle_item-IsSettled now success path))
