-- ===== src/Rss/Service/Dispatch.antt =====
-- core/rss/rss_service.cc: which items wait for an automatic download, and the dispatch of some of
-- them. `auto_backlog_scratch_` is rebuilt wherever it is read, so it is a result here and no part of
-- the state.
pub mod Caps
use torrent_link.Prelude.{
  ℕ, zero, suc, ℤ, pos, pos_part, clamp_ℤ, ltb_ℤ, ltb, leb, ◌+◌, ◌-◌, Bool, true, false, ◌&&◌, ◌||◌,
  not, String, Option, none, some, List, [], ◌∷◌, map, count, drop, take, length, get_elem?,
  if◌then◌else◌,
}
use torrent_link.Rss.Types.{
  RssItem, AutoDownloadDecision, DateTime, RssAutoDownloadScope, all_eligible, new_items_only,
}
use torrent_link.Rss.Rules.{Matcher, contains}
use torrent_link.Rss.Service.{RssService, mark_item_decision}
use torrent_link.Rss.Service.Auto.{
  has_no_resource, is_blocked, is_eligible, download_item, diagnose_item, diagnose_all,
}

-- A candidate is an index with the time of its item.
abbrev pub Candidate : Type 0
Candidate = ℕ × ℤ

-- std::sort and std::partial_sort, which get a comparison; the number is that of the elements that
-- partial_sort is asked for.
pub record Sorting : Type 0 where
  pub sort : (Candidate → Candidate → Bool) → List Candidate → List Candidate
  pub partial_sort : (Candidate → Candidate → Bool) → ℕ → List Candidate → List Candidate

-- `ta > tb`
abbrev pub published_desc : Candidate → Candidate → Bool
published_desc a b = ltb_ℤ (b.1) (a.1)

unfoldable pub matches_scope : RssService → RssAutoDownloadScope → RssItem → Bool
matches_scope s new_items_only it = contains s.last_refresh_new_item_ids it.id
matches_scope s all_eligible it = true

-- An invalid date counts as the epoch.
abbrev pub sort_time : RssItem → ℤ
sort_time it = elim it.published_at [ none ↦ pos 0 | some t ↦ t ]

abbrev pub is_candidate : RssService → RssAutoDownloadScope → RssItem → Bool
is_candidate s scope it =
    matches_scope s scope it
    && (not (is_blocked it) && (not (has_no_resource it) && is_eligible it))

-- The loop over the items, from an index on.
unfoldable pub candidates_from : RssService → RssAutoDownloadScope → ℕ → List RssItem → List (ℕ × ℤ)
candidates_from s scope i [] = []
candidates_from s scope i (it ∷ its) =
    let rest = candidates_from s scope (suc i) its in
    if is_candidate s scope it then (i, sort_time it) ∷ rest else rest

unfoldable pub effective_backlog_cap : RssService → ℕ
effective_backlog_cap s = pos_part (clamp_ℤ s.settings.max_auto_download_backlog (pos 1) (pos 500))

abbrev pub max_concurrent : RssService → ℕ
max_concurrent s = pos_part (clamp_ℤ s.settings.max_concurrent_auto_downloads (pos 1) (pos 50))

abbrev pub queued_in : List RssItem → ℕ
queued_in items = count (λ it. it.queued) items

-- The update of the item at an index.
unfoldable pub update_at {ℓ} : {A : Type ℓ} → ℕ → (A → A) → List A → List A
update_at n f [] = []
update_at zero f (x ∷ xs) = f x ∷ xs
update_at (suc n) f (x ∷ xs) = x ∷ update_at n f xs

unfoldable pub waitlist : List ℕ → List RssItem → List RssItem
waitlist [] items = items
waitlist (i ∷ is) items =
    waitlist is (update_at i (λ it. record it { rss_auto_waitlisted = true }) items)

module _ (sorting : Sorting) where
  -- rebuildAutoBacklogScratch
  unfoldable pub backlog : RssAutoDownloadScope → RssService → List ℕ
  backlog scope s =
      let all = candidates_from s scope 0 s.items in
      let cap = effective_backlog_cap s in
      map {A = ℕ × ℤ} (λ c. c.0)
        (if leb (length all) cap
          then sorting.sort published_desc all
          else take cap (sorting.partial_sort published_desc cap all))

  abbrev pub ids_at : RssService → List ℕ → List String
  ids_at s [] = []
  ids_at s (i ∷ is) = elim (get_elem? s.items i) [
    | none ↦ ids_at s is
    | some it ↦ it.id ∷ ids_at s is
  ]

  unfoldable pub mark_overflow : List String → RssItem → RssItem
  unfolding mark_item_decision
  mark_overflow tracked it =
      if is_blocked it || (not (is_eligible it) || contains tracked it.id)
      then it
      else mark_item_decision AutoDownloadDecision.skipped "auto_backlog_overflow"
          "符合条件但超出自动下载排队上限，将随进度陆续入队。" it

  unfoldable pub apply_overflow_markers : RssService → RssService
  unfolding mark_overflow
  apply_overflow_markers s =
      let tracked = ids_at s (backlog all_eligible s) in
      if s.auto_download_enabled
      then record s { items = map (mark_overflow tracked) s.items }
      else s

  -- The first loop clears the marks; the items from the free slots on get them.
  unfoldable pub clear_marks : RssAutoDownloadScope → RssService → RssService
  clear_marks scope s = record s {
    items =
        map
          (λ it. if matches_scope s scope it then record it { rss_auto_waitlisted = false } else it)
          s.items;
  }

  unfoldable pub sync_waitlist_markers : RssAutoDownloadScope → RssService → RssService
  unfolding clear_marks
  sync_waitlist_markers scope s =
      let cleared = clear_marks scope s in
      let free_slots = max_concurrent s - queued_in s.items in
      if s.auto_download_enabled
      then record cleared {
        items = waitlist (drop free_slots (backlog scope cleared)) cleared.items;
      }
      else cleared

  module _ (m : Matcher) (now : DateTime) where
    -- One candidate; the flag says whether it was started.
    unfoldable pub try_dispatch : ℕ → RssService → RssService × Bool
    try_dispatch i s = elim (get_elem? s.items i) [
      | none ↦ (s, false)
      | some it ↦
          if is_blocked it || not (is_eligible it) then (s, false) else download_item m now it.id s
    ]

    unfoldable pub count_start : ℕ → Bool → ℕ
    count_start n started = if started then suc n else n

    -- The while loop, over what is left of the backlog; the result has the value of `started`.
    unfoldable pub dispatch_loop : ℕ → ℕ → ℕ → ℕ → List ℕ → RssService → RssService × ℕ
    unfolding count_start
    dispatch_loop cap max_conc started inflight [] s = (s, started)
    dispatch_loop cap max_conc started inflight (i ∷ is) s =
        let (s', ok) = try_dispatch i s in
        let rest =
          dispatch_loop cap max_conc (count_start started ok) (count_start inflight ok) is s' in
        if ltb started cap && ltb inflight max_conc then rest else (s, started)

    unfoldable pub dispatch_deferred : ℤ → Bool → RssAutoDownloadScope → RssService → RssService × ℕ
    dispatch_deferred max_batch refresh scope s =
        let cap = pos_part (clamp_ℤ max_batch (pos 1) (pos 100)) in
        let ready = if refresh then diagnose_all m s else s in
        let (s', started) =
          dispatch_loop cap (max_concurrent s) 0 (queued_in ready.items) (backlog scope ready)
            ready in
        if s.auto_download_enabled
        then (sync_waitlist_markers scope (apply_overflow_markers s'), started)
        else (s, 0)

    unfoldable pub refresh_diagnostics : RssService → RssService
    refresh_diagnostics s =
        sync_waitlist_markers all_eligible (apply_overflow_markers (diagnose_all m s))
