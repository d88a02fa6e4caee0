-- ===== src/Rss/Service/Dispatch/Caps.antt =====
-- The caps of RssService::dispatchDeferredAutoDownloads.
use torrent_link.Prelude.{
  ℕ, zero, suc, ℤ, pos, pos_part, clamp_ℤ, ◌+◌, ◌≤◌, ◌≡◌, ◌⊎◌, refl, ◌∙◌, ap, Bool, true, false,
  ◌||◌, not, String, Option, none, some, List, [], ◌∷◌, map, length, length-append, get_elem?,
  if◌then◌else◌, arith, Bool-cases, Option-cases, inl, inr,
}
use torrent_link.Rss.Types.{RssItem, DateTime, RssAutoDownloadScope, AutoDownloadRequest}
use torrent_link.Rss.Rules.{Matcher}
use torrent_link.Rss.Service.{RssService, mark_item_decision}
use torrent_link.Rss.Service.Auto.{
  is_blocked, is_eligible, attempt, download_in, send, download_item, diagnose_item, diagnose_rule,
  diagnose_all,
}
use torrent_link.Rss.Service.Dispatch.{
  Sorting, queued_in, max_concurrent, update_at, waitlist, backlog, mark_overflow,
  apply_overflow_markers, clear_marks, sync_waitlist_markers, try_dispatch, count_start,
  dispatch_loop, dispatch_deferred,
}

abbrev bit : Bool → ℕ
bit b = if b then 1 else 0

abbrev is_some : {A : Type 0} → Option A → Bool
is_some none = false
is_some (some a) = true

-- The same number of items is queued, and the same requests were sent.
abbrev KeepsQueue : RssService → RssService → Type 0
KeepsQueue s t = (queued_in t.items ≡ queued_in s.items) × (t.requests ≡ s.requests)

KeepsQueue-if :
    (b : Bool) (s t u : RssService)
    → KeepsQueue s t
    → KeepsQueue s u
    → KeepsQueue s (if b then t else u)
KeepsQueue-if true s t u h k = h
KeepsQueue-if false s t u h k = k

-- A map that leaves `queued` alone.
queued-map :
    (f : RssItem → RssItem)
    → ((it : RssItem) → (f it).queued ≡ it.queued)
    → (items : List RssItem) → queued_in (map f items) ≡ queued_in items
queued-map f h [] = refl
queued-map f h (it ∷ items) = ground (arith, h it, queued-map f h items)

queued-update_at :
    (i : ℕ) (f : RssItem → RssItem)
    → ((it : RssItem) → (f it).queued ≡ it.queued)
    → (items : List RssItem) → queued_in (update_at i f items) ≡ queued_in items
unfolding update_at
queued-update_at i f h [] = refl
queued-update_at zero f h (it ∷ items) = ground (arith, h it)
queued-update_at (suc i) f h (it ∷ items) = ground (arith, queued-update_at i f h items)

queued-waitlist :
    (is : List ℕ) (items : List RssItem) → queued_in (waitlist is items) ≡ queued_in items
unfolding waitlist
queued-waitlist [] items = refl
queued-waitlist (i ∷ is) items =
    queued-waitlist is (update_at i (λ it. record it { rss_auto_waitlisted = true }) items)
    ∙ queued-update_at i (λ it. record it { rss_auto_waitlisted = true }) (λ it. refl) items

module _ (m : Matcher) (now : DateTime) where
  -- A request is made for an item that was not queued, and it is queued then.
  queued-attempt :
      (s : RssService) (it : RssItem)
      → bit (attempt m now s it).0.queued ≡ bit it.queued + bit (is_some (attempt m now s it).1)
  unfolding attempt mark_item_decision
  queued-attempt s it = ground arith

  queued-download_in :
      (s : RssService) (id : String) (items : List RssItem)
      → queued_in (download_in m now s id items).0
        ≡ queued_in items + bit (is_some (download_in m now s id items).1)
  unfolding download_in
  queued-download_in s id [] = refl
  queued-download_in s id (it ∷ its) =
      ground (arith, queued-attempt s it, queued-download_in s id its)

  -- What a step of the loop adds to the queued items and to the requests.
  pub record IsCounted (s : RssService) (r : RssService × Bool) : Type 0 where
    pub queued : queued_in r.0.items ≡ queued_in s.items + bit r.1
    pub sent : length r.0.requests ≡ length s.requests + bit r.1

  send-IsCounted :
      (s : RssService) (items : List RssItem) (o : Option AutoDownloadRequest)
      → queued_in items ≡ queued_in s.items + bit (is_some o)
      → IsCounted s (send m (items, o) s)
  unfolding send
  send-IsCounted s items none h = record { queued = h; sent = omega arith }
  send-IsCounted s items (some r) h = record {
    queued = h;
    sent = length-append s.requests (r ∷ []);
  }

  try_dispatch-IsCounted :
      (sorting : Sorting) (i : ℕ) (s : RssService) → IsCounted s (try_dispatch sorting m now i s)
  unfolding try_dispatch download_item
  try_dispatch-IsCounted sorting i s = elim (Option-cases (get_elem? s.items i)) [
    | inl e ↦ rw (e, try_dispatch) (record { queued = omega arith; sent = omega arith })
    | inr (it, e) ↦ elim (Bool-cases (is_blocked it || not (is_eligible it))) [
      | inl out ↦ rw (e, out, try_dispatch) (record { queued = omega arith; sent = omega arith })
      | inr in_ ↦
          rw (e, in_, try_dispatch)
            (send-IsCounted s _ (download_in m now s it.id s.items).1
              (queued-download_in s it.id s.items))
    ]
  ]

  -- The loop as a whole: what it starts from, and what it comes to.
  pub record IsLooped (cap max_conc started inflight : ℕ) (s : RssService) (r : RssService × ℕ)
      : Type 0 where
    pub queued : queued_in r.0.items + started ≡ queued_in s.items + r.1
    pub sent : length r.0.requests + started ≡ length s.requests + r.1
    pub forward : started ≤ r.1
    pub batch : (r.1 ≤ cap) ⊎ (r.1 ≡ started)
    pub slots : (inflight + r.1 ≤ max_conc + started) ⊎ (r.1 ≡ started)

  dispatch_loop-IsLooped :
      (sorting : Sorting) (cap max_conc started inflight : ℕ) (is : List ℕ) (s : RssService)
      → IsLooped cap max_conc started inflight s
          (dispatch_loop sorting m now cap max_conc started inflight is s)
  unfolding dispatch_loop count_start
  dispatch_loop-IsLooped sorting cap max_conc started inflight [] s = record {
    queued = refl;
    sent = refl;
    forward = omega arith;
    batch = inr refl;
    slots = inr refl;
  }
  dispatch_loop-IsLooped sorting cap max_conc started inflight (i ∷ is) s =
      let r = try_dispatch sorting m now i s in
      let one = try_dispatch-IsCounted sorting i s in
      let rest =
        dispatch_loop-IsLooped sorting cap max_conc (count_start sorting m now started r.1)
          (count_start sorting m now inflight r.1) is r.0 in
      record {
        queued = ground (arith, one.queued, rest.queued);
        sent = ground (arith, one.sent, rest.sent);
        forward = ground (arith, rest.forward);
        batch = ground (arith, rest.batch, rest.forward);
        slots = ground (arith, rest.slots, rest.forward);
      }

  queued-diagnose_item : (s : RssService) (it : RssItem) → (diagnose_item m s it).queued ≡ it.queued
  unfolding diagnose_item diagnose_rule mark_item_decision
  queued-diagnose_item s it = ground arith

  queued-refreshed :
      (refresh : Bool) (s : RssService) → KeepsQueue s (if refresh then diagnose_all m s else s)
  unfolding diagnose_all
  queued-refreshed refresh s =
      KeepsQueue-if refresh s (diagnose_all m s) s
        (queued-map (diagnose_item m s) (queued-diagnose_item s) s.items, refl) (refl, refl)

queued-mark_overflow :
    (sorting : Sorting) (tracked : List String) (it : RssItem)
    → (mark_overflow sorting tracked it).queued ≡ it.queued
unfolding mark_overflow mark_item_decision
queued-mark_overflow sorting tracked it = ground arith

apply_overflow_markers-KeepsQueue :
    (sorting : Sorting) (s : RssService) → KeepsQueue s (apply_overflow_markers sorting s)
unfolding apply_overflow_markers
apply_overflow_markers-KeepsQueue sorting s =
    KeepsQueue-if s.auto_download_enabled s _ s
      (queued-map (mark_overflow sorting _) (queued-mark_overflow sorting _) s.items, refl)
      (refl, refl)

sync_waitlist_markers-KeepsQueue :
    (sorting : Sorting) (scope : RssAutoDownloadScope) (s : RssService)
    → KeepsQueue s (sync_waitlist_markers sorting scope s)
unfolding sync_waitlist_markers clear_marks
sync_waitlist_markers-KeepsQueue sorting scope s =
    let cleared : queued_in (clear_marks sorting scope s).items ≡ queued_in s.items =
      queued-map _ (λ it. ground arith) s.items in
    KeepsQueue-if s.auto_download_enabled s _ (clear_marks sorting scope s)
      (queued-waitlist _ (clear_marks sorting scope s).items ∙ cleared, refl) (cleared, refl)

module _ (sorting : Sorting) (m : Matcher) (now : DateTime) where
  -- What a dispatch promises.
  pub record IsCapped (max_batch : ℤ) (s : RssService) (r : RssService × ℕ) : Type 0 where
    -- As many requests went to the callback as were counted, and each has queued one more item.
    pub queued : queued_in r.0.items ≡ queued_in s.items + r.1
    pub sent : length r.0.requests ≡ length s.requests + r.1
    -- The batch is at most the argument, taken into the range from 1 to 100.
    pub batch : r.1 ≤ pos_part (clamp_ℤ max_batch (pos 1) (pos 100))
    -- If a download was started, no more items are queued than may be at once.
    pub slots : (queued_in r.0.items ≤ max_concurrent s) ⊎ (r.1 ≡ 0)
    pub off : (s.auto_download_enabled ≡ true) ⊎ (r.0 ≡ s)

  -- A dispatch keeps to its caps: the number it returns is that of the requests it sent and of the
  -- items that are newly queued; it is at most the batch, and if it is not zero, at most as many items
  -- are queued afterwards as the setting for concurrent downloads allows. If automatic downloads are
  -- off, nothing changes. This holds whether or not the items are diagnosed first, in either scope,
  -- and however the candidates are sorted.
  pub dispatch_deferred-IsCapped :
      (max_batch : ℤ) (refresh : Bool) (scope : RssAutoDownloadScope) (s : RssService)
      → IsCapped max_batch s (dispatch_deferred sorting m now max_batch refresh scope s)
  unfolding dispatch_deferred
  dispatch_deferred-IsCapped max_batch refresh scope s = by_switch s.auto_download_enabled refl
    where
      ready : RssService
      ready = if refresh then diagnose_all m s else s

      looped : RssService × ℕ
      looped =
          dispatch_loop sorting m now (pos_part (clamp_ℤ max_batch (pos 1) (pos 100)))
            (max_concurrent s) 0 (queued_in ready.items) (backlog sorting scope ready) ready

      marked : RssService
      marked = apply_overflow_markers sorting looped.0

      l :
          IsLooped m now
            (pos_part (clamp_ℤ max_batch (pos 1) (pos 100)))
            (max_concurrent s)
            0
            (queued_in ready.items)
            ready
            looped
      l =
          dispatch_loop-IsLooped m now sorting (pos_part (clamp_ℤ max_batch (pos 1) (pos 100)))
            (max_concurrent s) 0 (queued_in ready.items) (backlog sorting scope ready) ready

      kept : KeepsQueue s ready
      kept = queued-refreshed m now refresh s

      over : KeepsQueue looped.0 marked
      over = apply_overflow_markers-KeepsQueue sorting looped.0

      wait : KeepsQueue marked (sync_waitlist_markers sorting scope marked)
      wait = sync_waitlist_markers-KeepsQueue sorting scope marked

      by_switch :
          (b : Bool)
          → s.auto_download_enabled ≡ b
          → IsCapped max_batch s
              (if b then (sync_waitlist_markers sorting scope marked, looped.1) else (s, 0))
      by_switch true e = record {
        queued = omega (arith, wait.0, over.0, l.queued, kept.0);
        sent = omega (arith, ap length wait.1, ap length over.1, l.sent, ap length kept.1);
        batch = omega (arith, l.batch);
        slots = omega (arith, wait.0, over.0, l.queued, l.slots);
        off = inl e;
      }
      by_switch false e = record {
        queued = omega arith;
        sent = omega arith;
        batch = omega arith;
        slots = inr refl;
        off = inr refl;
      }
