-- ===== src/Timing.antt =====
-- base/throttle.cc, base/debounce.cc and app/refresh_scheduler.cc: three ways not to do a thing too
-- often. A single-shot QTimer is the flag that says whether it runs; Qt sends `timeout` only while it
-- does, and the timer has stopped by then. A function that is called is recorded in `ran`.
pub mod Bursts
use torrent_link.Prelude.{
  ℕ, zero, suc, ℤ, pos, negsuc, pos_part, neg_part, ltb_ℤ, leb, ◌+◌, Bool, true, false, ◌&&◌, ◌||◌,
  not, Option, none, some, List, [], ◌∷◌, ◌++◌, if◌then◌else◌,
}

-- `n > 0 ? n : 1`
abbrev pub at_least_one : ℤ → ℤ
at_least_one n = if ltb_ℤ (pos 0) n then n else pos 1

pub record Throttler : Type 0 where
  pub interval_ms : ℤ
  pub last_fired_ms : ℤ
  pub has_fired : Bool

unfoldable pub new_throttler : ℤ → Throttler
new_throttler interval = record {
  interval_ms = at_least_one interval;
  last_fired_ms = pos 0;
  has_fired = false;
}

-- `now - last >= interval`
abbrev pub has_passed : ℤ → ℤ → ℤ → Bool
has_passed interval last now =
    leb (pos_part last + neg_part now + pos_part interval)
      (pos_part now + neg_part last + neg_part interval)

unfoldable pub should_fire : ℤ → Throttler → Bool
should_fire now t = not t.has_fired || has_passed t.interval_ms t.last_fired_ms now

unfoldable pub mark_fired : ℤ → Throttler → Throttler
mark_fired now t = record t { last_fired_ms = now; has_fired = true }

unfoldable pub reset : Throttler → Throttler
reset t = record t { last_fired_ms = pos 0; has_fired = false }

pub record Debouncer (A : Type 0) : Type 0 where
  pub delay_ms : ℤ
  pub pending_fn : Option A
  pub timer_active : Bool
  pub ran : List A

-- What can happen to a debouncer; the last is the timer.
pub data Signal (A : Type 0) : Type 0 where
  scheduled : A → Signal A
  cancelled : Signal A
  delay_set : ℤ → Signal A
  timed_out : Signal A

module _ {A : Type 0} where
  unfoldable pub new_debouncer : ℤ → Debouncer A
  new_debouncer delay = record {
    delay_ms = at_least_one delay;
    pending_fn = none;
    timer_active = false;
    ran = [];
  }

  unfoldable pub schedule : A → Debouncer A → Debouncer A
  schedule fn d = record d { pending_fn = some fn; timer_active = true }

  unfoldable pub cancel : Debouncer A → Debouncer A
  cancel d = record d { pending_fn = none; timer_active = false }

  unfoldable pub set_delay : ℤ → Debouncer A → Debouncer A
  set_delay delay d = record d { delay_ms = at_least_one delay }

  unfoldable pub on_timeout : Debouncer A → Debouncer A
  on_timeout d = elim d.pending_fn [
    | none ↦ d
    | some fn ↦ record d { pending_fn = none; ran = d.ran ++ fn ∷ [] }
  ]

  unfoldable pub receive : Signal A → Debouncer A → Debouncer A
  receive (scheduled fn) d = schedule fn d
  receive cancelled d = cancel d
  receive (delay_set delay) d = set_delay delay d
  receive timed_out d = if d.timer_active then on_timeout (record d { timer_active = false }) else d

  unfoldable pub receive_all : List (Signal A) → Debouncer A → Debouncer A
  receive_all [] d = d
  receive_all (s ∷ ss) d = receive_all ss (receive s d)

-- `refreshes` counts the calls of `refreshFn_`, which `has_fn` says is set.
pub record RefreshScheduler : Type 0 where
  pub has_fn : Bool
  pub refresh_pending : Bool
  pub timer_active : Bool
  pub refreshes : ℕ

unfoldable pub new_scheduler : Bool → RefreshScheduler
new_scheduler has_fn = record {
  has_fn = has_fn;
  refresh_pending = false;
  timer_active = false;
  refreshes = 0;
}

unfoldable pub request_refresh : RefreshScheduler → RefreshScheduler
request_refresh s = record s { refresh_pending = true; timer_active = true }

-- The lambda on `timeout`, if the timer runs.
unfoldable pub tick : RefreshScheduler → RefreshScheduler
tick s =
    if s.timer_active
    then if not s.refresh_pending || not s.has_fn
      then record s { timer_active = false }
      else record s { refresh_pending = false; timer_active = false; refreshes = suc s.refreshes }
    else s

-- What can happen to a scheduler.
pub data Beat : Type 0 where
  requested ticked : Beat

unfoldable pub beats : List Beat → RefreshScheduler → RefreshScheduler
unfolding request_refresh tick
beats [] s = s
beats (requested ∷ bs) s = beats bs (request_refresh s)
beats (ticked ∷ bs) s = beats bs (tick s)
