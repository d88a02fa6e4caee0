-- ===== src/Timing/Bursts.antt =====
-- What comes of a burst of calls.
use torrent_link.Prelude.{
  ℕ, zero, suc, ℤ, pos, negsuc, pos_part, neg_part, leb, not, ◌||◌, ap₂, ◌∙◌, ◌+◌, ◌≤◌, ◌≡◌, refl,
  true, false, none, some, List, [], ◌∷◌, ◌++◌, map, arith, if◌then◌else◌, Bool-cases, inl, inr,
}
use torrent_link.Timing.{
  Throttler, new_throttler, should_fire, mark_fired, has_passed, at_least_one, Debouncer,
  new_debouncer, schedule, cancel, set_delay, on_timeout, Signal, scheduled, cancelled, delay_set,
  timed_out, receive, receive_all, RefreshScheduler, new_scheduler, request_refresh, tick, Beat,
  requested, ticked, beats,
}

-- The times at which a throttled action is done, of those at which it is wanted.
pub firings : Throttler → List ℤ → List ℤ
firings t [] = []
firings t (now ∷ ns) =
    let done = now ∷ firings (mark_fired now t) ns in
    let skipped = firings t ns in if should_fire now t then done else skipped

-- `last + interval` is at most `now`, with the negative parts on the other side.
abbrev pub IsDue : ℕ → ℤ → ℤ → Type 0
IsDue interval last now = pos_part last + neg_part now + interval ≤ pos_part now + neg_part last

-- The interval that is asked for, or one if that is not positive.
abbrev pub asked_interval : ℤ → ℕ
asked_interval (pos (suc n)) = suc n
asked_interval (pos zero) = 1
asked_interval (negsuc n) = 1

-- Of the wanted times after the firing at `last`, these are the ones that fire: a time fires if the
-- interval has passed since the firing before it, and does not if it has not.
pub data Throttled (interval : ℕ) : ℤ → List ℤ → List ℤ → Type 0 where
  none_left : {last : ℤ} → Throttled interval last [] []
  fires :
      {last now : ℤ} {wanted fired : List ℤ}
      → IsDue interval last now
      → Throttled interval now wanted fired
      → Throttled interval last (now ∷ wanted) (now ∷ fired)
  waits :
      {last now : ℤ} {wanted fired : List ℤ}
      → ¬ IsDue interval last now
      → Throttled interval last wanted fired
      → Throttled interval last (now ∷ wanted) fired

at_least_one-asked_interval : (n : ℤ) → at_least_one n ≡ pos (asked_interval n)
at_least_one-asked_interval (pos (suc n)) = ground arith
at_least_one-asked_interval (pos zero) = refl
at_least_one-asked_interval (negsuc n) = ground arith

-- A throttler that has fired, and whose interval is `k`.
abbrev HasFired : ℕ → Throttler → Type 0
HasFired k t = (t.has_fired ≡ true) × (t.interval_ms ≡ pos k)

should_fire-leb :
    (k : ℕ) (now : ℤ) (t : Throttler)
    → HasFired k t
    → should_fire now t
      ≡ leb (pos_part t.last_fired_ms + neg_part now + k) (pos_part now + neg_part t.last_fired_ms)
unfolding should_fire
should_fire-leb k now t h =
    ap₂ (λ b i. not b || has_passed i t.last_fired_ms now) h.0 h.1 ∙ ground arith

firings-Throttled :
    (k : ℕ) (t : Throttler) (ns : List ℤ)
    → HasFired k t
    → Throttled k t.last_fired_ms ns (firings t ns)
unfolding firings mark_fired
firings-Throttled k t [] h = none_left
firings-Throttled k t (now ∷ ns) h = elim (Bool-cases (should_fire now t)) [
  | inl on ↦
      rw (on, firings)
        (fires (ground (arith, on, should_fire-leb k now t h))
          (firings-Throttled k (mark_fired now t) ns (refl, h.1)))
  | inr off ↦
      rw (off, firings)
        (waits (ground (arith, off, should_fire-leb k now t h)) (firings-Throttled k t ns h))
]

-- A new throttler fires at the first time at which the action is wanted, and after that at exactly
-- those wanted times at which, since the firing before, the interval asked for has passed, or one if
-- that interval is not positive, even if the clock goes back.
pub new_throttler-Throttled :
    (interval now : ℤ) (ns : List ℤ)
    → (fired : List ℤ) × (firings (new_throttler interval) (now ∷ ns) ≡ now ∷ fired)
      × Throttled (asked_interval interval) now ns fired
unfolding firings new_throttler should_fire mark_fired
new_throttler-Throttled interval now ns = (
  firings (mark_fired now (new_throttler interval)) ns,
  refl,
  firings-Throttled (asked_interval interval) (mark_fired now (new_throttler interval)) ns
      (refl, at_least_one-asked_interval interval),
)

module _ {A : Type 0} where
  -- The timer runs exactly while a call is pending.
  abbrev pub IsArmed : Debouncer A → Type 0
  IsArmed d = d.timer_active ≡ (elim d.pending_fn [ none ↦ false | some fn ↦ true ])

  receive-IsArmed : (s : Signal A) (d : Debouncer A) → IsArmed d → IsArmed (receive s d)
  unfolding receive schedule cancel set_delay on_timeout
  receive-IsArmed (scheduled fn) d h = refl
  receive-IsArmed cancelled d h = refl
  receive-IsArmed (delay_set delay) d h = h
  receive-IsArmed timed_out d h = ground arith

  receive_all-IsArmed :
      (ss : List (Signal A)) (d : Debouncer A) → IsArmed d → IsArmed (receive_all ss d)
  unfolding receive_all
  receive_all-IsArmed [] d h = h
  receive_all-IsArmed (s ∷ ss) d h = receive_all-IsArmed ss (receive s d) (receive-IsArmed s d h)

  receive_all_burst :
      (burst : List A) (fn : A) (d : Debouncer A)
      → (receive_all (map scheduled burst ++ scheduled fn ∷ timed_out ∷ timed_out ∷ []) d).ran
        ≡ d.ran ++ fn ∷ []
  unfolding receive_all receive schedule on_timeout
  receive_all_burst [] fn d = refl
  receive_all_burst (b ∷ burst) fn d = receive_all_burst burst fn (schedule b d)

  -- After any history of a new debouncer the timer runs exactly while a call is pending; and of a
  -- burst of calls the last alone is made, once, though the timer fires twice.
  pub debounce_burst :
      (delay : ℤ) (history : List (Signal A)) (burst : List A) (fn : A)
      → let d = receive_all history (new_debouncer delay) in
        IsArmed d
        × ((receive_all (map scheduled burst ++ scheduled fn ∷ timed_out ∷ timed_out ∷ []) d).ran
            ≡ d.ran ++ fn ∷ [])
  unfolding new_debouncer
  debounce_burst delay history burst fn = (
    receive_all-IsArmed history (new_debouncer delay) refl,
    receive_all_burst burst fn (receive_all history (new_debouncer delay)),
  )

abbrev pub requests_of : List Beat → ℕ
requests_of [] = 0
requests_of (requested ∷ bs) = suc (requests_of bs)
requests_of (ticked ∷ bs) = requests_of bs

-- A request is pending exactly while the timer runs, and with a function to call.
abbrev IsSteady : RefreshScheduler → Type 0
IsSteady s = (s.has_fn ≡ true) × (s.refresh_pending ≡ s.timer_active)

-- `n` requests and a tick.
abbrev pub flurry : ℕ → List Beat
flurry zero = ticked ∷ []
flurry (suc n) = requested ∷ flurry n

beats-IsSteady : (bs : List Beat) (s : RefreshScheduler) → IsSteady s → IsSteady (beats bs s)
unfolding beats request_refresh tick
beats-IsSteady [] s h = h
beats-IsSteady (requested ∷ bs) s h = beats-IsSteady bs (request_refresh s) (h.0, refl)
beats-IsSteady (ticked ∷ bs) s h =
    beats-IsSteady bs (tick s) (ground (arith, h.0), ground (arith, h.0, h.1))

-- Refreshes that were made, and one that is due.
abbrev due : RefreshScheduler → ℕ
due s = if s.refresh_pending then suc s.refreshes else s.refreshes

due-beats_le : (bs : List Beat) (s : RefreshScheduler) → due (beats bs s) ≤ due s + requests_of bs
unfolding beats request_refresh tick
due-beats_le [] s = omega arith
due-beats_le (requested ∷ bs) s = ground (arith, due-beats_le bs (request_refresh s))
due-beats_le (ticked ∷ bs) s = ground (arith, due-beats_le bs (tick s))

beats-flurry :
    (n : ℕ) (s : RefreshScheduler)
    → s.has_fn ≡ true
    → (beats (flurry (suc n)) s).refreshes ≡ suc s.refreshes
unfolding beats request_refresh tick
beats-flurry zero s h = ground (arith, h)
beats-flurry (suc n) s h = beats-flurry n (request_refresh s) h

-- After any history of a new scheduler with a function to call, a refresh is pending exactly while the
-- timer runs, so no request is forgotten; no more refreshes were made than requested; and however many
-- requests come before the timer fires next, they make one refresh.
pub scheduler_coalesces :
    (history : List Beat) (n : ℕ)
    → let s = beats history (new_scheduler true) in
      (s.refresh_pending ≡ s.timer_active)
      × (s.refreshes ≤ requests_of history)
      × ((beats (flurry (suc n)) s).refreshes ≡ suc s.refreshes)
unfolding new_scheduler
scheduler_coalesces history n =
    let s = beats history (new_scheduler true) in
    let steady = beats-IsSteady history (new_scheduler true) (refl, refl) in
    (steady.1, ground (arith, due-beats_le history (new_scheduler true)), beats-flurry n s steady.0)
