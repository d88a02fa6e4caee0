-- ===== src/Examples/Timers.antt =====
-- base/throttle.cc, base/debounce.cc and app/refresh_scheduler.cc at concrete inputs.
use torrent_link.Prelude.{ℤ, suc, pos, negsuc, ◌≡◌, ◌≤◌, true, String, List, [], ◌∷◌, ◌++◌, map}
use torrent_link.Timing.{
  new_throttler, Signal, scheduled, cancelled, timed_out, new_debouncer, receive_all, new_scheduler,
  requested, ticked, beats,
}
use torrent_link.Timing.Bursts.{
  firings, Throttled, new_throttler-Throttled, IsArmed, debounce_burst, flurry, requests_of,
  scheduler_coalesces,
}

new_throttler-Throttled_example :
    (fired : List ℤ) × (firings
        (new_throttler (pos 100))
        (pos 5 ∷ pos 50 ∷ pos 105 ∷ pos 20 ∷ pos 300 ∷ [])
      ≡ pos 5 ∷ fired)
    × Throttled 100 (pos 5) (pos 50 ∷ pos 105 ∷ pos 20 ∷ pos 300 ∷ []) fired
new_throttler-Throttled_example =
    new_throttler-Throttled (pos 100) (pos 5) (pos 50 ∷ pos 105 ∷ pos 20 ∷ pos 300 ∷ [])

abbrev typed : List (Signal String)
typed = scheduled "a" ∷ timed_out ∷ scheduled "b" ∷ cancelled ∷ scheduled "c" ∷ []

debounce_burst_example :
    IsArmed (receive_all typed (new_debouncer (negsuc 4)))
    × ((receive_all
          (map scheduled ("d" ∷ "e" ∷ []) ++ scheduled "f" ∷ timed_out ∷ timed_out ∷ [])
          (receive_all typed (new_debouncer (negsuc 4)))).ran
        ≡ (receive_all typed (new_debouncer (negsuc 4))).ran ++ "f" ∷ [])
debounce_burst_example = debounce_burst (negsuc 4) typed ("d" ∷ "e" ∷ []) "f"

scheduler_coalesces_example :
    ((beats (requested ∷ ticked ∷ requested ∷ []) (new_scheduler true)).refresh_pending
      ≡ (beats (requested ∷ ticked ∷ requested ∷ []) (new_scheduler true)).timer_active)
    × ((beats (requested ∷ ticked ∷ requested ∷ []) (new_scheduler true)).refreshes
        ≤ requests_of (requested ∷ ticked ∷ requested ∷ []))
    × ((beats
          (flurry 3)
          (beats (requested ∷ ticked ∷ requested ∷ []) (new_scheduler true))).refreshes
        ≡ suc (beats (requested ∷ ticked ∷ requested ∷ []) (new_scheduler true)).refreshes)
scheduler_coalesces_example = scheduler_coalesces (requested ∷ ticked ∷ requested ∷ []) 2
