-- ===== src/RssDownload/Limits.antt =====
-- The limits on what is under way hold.
use torrent_link.Prelude.{
  ℕ, zero, suc, ℤ, pos, negsuc, ltb, pos_part, if◌then◌else◌, leb, Bool-cases, ◌+◌, ◌≤◌, ◌≡◌, refl,
  inl, inr, Bool, true, List, [], ◌∷◌, arith, length,
}
use torrent_link.RssDownload.Pump.{
  Lane, Closure, guarded, plain, Settings, push_back, release, schedule_pump, pump, run_pump,
  deliver, set_max_in_flight, empty_lane,
}
use torrent_link.RssDownload.{
  Orchestrator, Call, handlers_set, magnet_limit_set, torrent_limit_set, magnet_enqueued,
  torrent_enqueued, magnet_finished, torrent_finished, magnet_turn, torrent_turn, init,
  set_handlers, set_magnet_max_in_flight, set_rss_torrent_max_in_flight, enqueue_magnet,
  enqueue_rss_torrent_url, finish_magnet, finish_rss_torrent, pump_magnet_queue_on_ui,
  pump_rss_torrent_url_queue_on_ui, step, run,
}
use torrent_link.RssDownload.Progress.{pump-idle, pump-empty, pump-busy}
use torrent_link.RssDownload.Order.{Runs, start_fn-Runs, IsRunning}
use torrent_link.RssDownload.UnderWay.{
  magnets_finished, torrents_finished, IsPaired, started_up, run-BothTied, started_up-BothTied,
}

module _ {A : Type 0} where
  abbrev IsLimited : ℕ → Lane A → Type 0
  IsLimited n l = (l.max_in_flight ≡ n) × (l.in_flight ≤ n)

  schedule_pump-IsLimited :
      (c : Closure) (n : ℕ) (l : Lane A) → IsLimited n l → IsLimited n (schedule_pump c l)
  unfolding schedule_pump
  schedule_pump-IsLimited c n l h = (ground (arith, h.0), ground (arith, h.1))

  run_pump-IsLimited :
      (s : Settings) (c : Closure) (n : ℕ) (l : Lane A) (q : List A)
      → Runs s
      → l.queue ≡ q
      → IsLimited n l
      → IsLimited n (run_pump s c (pump l))
  run_pump-IsLimited s c n l [] r e h = rw (pump-empty s c l e) h
  run_pump-IsLimited s c n l (a ∷ rest) r e h =
      elim (Bool-cases (leb l.max_in_flight l.in_flight)) [
        | inl full ↦ rw (pump-idle s c l full) h
        | inr free ↦
            let below : suc l.in_flight ≤ n = ground (arith, free, h.0) in
            rw (pump-busy s c l a rest free e) (rw (start_fn-Runs s c a _ r) (h.0, below))
      ]

  deliver-IsLimited :
      (s : Settings) (n : ℕ) (l : Lane A) → Runs s → IsLimited n l → IsLimited n (deliver s l)
  unfolding deliver
  deliver-IsLimited s n l r h = by_posted l.posted refl
    where
      by_posted : (p : List Closure) → l.posted ≡ p → IsLimited n (deliver s l)
      by_posted [] e = rw (e, deliver) h
      by_posted (c ∷ cs) e =
          rw (e, deliver) (run_pump-IsLimited s c n (record l { posted = cs }) l.queue r refl h)

  finish-IsLimited :
      (n : ℕ) (l : Lane A) → IsLimited n l → IsLimited n (schedule_pump plain (release l))
  unfolding release
  finish-IsLimited n l h = schedule_pump-IsLimited plain n (release l) (h.0, omega (arith, h.1))

-- A call that does not move a limit.
abbrev pub KeepsLimits : Call → Type 0
KeepsLimits (magnet_limit_set n) = ⊥
KeepsLimits (torrent_limit_set n) = ⊥
KeepsLimits _ = Unit

-- No call moves a limit.
abbrev pub AllKeepLimits : List Call → Type 0
AllKeepLimits [] = Unit
AllKeepLimits (c ∷ cs) = KeepsLimits c × AllKeepLimits cs

abbrev BothLimited : ℕ → ℕ → Orchestrator → Type 0
BothLimited m t o =
    IsLimited m o.magnets
    × IsLimited t o.torrents
    × (o.magnet_start ≡ true)
    × (o.torrent_start ≡ true)

run-BothLimited :
    (cs : List Call) (m t : ℕ) (o : Orchestrator)
    → IsRunning cs
    → AllKeepLimits cs
    → BothLimited m t o
    → BothLimited m t (run cs o)
unfolding run step enqueue_magnet enqueue_rss_torrent_url finish_magnet finish_rss_torrent
    pump_magnet_queue_on_ui pump_rss_torrent_url_queue_on_ui push_back
run-BothLimited [] m t o r l b = b
run-BothLimited (handlers_set settle magnet torrent ∷ cs) m t o r l b = absurd r
run-BothLimited (magnet_limit_set n ∷ cs) m t o r l b = absurd l.0
run-BothLimited (torrent_limit_set n ∷ cs) m t o r l b = absurd l.0
run-BothLimited (magnet_enqueued item ∷ cs) m t o r l (a, b, h, k) =
    run-BothLimited cs m t (enqueue_magnet item o) r l.1
      (schedule_pump-IsLimited guarded m (push_back item o.magnets) a, b, h, k)
run-BothLimited (torrent_enqueued item ∷ cs) m t o r l (a, b, h, k) =
    run-BothLimited cs m t (enqueue_rss_torrent_url item o) r l.1
      (a, schedule_pump-IsLimited guarded t (push_back item o.torrents) b, h, k)
run-BothLimited (magnet_finished ∷ cs) m t o r l (a, b, h, k) =
    run-BothLimited cs m t (finish_magnet o) r l.1 (finish-IsLimited m o.magnets a, b, h, k)
run-BothLimited (torrent_finished ∷ cs) m t o r l (a, b, h, k) =
    run-BothLimited cs m t (finish_rss_torrent o) r l.1 (a, finish-IsLimited t o.torrents b, h, k)
run-BothLimited (magnet_turn down ∷ cs) m t o r l (a, b, h, k) =
    run-BothLimited cs m t (pump_magnet_queue_on_ui down o) r.1 l.1
      (deliver-IsLimited _ m o.magnets (r.0, h) a, b, h, k)
run-BothLimited (torrent_turn down ∷ cs) m t o r l (a, b, h, k) =
    run-BothLimited cs m t (pump_rss_torrent_url_queue_on_ui down o) r.1 l.1
      (a, deliver-IsLimited _ t o.torrents (r.0, k) b, h, k)

-- The limit that is asked for, or one if that is not positive.
abbrev pub asked_limit : ℤ → ℕ
asked_limit (pos (suc n)) = suc n
asked_limit (pos zero) = 1
asked_limit (negsuc n) = 1

limit_lem : (n : ℤ) → (if ltb (pos_part n) 1 then 1 else pos_part n) ≡ asked_limit n
limit_lem (pos (suc n)) = ground arith
limit_lem (pos zero) = refl
limit_lem (negsuc n) = refl

started_up-BothLimited :
    (settle : Bool) (lm lt : ℤ)
    → BothLimited (asked_limit lm) (asked_limit lt) (started_up settle lm lt)
unfolding init empty_lane set_handlers set_magnet_max_in_flight set_rss_torrent_max_in_flight
    set_max_in_flight
started_up-BothLimited settle lm lt =
    ((limit_lem lm, omega arith), (limit_lem lt, omega arith), refl, refl)

-- In a program that has set its handlers and its limits, after every history in which these stay, the
-- program does not shut down and only what was started finishes, the items of each queue that were
-- started and have not finished are at most as many as its limit, or one if that is not positive.
pub run-Limited :
    (settle : Bool) (lm lt : ℤ) (cs : List Call)
    → IsRunning cs
    → AllKeepLimits cs
    → IsPaired 0 0 cs (started_up settle lm lt)
    → (length (run cs (started_up settle lm lt)).magnets.started
        ≤ magnets_finished cs + asked_limit lm)
      × (length (run cs (started_up settle lm lt)).torrents.started
          ≤ torrents_finished cs + asked_limit lt)
run-Limited settle lm lt cs r l p =
    let (a, b, h, k) =
      run-BothTied cs 0 0 (started_up settle lm lt) r p (started_up-BothTied settle lm lt) in
    let (m, t, h', k') =
      run-BothLimited cs (asked_limit lm) (asked_limit lt) (started_up settle lm lt) r l
        (started_up-BothLimited settle lm lt) in
    (omega (arith, a, m.1), omega (arith, b, t.1))
