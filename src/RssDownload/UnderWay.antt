-- ===== src/RssDownload/UnderWay.antt =====
-- How many items are under way: started by the handler and not yet finished.
use torrent_link.Prelude.{
  ℕ, suc, ℤ, leb, Bool-cases, ◌+◌, ◌<◌, ◌≡◌, ◌≢◌, refl, ◌⊎◌, inl, inr, Bool, true, List, [], ◌∷◌,
  arith, length, length-append, subst,
}
use torrent_link.RssDownload.Pump.{
  Lane, Closure, guarded, plain, Settings, push_back, release, schedule_pump, pump, run_pump,
  deliver, set_max_in_flight, empty_lane,
}
use torrent_link.RssDownload.{
  Orchestrator, Call, handlers_set, magnet_limit_set, torrent_limit_set, magnet_enqueued,
  torrent_enqueued, magnet_finished, torrent_finished, magnet_turn, torrent_turn, init,
  set_handlers, set_magnet_max_in_flight, set_rss_torrent_max_in_flight, enqueue_magnet,
  enqueue_rss_torrent_url, finish_magnet, finish_rss_torrent, pump_magnet_queue_on_ui,
  pump_rss_torrent_url_queue_on_ui, step, run,
}
use torrent_link.RssDownload.Progress.{
  IsLive, BothLive, pump-idle, pump-empty, pump-busy, run_from-BothLive, run-BothLive,
}
use torrent_link.RssDownload.Order.{Runs, start_fn-Runs, IsRunning}

-- `f` of the started items are finished, and the counter has the others.
abbrev pub Tied : {A : Type 0} → ℕ → Lane A → Type 0
Tied f l = length l.started ≡ l.in_flight + f

module _ {A : Type 0} where
  schedule_pump-Tied : (c : Closure) (f : ℕ) (l : Lane A) → Tied f l → Tied f (schedule_pump c l)
  unfolding schedule_pump
  schedule_pump-Tied c f l h = ground (arith, h)

  finish-Tied :
      (f : ℕ) (l : Lane A)
      → f < length l.started
      → Tied f l
      → Tied (suc f) (schedule_pump plain (release l))
  unfolding release
  finish-Tied f l more h = schedule_pump-Tied plain (suc f) (release l) (omega (arith, h, more))

  run_pump-Tied :
      (s : Settings) (c : Closure) (f : ℕ) (l : Lane A) (q : List A)
      → Runs s
      → l.queue ≡ q
      → Tied f l
      → Tied f (run_pump s c (pump l))
  run_pump-Tied s c f l [] r e h = rw (pump-empty s c l e) h
  run_pump-Tied s c f l (a ∷ rest) r e h = elim (Bool-cases (leb l.max_in_flight l.in_flight)) [
    | inl full ↦ rw (pump-idle s c l full) h
    | inr free ↦
        rw (pump-busy s c l a rest free e)
          (rw (start_fn-Runs s c a _ r) (omega (arith, h, length-append l.started (a ∷ []))))
  ]

  deliver-Tied : (s : Settings) (f : ℕ) (l : Lane A) → Runs s → Tied f l → Tied f (deliver s l)
  unfolding deliver
  deliver-Tied s f l r h = by_posted l.posted refl
    where
      by_posted : (p : List Closure) → l.posted ≡ p → Tied f (deliver s l)
      by_posted [] e = rw (e, deliver) h
      by_posted (c ∷ cs) e =
          rw (e, deliver) (run_pump-Tied s c f (record l { posted = cs }) l.queue r refl h)

-- The ends of downloads that a history tells of.
abbrev pub magnets_finished : List Call → ℕ
magnets_finished [] = 0
magnets_finished (magnet_finished ∷ cs) = suc (magnets_finished cs)
magnets_finished (_ ∷ cs) = magnets_finished cs

abbrev pub torrents_finished : List Call → ℕ
torrents_finished [] = 0
torrents_finished (torrent_finished ∷ cs) = suc (torrents_finished cs)
torrents_finished (_ ∷ cs) = torrents_finished cs

-- Only what was started and has not finished finishes: `m` magnet links and `t` torrent files have
-- finished before.
abbrev pub IsPaired : ℕ → ℕ → List Call → Orchestrator → Type 0
IsPaired m t [] o = Unit
IsPaired m t (magnet_finished ∷ cs) o =
    (m < length o.magnets.started) × IsPaired (suc m) t cs (step magnet_finished o)
IsPaired m t (torrent_finished ∷ cs) o =
    (t < length o.torrents.started) × IsPaired m (suc t) cs (step torrent_finished o)
IsPaired m t (c ∷ cs) o = IsPaired m t cs (step c o)

abbrev pub BothTied : ℕ → ℕ → Orchestrator → Type 0
BothTied m t o =
    Tied m o.magnets × Tied t o.torrents × (o.magnet_start ≡ true) × (o.torrent_start ≡ true)

pub run-BothTied :
    (cs : List Call) (m t : ℕ) (o : Orchestrator)
    → IsRunning cs
    → IsPaired m t cs o
    → BothTied m t o
    → BothTied (m + magnets_finished cs) (t + torrents_finished cs) (run cs o)
unfolding run step set_magnet_max_in_flight set_rss_torrent_max_in_flight enqueue_magnet
    enqueue_rss_torrent_url finish_magnet finish_rss_torrent pump_magnet_queue_on_ui
    pump_rss_torrent_url_queue_on_ui push_back set_max_in_flight
run-BothTied [] m t o r p (a, b, h, k) = (omega (arith, a), omega (arith, b), h, k)
run-BothTied (handlers_set settle magnet torrent ∷ cs) m t o r p (a, b, h, k) = absurd r
run-BothTied (magnet_limit_set n ∷ cs) m t o r p (a, b, h, k) =
    run-BothTied cs m t (set_magnet_max_in_flight n o) r p (a, b, h, k)
run-BothTied (torrent_limit_set n ∷ cs) m t o r p (a, b, h, k) =
    run-BothTied cs m t (set_rss_torrent_max_in_flight n o) r p (a, b, h, k)
run-BothTied (magnet_enqueued item ∷ cs) m t o r p (a, b, h, k) =
    run-BothTied cs m t (enqueue_magnet item o) r p
      (schedule_pump-Tied guarded m (push_back item o.magnets) a, b, h, k)
run-BothTied (torrent_enqueued item ∷ cs) m t o r p (a, b, h, k) =
    run-BothTied cs m t (enqueue_rss_torrent_url item o) r p
      (a, schedule_pump-Tied guarded t (push_back item o.torrents) b, h, k)
run-BothTied (magnet_finished ∷ cs) m t o r p (a, b, h, k) =
    subst (λ n. BothTied n (t + torrents_finished cs) (run cs (finish_magnet o))) (omega arith)
      (run-BothTied cs (suc m) t (finish_magnet o) r p.1 (finish-Tied m o.magnets p.0 a, b, h, k))
run-BothTied (torrent_finished ∷ cs) m t o r p (a, b, h, k) =
    subst (λ n. BothTied (m + magnets_finished cs) n (run cs (finish_rss_torrent o))) (omega arith)
      (run-BothTied cs m (suc t) (finish_rss_torrent o) r p.1
        (a, finish-Tied t o.torrents p.0 b, h, k))
run-BothTied (magnet_turn down ∷ cs) m t o r p (a, b, h, k) =
    run-BothTied cs m t (pump_magnet_queue_on_ui down o) r.1 p
      (deliver-Tied _ m o.magnets (r.0, h) a, b, h, k)
run-BothTied (torrent_turn down ∷ cs) m t o r p (a, b, h, k) =
    run-BothTied cs m t (pump_rss_torrent_url_queue_on_ui down o) r.1 p
      (a, deliver-Tied _ t o.torrents (r.0, k) b, h, k)

-- A new orchestrator with its handlers and the limits of its two queues.
abbrev pub started_up : Bool → ℤ → ℤ → Orchestrator
started_up settle magnets torrents =
    set_rss_torrent_max_in_flight torrents
      (set_magnet_max_in_flight magnets (set_handlers settle true true init))

pub started_up-BothTied : (settle : Bool) (lm lt : ℤ) → BothTied 0 0 (started_up settle lm lt)
unfolding init empty_lane set_handlers set_magnet_max_in_flight set_rss_torrent_max_in_flight
    set_max_in_flight
started_up-BothTied settle lm lt = (refl, refl, refl, refl)

started_up-BothLive : (settle : Bool) (lm lt : ℤ) → BothLive (started_up settle lm lt)
unfolding run step
started_up-BothLive settle lm lt =
    run-BothLive (handlers_set settle true true ∷ magnet_limit_set lm ∷ torrent_limit_set lt ∷ [])

-- Something moves a queue: nothing waits, or a pump call is posted, or an item that was started has not
-- finished, when `f` have.
abbrev pub Moves : {A : Type 0} → ℕ → Lane A → Type 0
Moves f l = (l.queue ≡ []) ⊎ (l.posted ≢ []) ⊎ (f < length l.started)

IsLive-Moves :
    {A : Type 0} (f : ℕ) (l : Lane A) (q : List A) → l.queue ≡ q → IsLive l → Tied f l → Moves f l
IsLive-Moves f l [] e v h = inl e
IsLive-Moves f l (a ∷ q) e v h = elim (v.moving (ground (arith, e))) [
  | inl up ↦ inr (inl (v.flagged up))
  | inr busy ↦ inr (inr (omega (arith, busy, h)))
]

-- Neither queue gets stuck: in a program that has set its handlers and its limits, after every history
-- in which the handlers stay, the program does not shut down and only what was started finishes, each
-- queue is empty, or a pump call is posted for it, or an item that was started has not finished yet.
pub run-Moves :
    (settle : Bool) (lm lt : ℤ) (cs : List Call)
    → IsRunning cs
    → IsPaired 0 0 cs (started_up settle lm lt)
    → Moves (magnets_finished cs) (run cs (started_up settle lm lt)).magnets
      × Moves (torrents_finished cs) (run cs (started_up settle lm lt)).torrents
run-Moves settle lm lt cs r p =
    let (a, b, h, k) =
      run-BothTied cs 0 0 (started_up settle lm lt) r p (started_up-BothTied settle lm lt) in
    let (m, t) =
      run_from-BothLive cs (started_up settle lm lt) (started_up-BothLive settle lm lt) in
    (IsLive-Moves _ _ _ refl m (omega (arith, a)), IsLive-Moves _ _ _ refl t (omega (arith, b)))
