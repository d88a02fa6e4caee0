-- ===== src/RssDownload/Order.antt =====
-- Items are started in the order in which they were asked for, and a queue drains.
use torrent_link.Prelude.{
  ℕ, zero, suc, ◌≡◌, refl, sym, ap, ◌∙◌, inl, inr, true, false, List, [], ◌∷◌, ◌++◌, append_assoc,
  append-nil, arith, leb, length, Bool-cases,
}
use torrent_link.RssDownload.{
  Orchestrator, MagnetQueueItem, Call, handlers_set, magnet_limit_set, torrent_limit_set,
  magnet_enqueued, torrent_enqueued, magnet_finished, torrent_finished, magnet_turn, torrent_turn,
  set_magnet_max_in_flight, set_rss_torrent_max_in_flight, enqueue_magnet, enqueue_rss_torrent_url,
  finish_magnet, finish_rss_torrent, pump_magnet_queue_on_ui, pump_rss_torrent_url_queue_on_ui,
  step, run,
}
use torrent_link.RssDownload.Pump.{
  Lane, Closure, guarded, plain, Settings, set_max_in_flight, push_back, release, schedule_pump,
  pump, start_fn, run_pump, deliver,
}
use torrent_link.RssDownload.Progress.{
  IsLive, pump-idle, pump-empty, pump-busy, deliver-IsLive, finish-IsLive,
}

-- The settings of a program that runs, with a start handler.
abbrev pub Runs : Settings → Type 0
Runs s = (s.shutting_down ≡ false) × (s.has_start ≡ true)

module _ {A : Type 0} where
  -- The items that were started, then those that wait.
  abbrev line : Lane A → List A
  line l = l.started ++ l.queue

  line-schedule_pump : (c : Closure) (l : Lane A) → line (schedule_pump c l) ≡ line l
  unfolding schedule_pump
  line-schedule_pump c l = ground arith

  pub start_fn-Runs :
      (s : Settings) (c : Closure) (a : A) (l : Lane A)
      → Runs s
      → start_fn s c a l ≡ record l { started = l.started ++ a ∷ [] }
  unfolding start_fn
  start_fn-Runs s guarded a l r = ground arith
  start_fn-Runs s plain a l r = ground arith

  line-run_pump :
      (s : Settings) (c : Closure) (l : Lane A) (q : List A)
      → Runs s
      → l.queue ≡ q
      → line (run_pump s c (pump l)) ≡ line l
  line-run_pump s c l [] r e = rw (pump-empty s c l e)
  line-run_pump s c l (a ∷ rest) r e = elim (Bool-cases (leb l.max_in_flight l.in_flight)) [
    | inl full ↦ rw (pump-idle s c l full)
    | inr free ↦ rw (pump-busy s c l a rest free e) (
        rw (start_fn-Runs s c a _ r)
          (append_assoc l.started (a ∷ []) rest ∙ ap (◌++◌ l.started) (sym e)))
  ]

  line-deliver : (s : Settings) (l : Lane A) → Runs s → line (deliver s l) ≡ line l
  unfolding deliver
  line-deliver s l r = by_posted l.posted refl
    where
      by_posted : (p : List Closure) → l.posted ≡ p → line (deliver s l) ≡ line l
      by_posted [] e = rw (e, deliver)
      by_posted (c ∷ cs) e =
          rw (e, deliver) (line-run_pump s c (record l { posted = cs }) l.queue r refl)

-- The magnet links that a history asks for, oldest first.
abbrev pub magnets_of : List Call → List MagnetQueueItem
magnets_of [] = []
magnets_of (magnet_enqueued item ∷ cs) = item ∷ magnets_of cs
magnets_of (_ ∷ cs) = magnets_of cs

-- Histories in which the handlers stay and the program does not shut down.
abbrev pub IsRunning : List Call → Type 0
IsRunning [] = Unit
IsRunning (handlers_set _ _ _ ∷ cs) = ⊥
IsRunning (magnet_turn b ∷ cs) = (b ≡ false) × IsRunning cs
IsRunning (torrent_turn b ∷ cs) = (b ≡ false) × IsRunning cs
IsRunning (_ ∷ cs) = IsRunning cs

-- While the start handler is set and the program does not shut down, the magnet links that were
-- started, followed by those that still wait, are those of before followed by those that the history
-- asked for, in that order: none is lost, doubled or overtaken.
pub run-started :
    (cs : List Call) (o : Orchestrator)
    → IsRunning cs
    → o.magnet_start ≡ true
    → (run cs o).magnets.started ++ (run cs o).magnets.queue
      ≡ (o.magnets.started ++ o.magnets.queue) ++ magnets_of cs
unfolding run step set_magnet_max_in_flight set_rss_torrent_max_in_flight enqueue_magnet
    enqueue_rss_torrent_url finish_magnet finish_rss_torrent pump_magnet_queue_on_ui
    pump_rss_torrent_url_queue_on_ui push_back release set_max_in_flight
run-started [] o r h = sym (append-nil _)
run-started (handlers_set settle magnet torrent ∷ cs) o r h = absurd r
run-started (magnet_limit_set n ∷ cs) o r h = run-started cs _ r h
run-started (torrent_limit_set n ∷ cs) o r h = run-started cs _ r h
run-started (magnet_enqueued item ∷ cs) o r h =
    run-started cs (enqueue_magnet item o) r h
    ∙ ap (λ l. l ++ magnets_of cs)
        (line-schedule_pump guarded (push_back item o.magnets)
          ∙ sym (append_assoc o.magnets.started o.magnets.queue (item ∷ [])))
    ∙ append_assoc _ (item ∷ []) (magnets_of cs)
run-started (torrent_enqueued item ∷ cs) o r h = run-started cs _ r h
run-started (magnet_finished ∷ cs) o r h =
    run-started cs (finish_magnet o) r h
    ∙ ap (λ l. l ++ magnets_of cs) (line-schedule_pump plain (release o.magnets))
run-started (torrent_finished ∷ cs) o r h = run-started cs _ r h
run-started (magnet_turn b ∷ cs) o r h =
    run-started cs (pump_magnet_queue_on_ui b o) r.1 h
    ∙ ap (λ l. l ++ magnets_of cs) (line-deliver _ o.magnets (r.0, h))
run-started (torrent_turn b ∷ cs) o r h = run-started cs _ r.1 h

-- What the event loop and the end of each download do until `n` items are through.
abbrev pub rounds : ℕ → List Call
rounds zero = []
rounds (suc n) = magnet_turn false ∷ magnet_finished ∷ rounds n

rounds-IsRunning : (n : ℕ) → IsRunning (rounds n)
rounds-IsRunning zero = tt
rounds-IsRunning (suc n) = (refl, rounds-IsRunning n)

magnets_of-rounds : (n : ℕ) → magnets_of (rounds n) ≡ []
magnets_of-rounds zero = refl
magnets_of-rounds (suc n) = magnets_of-rounds n

module _ {A : Type 0} where
  record IsTurned (l' : Lane A) (rest : List A) : Type 0 where
    waits : l'.queue ≡ rest
    slot : l'.in_flight ≡ 0

  turn_and_finish :
      (s : Settings) (l : Lane A) (a : A) (rest : List A)
      → Runs s
      → IsLive l
      → l.in_flight ≡ 0
      → l.queue ≡ a ∷ rest
      → IsTurned (schedule_pump plain (release (deliver s l))) rest
  unfolding deliver schedule_pump release
  turn_and_finish s l a rest r v idle e = by_posted l.posted refl
    where
      by_posted :
          (p : List Closure)
          → l.posted ≡ p
          → IsTurned (schedule_pump plain (release (deliver s l))) rest
      by_posted [] p = absurd (ground (arith, v.moving (ground arith), v.flagged))
      by_posted (c ∷ cs) p =
          rw (p, deliver)
            (rw (pump-busy s c (record l { posted = cs }) a rest (ground (arith, v.room)) e)
              (rw (start_fn-Runs s c a _ r) (ground arith)))

empties :
    (q : List MagnetQueueItem) (o : Orchestrator)
    → IsLive o.magnets
    → o.magnets.in_flight ≡ 0
    → o.magnet_start ≡ true
    → o.magnets.queue ≡ q
    → (run (rounds (length q)) o).magnets.queue ≡ []
unfolding run step finish_magnet pump_magnet_queue_on_ui
empties [] o v idle h e = e
empties (a ∷ q) o v idle h e =
    empties q (finish_magnet (pump_magnet_queue_on_ui false o))
      (finish-IsLive _ (deliver-IsLive _ o.magnets v)) turned.slot h turned.waits
  where
    turned : IsTurned (finish_magnet (pump_magnet_queue_on_ui false o)).magnets q
    turned = turn_and_finish _ o.magnets a q (refl, h) v idle e

-- A queue of magnet links drains: from a live lane with nothing under way and the start handler set,
-- one turn of the event loop and one end of a download for each waiting item empty the queue, and
-- every item has been started, in order.
pub run-drains :
    (o : Orchestrator)
    → IsLive o.magnets
    → o.magnets.in_flight ≡ 0
    → o.magnet_start ≡ true
    → let o' = run (rounds (length o.magnets.queue)) o in
      (o'.magnets.queue ≡ []) × (o'.magnets.started ≡ o.magnets.started ++ o.magnets.queue)
run-drains o v idle h =
    let n = length o.magnets.queue in
    let left : (run (rounds n) o).magnets.queue ≡ [] = empties o.magnets.queue o v idle h refl in
    let fifo = run-started (rounds n) o (rounds-IsRunning n) h in
    (
      left,
      sym (append-nil _)
          ∙ ap (◌++◌ (run (rounds n) o).magnets.started) (sym left)
          ∙ fifo
          ∙ ap (◌++◌ (o.magnets.started ++ o.magnets.queue)) (magnets_of-rounds n)
          ∙ append-nil _,
    )
