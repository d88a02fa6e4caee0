-- ===== src/RssDownload/Progress.antt =====
-- What stays true of a queue in every history.
use torrent_link.Prelude.{
  suc, ap, leb, Bool-cases, ℤ, ◌≤◌, ◌<◌, ◌≡◌, ◌≢◌, refl, ◌⊎◌, inl, inr, true, false, List, [], ◌∷◌,
  arith, length,
}
use torrent_link.RssDownload.Pump.{
  Lane, Closure, guarded, plain, Settings, empty_lane, set_max_in_flight, push_back, release,
  schedule_pump, pump, start_fn, run_pump, deliver, pop_front,
}
use torrent_link.RssDownload.{
  Orchestrator, Call, handlers_set, magnet_limit_set, torrent_limit_set, magnet_enqueued,
  torrent_enqueued, magnet_finished, torrent_finished, magnet_turn, torrent_turn, init,
  set_handlers, set_magnet_max_in_flight, set_rss_torrent_max_in_flight, enqueue_magnet,
  enqueue_rss_torrent_url, finish_magnet, finish_rss_torrent, pump_magnet_queue_on_ui,
  pump_rss_torrent_url_queue_on_ui, step, run,
}

-- A pump call is posted exactly while the flag says so, at most one, there is room for at least one
-- item, and while items wait a pump call is posted or the count of items under way is not zero.
pub record IsLive {A : Type 0} (l : Lane A) : Type 0 where
  pub room : 1 ≤ l.max_in_flight
  pub flagged : (l.pump_scheduled ≡ true) → l.posted ≢ []
  pub unflagged : (l.pump_scheduled ≡ false) → l.posted ≡ []
  pub single : length l.posted ≤ 1
  pub moving : l.queue ≢ [] → (l.pump_scheduled ≡ true) ⊎ (0 < l.in_flight)

module _ {A : Type 0} where
  empty_lane-IsLive : IsLive (empty_lane {A = A})
  unfolding empty_lane
  empty_lane-IsLive = ground arith

  set_max_in_flight-IsLive : (n : ℤ) (l : Lane A) → IsLive l → IsLive (set_max_in_flight n l)
  unfolding set_max_in_flight
  set_max_in_flight-IsLive n l v = ground arith

  schedule_pump-IsLive :
      (c : Closure) (l : Lane A)
      → 1 ≤ l.max_in_flight
      → ((l.pump_scheduled ≡ true) → l.posted ≢ [])
      → ((l.pump_scheduled ≡ false) → l.posted ≡ [])
      → length l.posted ≤ 1
      → IsLive (schedule_pump c l)
  unfolding schedule_pump
  schedule_pump-IsLive c l r f u s = ground arith

  enqueue-IsLive : (a : A) (l : Lane A) → IsLive l → IsLive (schedule_pump guarded (push_back a l))
  unfolding push_back
  enqueue-IsLive a l v =
      schedule_pump-IsLive guarded (push_back a l) v.room v.flagged v.unflagged v.single

  pub finish-IsLive : (l : Lane A) → IsLive l → IsLive (schedule_pump plain (release l))
  unfolding release
  finish-IsLive l v = schedule_pump-IsLive plain (release l) v.room v.flagged v.unflagged v.single

  -- The lane in the pump's hands: nothing is posted and the flag is down.
  record IsPumping (l : Lane A) : Type 0 where
    room : 1 ≤ l.max_in_flight
    unposted : l.posted ≡ []
    down : l.pump_scheduled ≡ false

  start_fn-IsLive :
      (s : Settings) (c : Closure) (a : A) (l : Lane A)
      → IsPumping l
      → 0 < l.in_flight
      → IsLive (start_fn s c a l)
  unfolding start_fn schedule_pump release
  start_fn-IsLive s guarded a l v busy = ground arith
  start_fn-IsLive s plain a l v busy = ground arith

  -- The pump by cases: no slot or no item, and the flag falls; or the oldest item leaves the queue.
  pub pump-idle :
      (s : Settings) (c : Closure) (l : Lane A)
      → leb l.max_in_flight l.in_flight ≡ true
      → run_pump s c (pump l) ≡ record l { pump_scheduled = false }
  unfolding pump run_pump
  pump-idle s c l full = rw full

  pub pump-empty :
      (s : Settings) (c : Closure) (l : Lane A)
      → l.queue ≡ []
      → run_pump s c (pump l) ≡ record l { pump_scheduled = false }
  unfolding pump run_pump pop_front
  pump-empty s c l e = ground arith

  pub pump-busy :
      (s : Settings) (c : Closure) (l : Lane A) (a : A) (rest : List A)
      → leb l.max_in_flight l.in_flight ≡ false
      → l.queue ≡ a ∷ rest
      → run_pump s c (pump l)
        ≡ start_fn s c a
            (record l { pump_scheduled = false; queue = rest; in_flight = suc l.in_flight })
  unfolding pump run_pump pop_front
  pump-busy s c l a rest free e = rw (free, e)

  run_pump-IsLive :
      (s : Settings) (c : Closure) (l : Lane A) (q : List A)
      → l.queue ≡ q
      → 1 ≤ l.max_in_flight
      → l.posted ≡ []
      → IsLive (run_pump s c (pump l))
  run_pump-IsLive s c l [] e r p = rw (pump-empty s c l e) (ground arith)
  run_pump-IsLive s c l (a ∷ rest) e r p = elim (Bool-cases (leb l.max_in_flight l.in_flight)) [
    | inl full ↦ rw (pump-idle s c l full) (ground arith)
    | inr free ↦
        rw (pump-busy s c l a rest free e)
          (start_fn-IsLive s c a _ (record { room = r; unposted = p; down = refl }) (omega arith))
  ]

  -- The event loop keeps a lane live, whichever handlers are set and whether or not the program is
  -- shutting down.
  pub deliver-IsLive : (s : Settings) (l : Lane A) → IsLive l → IsLive (deliver s l)
  unfolding deliver
  deliver-IsLive s l v = by_posted l.posted refl
    where
      by_posted : (p : List Closure) → l.posted ≡ p → IsLive (deliver s l)
      by_posted [] e = rw (e, deliver) v
      by_posted (c ∷ []) e =
          rw (e, deliver) (run_pump-IsLive s c (record l { posted = [] }) l.queue refl v.room refl)
      by_posted (c ∷ c' ∷ cs) e = absurd (omega (arith, ap length e, v.single))

abbrev pub BothLive : Orchestrator → Type 0
BothLive o = IsLive o.magnets × IsLive o.torrents

step-BothLive : (c : Call) (o : Orchestrator) → BothLive o → BothLive (step c o)
unfolding step set_handlers set_magnet_max_in_flight set_rss_torrent_max_in_flight enqueue_magnet
    enqueue_rss_torrent_url finish_magnet finish_rss_torrent pump_magnet_queue_on_ui
    pump_rss_torrent_url_queue_on_ui
step-BothLive (handlers_set settle magnet torrent) o (m, t) = (m, t)
step-BothLive (magnet_limit_set n) o (m, t) = (set_max_in_flight-IsLive n o.magnets m, t)
step-BothLive (torrent_limit_set n) o (m, t) = (m, set_max_in_flight-IsLive n o.torrents t)
step-BothLive (magnet_enqueued item) o (m, t) = (enqueue-IsLive item o.magnets m, t)
step-BothLive (torrent_enqueued item) o (m, t) = (m, enqueue-IsLive item o.torrents t)
step-BothLive magnet_finished o (m, t) = (finish-IsLive o.magnets m, t)
step-BothLive torrent_finished o (m, t) = (m, finish-IsLive o.torrents t)
step-BothLive (magnet_turn shutting_down) o (m, t) = (deliver-IsLive _ o.magnets m, t)
step-BothLive (torrent_turn shutting_down) o (m, t) = (m, deliver-IsLive _ o.torrents t)

pub run_from-BothLive : (cs : List Call) (o : Orchestrator) → BothLive o → BothLive (run cs o)
unfolding run
run_from-BothLive [] o v = v
run_from-BothLive (c ∷ cs) o v = run_from-BothLive cs (step c o) (step-BothLive c o v)

-- After any history of a new orchestrator, for each of the two queues: the limit is at least one, a
-- pump call is posted exactly while the flag says so and at most one is, and while items wait a pump
-- call is posted or the count of items under way is not zero.
pub run-BothLive : (cs : List Call) → BothLive (run cs init)
unfolding init
run-BothLive cs = run_from-BothLive cs init (empty_lane-IsLive, empty_lane-IsLive)
