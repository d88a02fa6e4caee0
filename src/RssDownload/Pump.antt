-- ===== src/RssDownload/Pump.antt =====
-- One of the two queues of app/rss_download_pipeline.cc, with what the orchestrator does with an
-- item that leaves it. `posted` holds the pump calls that the event loop has not run yet, each with
-- its start function; `started` and `settled` record, oldest first, which items were handed to the
-- start handler and which were settled as failed.
use torrent_link.Prelude.{
  ℕ, suc, ℤ, ◌-◌, pos_part, ltb, leb, Bool, true, false, not, ◌&&◌, Option, none, some, List, [],
  ◌∷◌, ◌++◌, if◌then◌else◌,
}

-- The start functions that the orchestrator passes: that of `enqueue…`, which looks at the shutdown
-- flag, and that of `finish…`, which does not.
pub data Closure : Type 0 where
  guarded plain : Closure

pub record Settings : Type 0 where
  pub shutting_down : Bool
  pub has_start : Bool
  pub has_settle : Bool

pub record Lane (A : Type 0) : Type 0 where
  pub queue : List A
  pub in_flight : ℕ
  pub max_in_flight : ℕ
  pub pump_scheduled : Bool
  pub posted : List Closure
  pub started : List A
  pub settled : List A

module _ {A : Type 0} where
  unfoldable pub empty_lane : Lane A
  empty_lane = record {
    queue = [];
    in_flight = 0;
    max_in_flight = 8;
    pump_scheduled = false;
    posted = [];
    started = [];
    settled = [];
  }

  -- `std::max(1, n)`
  unfoldable pub set_max_in_flight : ℤ → Lane A → Lane A
  set_max_in_flight n l = record l { max_in_flight = if ltb (pos_part n) 1 then 1 else pos_part n }

  unfoldable pub push_back : A → Lane A → Lane A
  push_back a l = record l { queue = l.queue ++ a ∷ [] }

  -- `std::max(0, n - 1)`
  unfoldable pub release : Lane A → Lane A
  release l = record l { in_flight = l.in_flight - 1 }

  unfoldable pub schedule_pump : Closure → Lane A → Lane A
  schedule_pump c l =
      if l.pump_scheduled
      then l
      else record l { pump_scheduled = true; posted = l.posted ++ c ∷ [] }

  -- The critical section of the pump: the item to start, if there is one.
  unfoldable pub pop_front : List A → Lane A → Lane A × Option A
  pop_front [] l = (l, none)
  pop_front (a ∷ rest) l = (record l { queue = rest; in_flight = suc l.in_flight }, some a)

  unfoldable pub pump : Lane A → Lane A × Option A
  pump l =
      let l' = record l { pump_scheduled = false } in
      if leb l.max_in_flight l.in_flight then (l', none) else pop_front l.queue l'

  start : A → Lane A → Lane A
  start a l = record l { started = l.started ++ a ∷ [] }

  settle_failed : Settings → A → Lane A → Lane A
  settle_failed s a l = if s.has_settle then record l { settled = l.settled ++ a ∷ [] } else l

  -- The bodies of the two closures.
  unfoldable pub start_fn : Settings → Closure → A → Lane A → Lane A
  unfolding start settle_failed
  start_fn s guarded a l =
      if not s.shutting_down && s.has_start
      then start a l
      else schedule_pump plain (release (settle_failed s a l))
  start_fn s plain a l = if s.has_start then start a l else l

  unfoldable pub run_pump : Settings → Closure → Lane A × Option A → Lane A
  run_pump s c (l, none) = l
  run_pump s c (l, some a) = start_fn s c a l

  -- The event loop runs the oldest posted call.
  unfoldable pub deliver : Settings → Lane A → Lane A
  deliver s l = elim l.posted [ [] ↦ l | c ∷ cs ↦ run_pump s c (pump (record l { posted = cs })) ]
