-- ===== src/Worker/Loop.antt =====
-- The polling loop of src/services/worker.service.ts: `start`, `stop`, `scheduleNext` and the
-- timers that they set. A timer is a handle; a tick is under way from the moment that its timer
-- fires until its last promise settles. Delays are left out: any armed timer may fire.
pub mod Single
use ts_queue.Prelude.{
  ℕ, zero, suc, ◌+◌, ◌-◌, String, Bool, true, false, not, List, [], ◌∷◌, ◌++◌, Option, none, some,
  keep, ◌==◌, if◌then◌else◌,
}
use ts_queue.Worker.{Event, worker_starting, worker_stopping}

pub record Loop : Type 0 where
  pub connection : String
  pub queue : String
  pub running : Bool
  pub pending_tick : Option ℕ
  -- armed timers, and the handle that `setTimeout` returns next
  pub timers : List ℕ
  pub next_handle : ℕ
  -- ticks under way
  pub in_tick : ℕ
  pub emitted : List Event

abbrev pub new : String → String → Loop
new connection queue = record {
  connection = connection;
  queue = queue;
  running = false;
  pending_tick = none;
  timers = [];
  next_handle = 0;
  in_tick = 0;
  emitted = [];
}

unfoldable pub schedule_next : Loop → Loop
schedule_next l =
    if l.running
    then record l {
      pending_tick = some l.next_handle;
      timers = l.next_handle ∷ l.timers;
      next_handle = l.next_handle + 1;
    }
    else l

unfoldable pub start : Loop → Loop
unfolding schedule_next
start l =
    if l.running
    then l
    else schedule_next (record l {
      running = true;
      emitted = l.emitted ++ worker_starting l.connection l.queue ∷ [];
    })

-- `clearTimeout`: a handle that is not armed is ignored.
abbrev pub disarm : ℕ → List ℕ → List ℕ
disarm h timers = keep (λ t. not (t == h)) timers

abbrev clear_pending : Loop → Option ℕ → Loop
clear_pending l none = l
clear_pending l (some h) = record l { pending_tick = none; timers = disarm h l.timers }

abbrev halt : Loop → Loop
halt l = clear_pending (record l { running = false }) l.pending_tick

unfoldable pub stop : Loop → Loop
stop l =
    if l.running
    then record (halt l) { emitted = l.emitted ++ worker_stopping l.connection l.queue ∷ [] }
    else l

abbrev armed : ℕ → List ℕ → Bool
armed h [] = false
armed h (t ∷ ts) = if t == h then true else armed h ts

-- The timer's callback calls `tick`, whether the worker runs or not.
unfoldable pub fire : ℕ → Loop → Loop
fire h l =
    if armed h l.timers then record l { timers = disarm h l.timers; in_tick = l.in_tick + 1 } else l

-- A tick settles: `tick` itself or its `catch` handler calls `scheduleNext`.
unfoldable pub settle : Loop → Loop
unfolding schedule_next
settle l = elim l.in_tick [ zero ↦ l | suc n ↦ schedule_next (record l { in_tick = n }) ]

pub data Signal : Type 0 where
  starts : Signal
  stops : Signal
  fires : ℕ → Signal
  settles : Signal

unfoldable pub step : Loop → Signal → Loop
unfolding start stop fire settle
step l starts = start l
step l stops = stop l
step l (fires h) = fire h l
step l settles = settle l

unfoldable pub run : Loop → List Signal → Loop
run l [] = l
run l (signal ∷ signals) = run (step l signal) signals
