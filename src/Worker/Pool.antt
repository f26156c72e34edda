-- ===== src/Worker/Pool.antt =====
-- Several workers of src/services/worker.service.ts on one memory connection. A tick of a worker
-- waits for its processor between its `pop` and the call that settles the attempt: the two sides
-- of that wait are two acts, and the acts of all workers, of the dispatches and of an operator come
-- in any order. How many workers there are is left open: a job that was popped is held by one.
pub mod Settle
pub mod Order
pub mod Ends
pub mod Invariant
pub mod Budget
use ts_queue.Driver
use ts_queue.Job.{Job, Dispatch, create_queued_job, no_defaults}
use ts_queue.Jobs.{get, without}
use ts_queue.Memory
use ts_queue.Memory.{MemoryConnection}
use ts_queue.Prelude.{ℕ, ◌+◌, max, String, List, [], ◌∷◌, Option, none, some, ◌≡◌, ◌≢◌}
use ts_queue.Worker.Weights.{allowance}
use ts_queue.Worker.{WorkerOptions, Race, handle}

pub record Pool : Type 0 where
  pub connection : MemoryConnection
  pub held : List Job  -- popped, and not settled yet
  -- the attempts that were begun, and those that the dispatches ask for
  pub begun : ℕ
  pub granted : ℕ

pub data Act : Type 0 where
  dispatches : Dispatch → Act
  takes : String → ℕ → Act  -- `pop` of a worker of this queue
  settles : String → Race → ℕ → Act  -- the processor of the job with this id is done
  removes : String → Act
  clears : String → Act
  pauses : String → Act
  resumes : String → Act

unfoldable pub take : Pool → MemoryConnection × Option Job → Pool
take s (m, none) = record s { connection = m }
take s (m, some job) = record s { connection = m; held = job ∷ s.held; begun = s.begun + 1 }

unfoldable pub settle : WorkerOptions → Pool → Option Job → Race → ℕ → Pool
unfolding handle
settle policy s none race now = s
settle policy s (some job) race now = record s {
  connection = (handle Driver.memory policy s.connection job race now).state;
  held = without job.id s.held;
}

unfoldable pub act : WorkerOptions → Pool → Act → Pool
unfolding take settle Memory.push Memory.pop Memory.remove Memory.clear Memory.pause Memory.resume
    create_queued_job
act policy s (dispatches args) = record s {
  connection = (Memory.push s.connection args).0;
  granted = s.granted + allowance (create_queued_job s.connection.name no_defaults args);
}
act policy s (takes queue now) = take s (Memory.pop s.connection queue now)
act policy s (settles id race now) = settle policy s (get id s.held) race now
act policy s (removes id) = record s { connection = Memory.remove s.connection id }
act policy s (clears queue) = record s { connection = Memory.clear s.connection queue }
act policy s (pauses queue) = record s { connection = Memory.pause s.connection queue }
act policy s (resumes queue) = record s { connection = Memory.resume s.connection queue }

-- A new connection, and no job.
abbrev pub new : String → Pool
new name = record { connection = Memory.new name; held = []; begun = 0; granted = 0 }

-- A generated id is not that of a job that is stored or held.
abbrev pub IsFresh : Pool → Act → Type 0
IsFresh s (dispatches args) =
    (get args.fresh_id s.connection.jobs ≡ none) × (get args.fresh_id s.held ≡ none)
IsFresh s _ = Unit

-- The states that the acts lead to, in any order.
pub data Reach (policy : WorkerOptions) (name : String) : Pool → Type 0 where
  here : Reach policy name (new name)
  next :
      {s : Pool}
      → Reach policy name s
      → (a : Act) → IsFresh s a
      → Reach policy name (act policy s a)
