-- ===== src/Worker/Drain.antt =====
-- A worker that keeps polling a queue of the memory driver: what it needs, and keeps.
pub mod Attempt
pub mod Polling
pub mod Dispatched
use ts_queue.Base
use ts_queue.Driver
use ts_queue.Job.{Job, is_waiting, is_in_flight}
use ts_queue.Jobs.{get, in_queue}
use ts_queue.Jobs.Ids.{IdsDistinct}
use ts_queue.Memory.{MemoryConnection}
use ts_queue.Prelude.{ℕ, ◌≤◌, ◌<◌, String, true, false, List, some, ◌≡◌}
use ts_queue.Worker.Weights.{allowance}

-- On the queue, a job in flight waits, is due from `t` on, and has an attempt left.
abbrev pub IsQuiet : String → ℕ → Job → Type 0
IsQuiet queue t j =
    in_queue queue j ≡ true
    → is_in_flight j.status ≡ true
    → (is_waiting j.status ≡ true) × (j.available_at ≤ t) × (j.attempts < allowance j)

-- What holds between two ticks.
pub record IsReady (queue : String) (t : ℕ) (c : MemoryConnection) : Type 0 where
  pub distinct : IdsDistinct c.jobs
  pub open_queue : Base.has queue c.paused_queues ≡ false
  pub quiet : (i : String) (j : Job) → get i c.jobs ≡ some j → IsQuiet queue t j
