-- ===== src/Memory.antt =====
-- src/connections/memory.connection.ts. Each method runs without an `await` inside, so it is one
-- step on the state; `Date.now()` is an argument.
pub mod Pop
pub mod Push
pub mod Updates
pub mod Steps
pub mod Invariant
pub mod Sizes
pub mod Exclusive
pub mod Repeat
pub mod Drain
use ts_queue.Base
use ts_queue.Job.{
  Job, JobStatus, pending, delayed, reserved, Dispatch, create_queued_job, no_defaults, same_status,
  is_in_flight,
}
use ts_queue.Jobs.{
  get, put, without, modify, oldest, is_due, reserve, released, marked_failed, find_duplicate,
  in_queue,
}
use ts_queue.Prelude.{
  ℕ, String, Bool, not, ◌&&◌, List, [], Option, none, some, count, keep, if◌then◌else◌,
}

pub record MemoryConnection : Type 0 where
  pub name : String
  pub jobs : List Job
  pub paused_queues : List String

abbrev pub new : String → MemoryConnection
new name = record { name = name; jobs = []; paused_queues = [] }

unfoldable pub push : MemoryConnection → Dispatch → MemoryConnection × String
unfolding create_queued_job put find_duplicate
push c args =
    let job = create_queued_job c.name no_defaults args in
    elim (find_duplicate job c.jobs) [
      | some existing ↦ (c, existing.id)
      | none ↦ (record c { jobs = put job c.jobs }, job.id)
    ]

abbrev pub is_eligible : String → ℕ → Job → Bool
is_eligible queue now j = in_queue queue j && is_due now j

-- The job that `pop` reserves.
abbrev pub choose : String → ℕ → List Job → Option Job
choose queue now jobs = oldest (is_eligible queue now) none jobs

unfoldable pub pop : MemoryConnection → String → ℕ → MemoryConnection × Option Job
unfolding Base.has oldest modify
pop c queue now =
    if Base.has queue c.paused_queues then (c, none) else elim (choose queue now c.jobs) [
      | none ↦ (c, none)
      | some next ↦
          (record c { jobs = modify next.id (reserve now) c.jobs }, some (reserve now next))
    ]

unfoldable pub size : MemoryConnection → String → ℕ
size c queue = count (λ j. in_queue queue j && is_in_flight j.status) c.jobs

unfoldable pub count_by_status : MemoryConnection → String → JobStatus → ℕ
count_by_status c queue status = count (λ j. in_queue queue j && same_status j.status status) c.jobs

unfoldable pub pending_size : MemoryConnection → String → ℕ
unfolding count_by_status
pending_size c queue = count_by_status c queue pending

unfoldable pub delayed_size : MemoryConnection → String → ℕ
unfolding count_by_status
delayed_size c queue = count_by_status c queue delayed

unfoldable pub reserved_size : MemoryConnection → String → ℕ
unfolding count_by_status
reserved_size c queue = count_by_status c queue reserved

unfoldable pub remove : MemoryConnection → String → MemoryConnection
remove c id = record c { jobs = without id c.jobs }

unfoldable pub release : MemoryConnection → String → ℕ → ℕ → MemoryConnection
unfolding modify
release c id delay_ms now = elim (get id c.jobs) [
  | none ↦ c
  | some _ ↦ record c { jobs = modify id (released delay_ms now) c.jobs }
]

unfoldable pub fail : MemoryConnection → String → String → ℕ → MemoryConnection
unfolding modify
fail c id reason now = elim (get id c.jobs) [
  | none ↦ c
  | some _ ↦ record c { jobs = modify id (marked_failed reason now) c.jobs }
]

unfoldable pub clear : MemoryConnection → String → MemoryConnection
clear c queue = record c { jobs = keep (λ j. not (in_queue queue j)) c.jobs }

unfoldable pub close : MemoryConnection → MemoryConnection
close c = record c { jobs = []; paused_queues = [] }

unfoldable pub pause : MemoryConnection → String → MemoryConnection
unfolding Base.add
pause c queue = record c { paused_queues = Base.add queue c.paused_queues }

unfoldable pub resume : MemoryConnection → String → MemoryConnection
unfolding Base.delete
resume c queue = record c { paused_queues = Base.delete queue c.paused_queues }

unfoldable pub is_paused : MemoryConnection → String → Bool
unfolding Base.has
is_paused c queue = Base.has queue c.paused_queues
