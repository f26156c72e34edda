-- ===== src/Driver.antt =====
-- The part of `IQueueConnection` that a worker calls, as the drivers implement it: a call returns
-- the new state and a result, which is an error if its promise rejects. `Date.now()` is an
-- argument.
use ts_queue.Errors.{Result, ok}
use ts_queue.Job.{Job}
use ts_queue.Memory
use ts_queue.Memory.{MemoryConnection}
use ts_queue.Prelude.{ℕ, String, Option}

pub record Driver (S : Type 0) : Type 0 where
  pub name : S → String
  pub pop : S → String → ℕ → S × Result (Option Job)
  pub remove : S → String → S × Result (Unit {0})
  pub release : S → String → ℕ → ℕ → S × Result (Unit {0})
  pub fail : S → String → String → ℕ → S × Result (Unit {0})

-- The memory driver never rejects.
abbrev pub memory : Driver MemoryConnection
memory = record {
  name = λ c. c.name;
  pop = λ c queue now. ((Memory.pop c queue now).0, ok (Memory.pop c queue now).1);
  remove = λ c id. (Memory.remove c id, ok tt);
  release = λ c id delay_ms now. (Memory.release c id delay_ms now, ok tt);
  fail = λ c id reason now. (Memory.fail c id reason now, ok tt);
}
