-- ===== src/Worker/Pool/Settle.antt =====
-- What the end of an attempt does to the memory connection.
use ts_queue.Backoff.Laws.{backoff-le_max}
use ts_queue.Driver
use ts_queue.Errors.{Error, Result, ok, err, is_timeout}
use ts_queue.Job.{Job}
use ts_queue.Memory
use ts_queue.Memory.{MemoryConnection}
use ts_queue.Prelude.{ℕ, ◌+◌, ◌≤◌, ◌<◌, String, Bool, arith, Bool-cases, inl, inr}
use ts_queue.Worker.{
  WorkerOptions, Race, handle, after_race, on_error, handle_failure, run_with_timeout,
  retry_delay_ms, should_fail_now,
}

-- The job is removed, failed for good, or released while it has attempts left, with a delay
-- under the cap from the first attempt on.
pub data Settled (policy : WorkerOptions) (now : ℕ) (m : MemoryConnection) (job : Job)
    : MemoryConnection → Type 0 where
  removed : Settled policy now m job (Memory.remove m job.id)
  failed_for_good : (reason : String) → Settled policy now m job (Memory.fail m job.id reason now)
  put_back :
      (delay_ms : ℕ)
      → job.attempts < job.max_attempts
      → (1 ≤ job.attempts → delay_ms ≤ policy.max_backoff_ms)
      → Settled policy now m job (Memory.release m job.id delay_ms now)

module _ (policy : WorkerOptions) (m : MemoryConnection) (job : Job) where
  failure-Settled :
      (error : Error) (timed_out : Bool) (now : ℕ)
      → Settled policy now m job
          (handle_failure Driver.memory policy m job error timed_out now).state
  unfolding handle_failure should_fail_now retry_delay_ms
  failure-Settled error timed_out now = elim (Bool-cases (should_fail_now policy job timed_out)) [
    | inl e ↦ rw (e, handle_failure) (failed_for_good _)
    | inr e ↦ rw (e, handle_failure) (put_back _ (ground (arith, e)) late)
  ]
    where
      late : 1 ≤ job.attempts → retry_delay_ms policy job ≤ policy.max_backoff_ms
      late l =
          backoff-le_max (job.attempts + 1) job.backoff_ms policy.max_backoff_ms (omega (arith, l))

  on_error-Settled :
      (error : Error) (now : ℕ)
      → Settled policy now m job (on_error Driver.memory policy m job error now).state
  unfolding on_error
  on_error-Settled error now = failure-Settled error (is_timeout error) now

  race-Settled :
      (r : Result (Unit {0})) (now : ℕ)
      → Settled policy now m job (after_race Driver.memory policy m job r now).state
  race-Settled (ok u) now = removed
  race-Settled (err e) now = on_error-Settled e now

  -- An attempt ends in one of the three.
  pub handle-Settled :
      (race : Race) (now : ℕ)
      → Settled policy now m job (handle Driver.memory policy m job race now).state
  unfolding handle
  handle-Settled race now = race-Settled (run_with_timeout job race) now
