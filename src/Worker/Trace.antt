-- ===== src/Worker/Trace.antt =====
-- The events of one job, whatever the driver and the processor do.
use ts_queue.Driver.{Driver}
use ts_queue.Errors.{Error, Result, ok, err, is_timeout}
use ts_queue.Job.{Job}
use ts_queue.Prelude.{
  ℕ, Bool, true, false, List, [], ◌∷◌, ◌++◌, Option, none, some, ◌≡◌, refl, ap, arith, count,
  count-append, Bool-cases, inl, inr,
}
use ts_queue.Worker.{
  WorkerOptions, Event, worker_starting, worker_stopping, job_processing, job_processed,
  job_timed_out, job_failed, job_released, job_attempted, Race, Run, handle, on_error, on_success,
  after_race, handle_failure, run_with_timeout,
}

-- The events that settle an attempt.
abbrev pub settles : Event → Bool
settles (job_processed job) = true
settles (job_failed job error) = true
settles (job_released job delay_ms error) = true
settles (worker_starting connection queue) = false
settles (worker_stopping connection queue) = false
settles (job_processing job) = false
settles (job_timed_out job error) = false
settles (job_attempted job attempts error) = false

abbrev pub settlements : Result (Unit {0}) → ℕ
settlements (ok _) = 1
settlements (err e) = 0

-- The trace of one attempt: it begins with `job_processing`, ends with `job_attempted`, and
-- settles once if the worker got through and never if a call of the driver rejected.
pub record IsTrace {S : Type 0} (job : Job) (r : Run S) : Type 0 where
  pub middle : List Event
  pub last_error : Option Error
  pub shape :
      r.events ≡ job_processing job ∷ (middle ++ job_attempted job job.attempts last_error ∷ [])
  pub settled : count settles r.events ≡ settlements r.result

module _ {S : Type 0} (connection : Driver S) (policy : WorkerOptions) where
  then_emit_settled :
      (s : S) (job : Job) (error : Error) (timed_out : Bool) (now : ℕ)
      → let r = handle_failure connection policy s job error timed_out now in
        count settles r.events ≡ settlements r.result
  unfolding handle_failure
  then_emit_settled s job error timed_out now = ground arith

  -- What follows `job_processing`.
  abbrev IsTail : Job → Run S → Type 0
  IsTail job r =
      (middle : List Event) × (last_error : Option Error) × (r.events
        ≡ middle ++ job_attempted job job.attempts last_error ∷ [])
      × (count settles r.events ≡ settlements r.result)

  on_error-IsTail :
      (s : S) (job : Job) (error : Error) (now : ℕ)
      → IsTail job (on_error connection policy s job error now)
  unfolding on_error
  on_error-IsTail s job error now = elim (Bool-cases (is_timeout error)) [
    | inl e ↦ rw e (
      job_timed_out job error ∷ inner true,
      some error,
      refl,
      ground (
        arith,
        then_emit_settled s job error true now,
        count-append settles (inner true) (last ∷ []),
      ),
    )
    | inr e ↦ rw e (
      inner false,
      some error,
      refl,
      ground (
        arith,
        then_emit_settled s job error false now,
        count-append settles (inner false) (last ∷ []),
      ),
    )
  ]
    where
      inner : Bool → List Event
      inner timed_out = (handle_failure connection policy s job error timed_out now).events

      last : Event
      last = job_attempted job job.attempts (some error)

  on_success-IsTail :
      (p : S × Result (Unit {0})) (job : Job) (now : ℕ)
      → IsTail job (on_success connection policy p job now)
  on_success-IsTail (s, ok _) job now = (job_processed job ∷ [], none, refl, refl)
  on_success-IsTail (s, err e) job now = on_error-IsTail s job e now

  after_race-IsTail :
      (s : S) (job : Job) (r : Result (Unit {0})) (now : ℕ)
      → IsTail job (after_race connection policy s job r now)
  after_race-IsTail s job (ok _) now = on_success-IsTail (connection.remove s job.id) job now
  after_race-IsTail s job (err e) now = on_error-IsTail s job e now

  -- The events of an attempt, for every driver, race and policy: `job_processing` first,
  -- `job_attempted` last, and in all exactly one of `job_processed`, `job_failed` and
  -- `job_released` if the attempt got through, none if a call of the driver rejected it.
  pub handle-IsTrace :
      (s : S) (job : Job) (race : Race) (now : ℕ)
      → IsTrace job (handle connection policy s job race now)
  unfolding handle
  handle-IsTrace s job race now =
      let (middle, last_error, shape, settled) =
        after_race-IsTail s job (run_with_timeout job race) now in
      record {
        middle = middle;
        last_error = last_error;
        shape = ap (◌∷◌ (job_processing job)) shape;
        settled = settled;
      }
