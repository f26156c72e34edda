-- ===== src/Worker/Failing.antt =====
-- One attempt that fails, of a job that is alone on the memory driver.
use ts_queue.Backoff.Laws.{backoff-le_max}
use ts_queue.Base
use ts_queue.Driver
use ts_queue.Errors.{
  Error, ok, err, is_timeout, max_attempts_exceeded_error, message, timeout_exceeded_error,
}
use ts_queue.Job.{Job, is_waiting}
use ts_queue.Jobs.{reserve, released, marked_failed, is_due}
use ts_queue.Memory.{pop, release, fail}
use ts_queue.Prelude.{
  ℕ, ◌+◌, ◌≤◌, String, true, false, ◌&&◌, List, [], ◌∷◌, none, some, refl, ◌≡◌, suc, ap, arith,
  count, count-append, if◌then◌else◌, leb,
}
use ts_queue.Worker.{
  WorkerOptions, job_attempted, Race, processor_first, timer_first, handle, on_error,
  handle_failure, retry_delay_ms, tick,
}
use ts_queue.Worker.Rounds.{is_retryable, error_of, single, is_processing, is_failure}

module _ (policy : WorkerOptions) (name : String) (paused : List String) where
  -- The job after a failed attempt.
  abbrev pub settled : ℕ → Race → Job → Job
  settled now race job =
      if leb job.max_attempts job.attempts
      then marked_failed
          (message (max_attempts_exceeded_error job.id job.attempts (error_of job race))) now job
      else released (retry_delay_ms policy job) now job

  pop_single :
      (job : Job) (now : ℕ)
      → Base.has job.queue paused ≡ false
      → is_due now job ≡ true
      → pop (single name paused job) job.queue now
        ≡ (single name paused (reserve now job), some (reserve now job))
  unfolding pop
  pop_single job now open_queue due = ground arith

  -- The policy after a failure that the policy does not make final.
  failure_single :
      (job : Job) (error : Error) (now : ℕ)
      → (is_timeout error && policy.fail_on_timeout) ≡ false
      → let r =
          handle_failure Driver.memory policy
            (single name paused job)
            job
            error
            (is_timeout error)
            now in
        (r.state
          ≡ single name paused (
              if leb job.max_attempts job.attempts
              then marked_failed
                  (message (max_attempts_exceeded_error job.id job.attempts error))
                  now
                  job
              else released (retry_delay_ms policy job) now job))
        × (count is_processing r.events ≡ 0)
        × (count is_failure r.events ≡ (if leb job.max_attempts job.attempts then 1 else 0))
  unfolding handle_failure fail release
  failure_single job error now soft = ground arith

  error_single :
      (job : Job) (error : Error) (now : ℕ)
      → (is_timeout error && policy.fail_on_timeout) ≡ false
      → let r = on_error Driver.memory policy (single name paused job) job error now in
        (r.state
          ≡ single name paused (
              if leb job.max_attempts job.attempts
              then marked_failed
                  (message (max_attempts_exceeded_error job.id job.attempts error))
                  now
                  job
              else released (retry_delay_ms policy job) now job))
        × (count is_processing r.events ≡ 0)
        × (count is_failure r.events ≡ (if leb job.max_attempts job.attempts then 1 else 0))
  unfolding on_error
  error_single job error now soft =
      let (state, none_processing, failures) = failure_single job error now soft in
      let r =
        handle_failure Driver.memory policy (single name paused job) job error (is_timeout error)
          now in
      (
        state,
        ground (
          arith,
          none_processing,
          count-append is_processing r.events (job_attempted job job.attempts (some error) ∷ []),
        ),
        ground (
          arith,
          failures,
          count-append is_failure r.events (job_attempted job job.attempts (some error) ∷ []),
        ),
      )

  handle-single :
      (job : Job) (now : ℕ) (race : Race)
      → is_retryable policy race ≡ true
      → let r = handle Driver.memory policy (single name paused job) job race now in
        (r.state ≡ single name paused (settled now race job))
        × (count is_processing r.events ≡ 1)
        × (count is_failure r.events ≡ (if leb job.max_attempts job.attempts then 1 else 0))
  unfolding handle is_timeout
  handle-single job now (processor_first (ok _)) retry = cc
  handle-single job now (processor_first (err e)) retry =
      let (state, processing, failures) = error_single job e now (ground arith) in
      (state, ap suc processing, failures)
  handle-single job now (timer_first elapsed) retry =
      let (state, processing, failures) =
        error_single job (timeout_exceeded_error job.id elapsed job.timeout_ms) now
          (ground arith) in
      (state, ap suc processing, failures)

  -- A due job is tried, and the next tick follows at once.
  pub failing_tick :
      (job : Job) (now later : ℕ) (race : Race)
      → Base.has job.queue paused ≡ false
      → is_due now job ≡ true
      → is_retryable policy race ≡ true
      → let t = tick Driver.memory policy job.queue (single name paused job) race now later in
        (t.state ≡ single name paused (settled later race (reserve now job)))
        × (count is_processing t.events ≡ 1)
        × (count is_failure t.events ≡ (if leb job.max_attempts (job.attempts + 1) then 1 else 0))
        × (later ≤ t.ended)
  unfolding tick
  failing_tick job now later race open_queue due retry =
      let (state, processing, failures) = handle-single (reserve now job) later race retry in
      rw (pop_single job now open_queue due, tick) (state, processing, failures, omega arith)

  pop_early :
      (job : Job) (now : ℕ)
      → is_due now job ≡ false
      → pop (single name paused job) job.queue now ≡ (single name paused job, none)
  unfolding pop
  pop_early job now early = ground arith

  -- A job that is not due is left alone, and the next tick comes after the poll interval.
  pub idle_tick :
      (job : Job) (now later : ℕ) (race : Race)
      → is_due now job ≡ false
      → let t = tick Driver.memory policy job.queue (single name paused job) race now later in
        (t.state ≡ single name paused job)
        × (t.events ≡ [])
        × (t.ended + t.next_delay ≡ now + policy.poll_interval_ms)
  unfolding tick
  idle_tick job now later race early = rw (pop_early job now early, tick) (refl, refl, refl)

  -- A released job is due once the largest backoff has passed.
  pub released_due :
      (job : Job) (now later : ℕ)
      → 1 ≤ job.attempts
      → now + policy.max_backoff_ms ≤ later
      → (is_waiting (released (retry_delay_ms policy job) now job).status ≡ true)
        × ((released (retry_delay_ms policy job) now job).available_at ≤ later)
  unfolding retry_delay_ms
  released_due job now later one late =
      ground (arith, backoff-le_max (job.attempts + 1) job.backoff_ms policy.max_backoff_ms)
