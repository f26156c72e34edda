-- ===== src/Worker.antt =====
-- src/services/worker.service.ts: how a worker runs one job. The race of the processor against
-- the timer is an argument; events are the list of what is emitted, in order. An event carries
-- the job as it was popped.
pub mod Trace
pub mod Rounds
pub mod Failing
pub mod Retry
pub mod Loop
pub mod Weights
pub mod Held
pub mod Pool
pub mod Drain
use ts_queue.Backoff.{compute_backoff}
use ts_queue.Driver.{Driver}
use ts_queue.Errors.{
  Error, max_attempts_exceeded_error, timeout_exceeded_error, message, is_timeout, Result, ok, err,
}
use ts_queue.Job.{Job, JobStatus, failed}
use ts_queue.Prelude.{
  ℕ, ◌+◌, String, Bool, true, false, ◌&&◌, ◌||◌, List, [], ◌∷◌, ◌++◌, Option, none, some, leb,
  if◌then◌else◌,
}

-- `Required<IWorkerOptions>`.
pub record WorkerOptions : Type 0 where
  pub tries : ℕ
  pub backoff_ms : ℕ
  pub max_backoff_ms : ℕ
  pub timeout_ms : ℕ
  pub poll_interval_ms : ℕ
  pub auto_start : Bool
  pub fail_on_timeout : Bool

-- The members of `QUEUE_EVENTS` that the program emits, with their payloads.
pub data Event : Type 0 where
  worker_starting : String → String → Event
  worker_stopping : String → String → Event
  job_processing : Job → Event
  job_processed : Job → Event
  job_timed_out : Job → Error → Event
  job_failed : Job → Error → Event
  job_released : Job → ℕ → Error → Event
  job_attempted : Job → ℕ → Option Error → Event

-- What settles first: the processor with its result, or the timer after so many milliseconds.
pub data Race : Type 0 where
  processor_first : Result (Unit {0}) → Race
  timer_first : ℕ → Race

-- What is outside the worker in one tick: the race of the job that it may find, how long that takes,
-- and how late the timer of the next tick fires.
pub record Round : Type 0 where
  pub race : Race
  pub takes_ms : ℕ
  pub late_ms : ℕ

unfoldable pub run_with_timeout : Job → Race → Result (Unit {0})
run_with_timeout job (processor_first r) = r
run_with_timeout job (timer_first elapsed) =
    err (timeout_exceeded_error job.id elapsed job.timeout_ms)

-- The new state, the events and the result of a method.
pub record Run (S : Type 0) : Type 0 where
  pub state : S
  pub events : List Event
  pub result : Result (Unit {0})

-- `shouldFailNow`.
unfoldable pub should_fail_now : WorkerOptions → Job → Bool → Bool
should_fail_now policy job timed_out =
    (timed_out && policy.fail_on_timeout) || leb job.max_attempts job.attempts

-- `finalError`.
unfoldable pub final_error : WorkerOptions → Job → Error → Bool → Error
final_error policy job error timed_out =
    if timed_out && policy.fail_on_timeout
    then error
    else max_attempts_exceeded_error job.id job.attempts error

-- `delayMs` of a release.
unfoldable pub retry_delay_ms : WorkerOptions → Job → ℕ
unfolding compute_backoff
retry_delay_ms policy job = compute_backoff (job.attempts + 1) job.backoff_ms policy.max_backoff_ms

module _ {S : Type 0} (connection : Driver S) (policy : WorkerOptions) where
  -- An event follows a call only if the call did not reject.
  abbrev then_emit : S × Result (Unit {0}) → Event → Run S
  then_emit (s, ok _) event = record { state = s; events = event ∷ []; result = ok tt }
  then_emit (s, err e) event = record { state = s; events = []; result = err e }

  unfoldable pub handle_failure : S → Job → Error → Bool → ℕ → Run S
  unfolding should_fail_now final_error retry_delay_ms message
  handle_failure s job error timed_out now =
      if should_fail_now policy job timed_out
      then then_emit
          (connection.fail s job.id (message (final_error policy job error timed_out)) now)
          (job_failed (record job { status = failed }) (final_error policy job error timed_out))
      else then_emit (connection.release s job.id (retry_delay_ms policy job) now)
          (job_released job (retry_delay_ms policy job) error)

  -- The `catch` block, with what `finally` emits.
  unfoldable pub on_error : S → Job → Error → ℕ → Run S
  unfolding handle_failure is_timeout
  on_error s job error now =
      let timed_out = is_timeout error in
      let r = handle_failure s job error timed_out now in
      record {
        state = r.state;
        events =
            (if timed_out then job_timed_out job error ∷ [] else [])
            ++ (r.events ++ job_attempted job job.attempts (some error) ∷ []);
        result = r.result;
      }

  -- The `try` block after the processor returned: an error of `remove` is caught too.
  abbrev on_success : S × Result (Unit {0}) → Job → ℕ → Run S
  on_success (s, ok _) job now = record {
    state = s;
    events = job_processed job ∷ job_attempted job job.attempts none ∷ [];
    result = ok tt;
  }
  on_success (s, err e) job now = on_error s job e now

  abbrev after_race : S → Job → Result (Unit {0}) → ℕ → Run S
  after_race s job (ok _) now = on_success (connection.remove s job.id) job now
  after_race s job (err e) now = on_error s job e now

  unfoldable pub handle : S → Job → Race → ℕ → Run S
  unfolding run_with_timeout on_error
  handle s job race now =
      let r = after_race s job (run_with_timeout job race) now in
      record r { events = job_processing job ∷ r.events }

  -- What a tick leaves: the state, its events, the time at which it ends, and the delay of the next
  -- tick, which is only scheduled while the worker runs.
  pub record Tick : Type 0 where
    pub state : S
    pub events : List Event
    pub ended : ℕ
    pub next_delay : ℕ

  -- After `handle`: the next tick follows at once, and later if `handle` rejected.
  abbrev after_handle : Run S → ℕ → Tick
  after_handle r later = record {
    state = r.state;
    events = r.events;
    ended = later;
    next_delay = elim r.result [ ok _ ↦ 0 | err _ ↦ policy.poll_interval_ms ];
  }

  abbrev idle : S → ℕ → Tick
  idle s now = record { state = s; events = []; ended = now; next_delay = policy.poll_interval_ms }

  abbrev after_pop : S × Result (Option Job) → Race → ℕ → ℕ → Tick
  after_pop (s, ok none) race now later = idle s now
  after_pop (s, ok (some job)) race now later = after_handle (handle s job race later) later
  after_pop (s, err e) race now later = idle s now

  -- `pop` reads the clock at `now`; the call that settles the attempt reads it at `later`, after the
  -- race.
  unfoldable pub tick : String → S → Race → ℕ → ℕ → Tick
  unfolding handle
  tick queue s race now later = after_pop (connection.pop s queue now) race now later

  -- The ticks of a worker that runs, the first one at `now`: each one schedules the next, whose timer
  -- fires when its delay is over, or later.
  unfoldable pub ticks : String → S → ℕ → List Round → S × List Event
  unfolding tick
  ticks queue s now [] = (s, [])
  ticks queue s now (round ∷ rest) =
      let t = tick queue s round.race now (now + round.takes_ms) in
      let (s', events) = ticks queue t.state (t.ended + t.next_delay + round.late_ms) rest in
      (s', t.events ++ events)
