-- ===== src/Worker/Rounds.antt =====
-- Rounds of attempts that fail, and what they end in.
use ts_queue.Errors.{Error, ok, err, is_timeout, timeout_exceeded_error}
use ts_queue.Job.{Job, failed}
use ts_queue.Memory.{MemoryConnection}
use ts_queue.Prelude.{ℕ, String, Bool, true, false, not, ◌&&◌, List, [], ◌∷◌, ◌≡◌, count}
use ts_queue.Worker.{
  WorkerOptions, Event, worker_starting, worker_stopping, job_processing, job_processed,
  job_timed_out, job_failed, job_released, job_attempted, Race, processor_first, timer_first,
}

-- The attempt fails, and not by a timeout that the policy makes final.
abbrev pub is_retryable : WorkerOptions → Race → Bool
is_retryable policy (processor_first (ok _)) = false
is_retryable policy (processor_first (err e)) = not (is_timeout e && policy.fail_on_timeout)
is_retryable policy (timer_first elapsed) = not policy.fail_on_timeout

-- The error of such an attempt.
abbrev pub error_of : Job → Race → Error
error_of job (processor_first (ok _)) = timeout_exceeded_error job.id 0 0
error_of job (processor_first (err e)) = e
error_of job (timer_first elapsed) = timeout_exceeded_error job.id elapsed job.timeout_ms

-- A memory connection with one job.
abbrev pub single : String → List String → Job → MemoryConnection
single name paused job = record { name = name; jobs = job ∷ []; paused_queues = paused }

abbrev pub is_processing : Event → Bool
is_processing (job_processing job) = true
is_processing (job_processed job) = false
is_processing (job_failed job error) = false
is_processing (job_released job delay_ms error) = false
is_processing (worker_starting connection queue) = false
is_processing (worker_stopping connection queue) = false
is_processing (job_timed_out job error) = false
is_processing (job_attempted job attempts error) = false

abbrev pub is_failure : Event → Bool
is_failure (job_failed job error) = true
is_failure (job_processing job) = false
is_failure (job_processed job) = false
is_failure (job_released job delay_ms error) = false
is_failure (worker_starting connection queue) = false
is_failure (worker_stopping connection queue) = false
is_failure (job_timed_out job error) = false
is_failure (job_attempted job attempts error) = false

-- What a run of failing attempts ends in: the job has used up its attempts and is failed for
-- good, `attempts` attempts were made, and one failure was reported.
pub record Exhausted (name : String) (paused : List String) (job : Job) (attempts : ℕ)
    (r : MemoryConnection × List Event) : Type 0 where
  pub final : Job
  pub state : r.0 ≡ single name paused final
  pub same_id : final.id ≡ job.id
  pub is_failed : final.status ≡ failed
  pub all_attempts : final.attempts ≡ job.max_attempts
  pub processing : count is_processing r.1 ≡ attempts
  pub failures : count is_failure r.1 ≡ 1
