-- ===== src/Tests.antt =====
-- Sample jobs and connections, and the theorems applied to them.
mod Dispatches
mod Queues
mod Workers
mod Stores
mod Managers
mod Loaders
mod Instances
mod Modules
mod Pools
mod Drains
mod Decorated
mod Tabbed
use ts_queue.Job.{Job, pending, Dispatch, JobOptions, no_options}
use ts_queue.Jobs.Ids.{IdsDistinct}
use ts_queue.Memory.{MemoryConnection}
use ts_queue.Payload.{null}
use ts_queue.Prelude.{[], ◌∷◌, some, none, refl, text_discrete}

abbrev pub job_a : Job
job_a = record {
  id = "a";
  name = "mail";
  payload = null;
  queue = "default";
  connection = "mem";
  status = pending;
  attempts = 0;
  max_attempts = 2;
  backoff_ms = 100;
  timeout_ms = 30000;
  available_at = 5;
  created_at = 5;
  updated_at = 5;
  tags = [];
  unique_id = none;
  last_error = none;
}

-- Older than `job_a`, but due later, and with a deduplication id.
abbrev pub job_b : Job
job_b = record job_a { id = "b"; created_at = 4; available_at = 9; unique_id = some "k" }

abbrev pub two_jobs : MemoryConnection
two_jobs = record { name = "mem"; jobs = job_a ∷ job_b ∷ []; paused_queues = [] }

pub two_jobs-distinct : IdsDistinct two_jobs.jobs
unfolding text_discrete
two_jobs-distinct = (refl, (refl, tt))

-- A dispatch under the deduplication id of `job_b`.
abbrev pub again_k : Dispatch
again_k = record {
  name = "mail";
  payload = null;
  options = record no_options { unique_for = some 60; unique_id = some "k" };
  now = 10;
  fresh_id = "c";
}
