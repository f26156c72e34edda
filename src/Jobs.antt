-- ===== src/Jobs.antt =====
-- A driver's collection of jobs in insertion order, and the scans that the drivers share. A
-- `Map<jobId, IQueuedJob>` is such a list whose ids are distinct: the program only stores a job
-- under its own id.
pub mod Ids
pub mod Views
pub mod Oldest
pub mod Unique
pub mod Queues
use ts_queue.Job.{
  Job, JobStatus, pending, delayed, reserved, failed, same_status, is_waiting, is_in_flight, truthy,
}
use ts_queue.Prelude.{
  ℕ, ◌+◌, String, Bool, true, false, not, ◌&&◌, List, [], ◌∷◌, Option, none, some, ltb, leb, same,
  keep, find, count, if◌then◌else◌,
}

abbrev pub has_id : String → Job → Bool
has_id i j = same j.id i

-- `jobs.get(id)`, and `find` by id.
abbrev pub get : String → List Job → Option Job
get i jobs = find (has_id i) jobs

-- `jobs.set(job.id, job)`: a known id keeps its place.
unfoldable pub put : Job → List Job → List Job
put j [] = j ∷ []
put j (k ∷ ks) = if has_id j.id k then j ∷ ks else k ∷ put j ks

-- `jobs.delete(id)`, and `filter` by id.
abbrev pub without : String → List Job → List Job
without i jobs = keep (λ j. not (has_id i j)) jobs

-- Assignments to the fields of the job with this id.
unfoldable pub modify : String → (Job → Job) → List Job → List Job
modify i f [] = []
modify i f (j ∷ js) = if has_id i j then f j ∷ js else j ∷ modify i f js

-- The job kept after one more eligible job: the first one with the least creation time.
abbrev pub earlier : Option Job → Job → Option Job
earlier none j = some j
earlier (some n) j = if ltb j.created_at n.created_at then some j else some n

-- The loop of `pop`.
unfoldable pub oldest : (Job → Bool) → Option Job → List Job → Option Job
oldest eligible next [] = next
oldest eligible next (j ∷ js) = oldest eligible (if eligible j then earlier next j else next) js

-- Waiting and available.
abbrev pub is_due : ℕ → Job → Bool
is_due now j = is_waiting j.status && leb j.available_at now

-- The assignments of `pop`, `release` and `fail`.
abbrev pub reserve : ℕ → Job → Job
reserve now j = record j { status = reserved; attempts = j.attempts + 1; updated_at = now }

abbrev pub released : ℕ → ℕ → Job → Job
released delay_ms now j = record j {
  status = if ltb 0 delay_ms then delayed else pending;
  available_at = now + delay_ms;
  updated_at = now;
}

abbrev pub marked_failed : String → ℕ → Job → Job
marked_failed reason now j = record j {
  status = failed;
  last_error = some reason;
  updated_at = now;
}

-- In flight under the deduplication id `u`.
abbrev pub is_duplicate : String → Job → Bool
is_duplicate u j = (elim j.unique_id [ none ↦ false | some v ↦ same v u ]) && is_in_flight j.status

-- The scan of `push` for a job in flight with the id of the new one.
unfoldable pub find_duplicate : Job → List Job → Option Job
find_duplicate job jobs = elim (truthy job.unique_id) [
  | none ↦ none
  | some u ↦ find (is_duplicate u) jobs
]

abbrev pub in_queue : String → Job → Bool
in_queue q j = same j.queue q
