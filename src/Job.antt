-- ===== src/Job.antt =====
-- Jobs: the fields of `IQueuedJob` and `IJobOptions` that the program uses, and
-- src/utils/create-queued-job.util.ts. The clock's reading and the generated id are arguments.
-- Times and delays are whole milliseconds, not below zero.
use ts_queue.Payload.{Value}
use ts_queue.Prelude.{
  ℕ, ◌+◌, String, Bool, true, false, List, [], Option, none, some, or_default, ltb, if◌then◌else◌,
}
use ts_queue.UniqueId.{compute_unique_id}

-- The members of `JobStatus` that the program names.
pub data JobStatus : Type 0 where
  pending delayed reserved processing completed failed : JobStatus

-- `a === b` on statuses.
abbrev pub same_status : JobStatus → JobStatus → Bool
same_status pending pending = true
same_status delayed delayed = true
same_status reserved reserved = true
same_status processing processing = true
same_status completed completed = true
same_status failed failed = true
same_status _ _ = false

pub record JobOptions : Type 0 where
  pub queue : Option String
  pub delay_ms : Option ℕ
  pub tries : Option ℕ
  pub backoff_ms : Option ℕ
  pub timeout_ms : Option ℕ
  pub unique_for : Option ℕ
  pub unique_id : Option String
  pub tags : Option (List String)
  pub destination : Option String

-- `{}`, also what an omitted `options` argument means.
abbrev pub no_options : JobOptions
no_options = record {
  queue = none;
  delay_ms = none;
  tries = none;
  backoff_ms = none;
  timeout_ms = none;
  unique_for = none;
  unique_id = none;
  tags = none;
  destination = none;
}

-- The fields of `Partial<IWorkerOptions>` that a new job may take.
pub record WorkerDefaults : Type 0 where
  pub tries : Option ℕ
  pub backoff_ms : Option ℕ
  pub timeout_ms : Option ℕ

abbrev pub no_defaults : WorkerDefaults
no_defaults = record { tries = none; backoff_ms = none; timeout_ms = none }

-- `driverMeta` is always `{}` and is left out.
pub record Job : Type 0 where
  pub id : String
  pub name : String
  pub payload : Value
  pub queue : String
  pub connection : String
  pub status : JobStatus
  pub attempts : ℕ
  pub max_attempts : ℕ
  pub backoff_ms : ℕ
  pub timeout_ms : ℕ
  pub available_at : ℕ
  pub created_at : ℕ
  pub updated_at : ℕ
  pub tags : List String
  pub unique_id : Option String
  pub last_error : Option String

abbrev pub default_queue : String
default_queue = "default"

-- `first ?? second ?? fallback`.
abbrev pub resolve : Option ℕ → Option ℕ → ℕ → ℕ
resolve first second fallback = or_default first (or_default second fallback)

unfoldable pub dedup_id : String → Value → JobOptions → Option String
dedup_id name payload options = elim options.unique_for [
  | none ↦ none
  | some _ ↦ some (or_default options.unique_id (compute_unique_id name payload))
]

-- What every driver's `push` is called with, and what the environment answers there.
pub record Dispatch : Type 0 where
  pub name : String
  pub payload : Value
  pub options : JobOptions
  pub now : ℕ  -- Date.now()
  pub fresh_id : String  -- generateJobId()

unfoldable pub create_queued_job : String → WorkerDefaults → Dispatch → Job
unfolding dedup_id
create_queued_job connection defaults args =
    let options = args.options in
    let delay_ms = or_default options.delay_ms 0 in
    record {
      id = args.fresh_id;
      name = args.name;
      payload = args.payload;
      queue = or_default options.queue default_queue;
      connection = connection;
      status = if ltb 0 delay_ms then delayed else pending;
      attempts = 0;
      max_attempts = resolve options.tries defaults.tries 1;
      backoff_ms = resolve options.backoff_ms defaults.backoff_ms 1000;
      timeout_ms = resolve options.timeout_ms defaults.timeout_ms 30000;
      available_at = args.now + delay_ms;
      created_at = args.now;
      updated_at = args.now;
      tags = or_default options.tags [];
      unique_id = dedup_id args.name args.payload options;
      last_error = none;
    }

-- `status === Pending || status === Delayed`.
abbrev pub is_waiting : JobStatus → Bool
is_waiting pending = true
is_waiting delayed = true
is_waiting _ = false

-- `status !== Completed && status !== Failed`.
abbrev pub is_in_flight : JobStatus → Bool
is_in_flight completed = false
is_in_flight failed = false
is_in_flight _ = true

-- `if (uniqueId)`: an absent or empty id is falsy.
abbrev pub truthy : Option String → Option String
truthy none = none
truthy (some String.[]) = none
truthy (some (String.◌∷◌ c s)) = some (String.◌∷◌ c s)
