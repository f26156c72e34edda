-- ===== src/IndexedDb.antt =====
-- src/connections/indexeddb.connection.ts, on an open database. A record's key is its id, and every
-- cursor goes through the records of an index key by id: `jobs` stands in that order. Transactions
-- on one store do not overlap, so each transaction is one step on the state; `pop` is three.
pub mod Records
pub mod Twins
pub mod Pushes
pub mod Same
pub mod Spread
pub mod Kept
pub mod Follows
pub mod History
pub mod Agreement
pub mod Overlap
pub mod Opening
use ts_queue.Job.{
  Job, JobStatus, pending, delayed, reserved, Dispatch, create_queued_job, no_defaults, same_status,
  is_in_flight, truthy,
}
use ts_queue.Jobs.{
  get, put, without, oldest, is_due, reserve, released, marked_failed, is_duplicate, in_queue,
  has_id,
}
use ts_queue.Memory.Steps.{
  Call, pushes, pops, removes, releases, fails, clears, closes, pauses, resumes,
}
use ts_queue.Payload.{text_leb, units}
use ts_queue.Prelude.{
  ℕ, String, Bool, true, false, not, List, [], ◌∷◌, Option, none, some, or_default, is_some, count,
  keep, same, if◌then◌else◌,
}

pub record IndexedDbConnection : Type 0 where
  pub name : String
  pub jobs : List Job  -- the store `jobs:${name}`
  pub meta : String → Option Bool  -- the `paused` of the records of the store `meta:${name}`

-- A new key goes to its place in the order of keys.
unfoldable pub insert_record : Job → List Job → List Job
unfolding text_leb units
insert_record j [] = j ∷ []
insert_record j (k ∷ ks) =
    let rest = insert_record j ks in
    if text_leb (units j.id) (units k.id) then j ∷ k ∷ ks else k ∷ rest

-- `store.put(job)`
unfoldable pub put_record : Job → List Job → List Job
unfolding put insert_record
put_record j jobs = if is_some (get j.id jobs) then put j jobs else insert_record j jobs

-- The cursor of `push` on the index of deduplication ids: the last job in flight.
unfoldable pub last_duplicate : String → Option String → List Job → Option String
last_duplicate u found [] = found
last_duplicate u found (j ∷ js) =
    last_duplicate u (if is_duplicate u j then some j.id else found) js

unfoldable pub push : IndexedDbConnection → Dispatch → IndexedDbConnection × String
unfolding create_queued_job put_record last_duplicate
push c args =
    let job = create_queued_job c.name no_defaults args in
    let inserted : IndexedDbConnection × String =
      (record c { jobs = put_record job c.jobs }, job.id) in
    elim (truthy job.unique_id) [
      | none ↦ inserted
      | some u ↦ elim (truthy (last_duplicate u none c.jobs)) [
        | none ↦ inserted
        | some existing_id ↦ (c, existing_id)
      ]
    ]

unfoldable pub is_paused : IndexedDbConnection → String → Bool
is_paused c queue = or_default (c.meta queue) false

-- The second transaction of `pop`: the cursor on the index of queues.
unfoldable pub scan : IndexedDbConnection → String → ℕ → Option Job
unfolding oldest
scan c queue now = oldest (is_due now) none (keep (in_queue queue) c.jobs)

-- The third: it stores the job as the cursor saw it, with the new status.
unfoldable pub commit : IndexedDbConnection → Job → ℕ → IndexedDbConnection × Job
unfolding put_record
commit c chosen later =
    (record c { jobs = put_record (reserve later chosen) c.jobs }, reserve later chosen)

-- `pop` when no other call's transaction comes between its own; `later` is the clock at the third.
unfoldable pub pop : IndexedDbConnection → String → ℕ → ℕ → IndexedDbConnection × Option Job
unfolding is_paused scan commit
pop c queue now later = if is_paused c queue then (c, none) else elim (scan c queue now) [
  | none ↦ (c, none)
  | some chosen ↦ let (c', job) = commit c chosen later in (c', some job)
]

unfoldable pub count_matching : IndexedDbConnection → String → (Job → Bool) → ℕ
count_matching c queue predicate = count predicate (keep (in_queue queue) c.jobs)

unfoldable pub size : IndexedDbConnection → String → ℕ
unfolding count_matching
size c queue = count_matching c queue λ j. is_in_flight j.status

-- `pendingSize`, `delayedSize` and `reservedSize`.
unfoldable pub status_size : IndexedDbConnection → String → JobStatus → ℕ
unfolding count_matching
status_size c queue status = count_matching c queue λ j. same_status j.status status

unfoldable pub remove : IndexedDbConnection → String → IndexedDbConnection
remove c id = record c { jobs = without id c.jobs }

unfoldable pub mutate : IndexedDbConnection → String → (Job → Job) → IndexedDbConnection
unfolding put_record
mutate c id mutator = elim (get id c.jobs) [
  | none ↦ c
  | some job ↦ record c { jobs = put_record (mutator job) c.jobs }
]

unfoldable pub release : IndexedDbConnection → String → ℕ → ℕ → IndexedDbConnection
unfolding mutate
release c id delay_ms now = mutate c id (released delay_ms now)

unfoldable pub fail : IndexedDbConnection → String → String → ℕ → IndexedDbConnection
unfolding mutate
fail c id reason now = mutate c id (marked_failed reason now)

unfoldable pub clear : IndexedDbConnection → String → IndexedDbConnection
clear c queue = record c { jobs = keep (λ j. not (in_queue queue j)) c.jobs }

unfoldable pub write_meta : IndexedDbConnection → String → Bool → IndexedDbConnection
write_meta c queue paused = record c { meta = λ q. if same queue q then some paused else c.meta q }

unfoldable pub pause : IndexedDbConnection → String → IndexedDbConnection
unfolding write_meta
pause c queue = write_meta c queue true

unfoldable pub resume : IndexedDbConnection → String → IndexedDbConnection
unfolding write_meta
resume c queue = write_meta c queue false

-- The handle is given up; the database keeps what it has.
unfoldable pub close : IndexedDbConnection → IndexedDbConnection
close c = c

-- A call of the driver, with the job that it hands out.
unfoldable pub step : IndexedDbConnection → Call → IndexedDbConnection × Option Job
unfolding push pop remove release fail clear close pause resume
step c (pushes args) = ((push c args).0, none)
step c (pops queue now) = pop c queue now now
step c (removes id) = (remove c id, none)
step c (releases id delay_ms now) = (release c id delay_ms now, none)
step c (fails id reason now) = (fail c id reason now, none)
step c (clears queue) = (clear c queue, none)
step c closes = (close c, none)
step c (pauses queue) = (pause c queue, none)
step c (resumes queue) = (resume c queue, none)
