-- ===== src/IndexedDb/Overlap.antt =====
-- Two `pop`s of the IndexedDB driver whose transactions overlap.
use ts_queue.IndexedDb.{IndexedDbConnection, insert_record, put_record, scan, commit, step}
use ts_queue.Job.{Job, reserved}
use ts_queue.Jobs.{get, reserve}
use ts_queue.Jobs.Ids.{get-put_self}
use ts_queue.Memory.Steps.{Call}
use ts_queue.Prelude.{
  ℕ, String, List, [], ◌∷◌, none, some, ◌≡◌, refl, arith, Option-cases, inl, inr,
}

get-insert_self :
    (j : Job) (jobs : List Job) → get j.id jobs ≡ none → get j.id (insert_record j jobs) ≡ some j
unfolding insert_record
get-insert_self j [] h = ground arith
get-insert_self j (k ∷ ks) h = ground (arith, get-insert_self j ks)

get-put_record_self : (j : Job) (jobs : List Job) → get j.id (put_record j jobs) ≡ some j
unfolding put_record
get-put_record_self j jobs = elim (Option-cases (get j.id jobs)) [
  | inl e ↦ rw (e, put_record) (get-insert_self j jobs e)
  | inr (k, e) ↦ rw (e, put_record) (get-put_self j jobs)
]

-- The state after the transactions of a history of calls.
unfoldable pub run : IndexedDbConnection → List Call → IndexedDbConnection
unfolding step
run c [] = c
run c (call ∷ calls) = run (step c call).0 calls

-- If two `pop`s scan a queue in the same state, at one instant, and each finds a job, then both hand
-- out one id with one count of attempts, whatever calls come between the two commits, and the
-- second one stores the job as reserved, even if a call between had removed it.
pub overlapping_pops :
    (c : IndexedDbConnection) (queue : String) (now later latest : ℕ) (between : List Call)
    {first second : Job}
    → scan c queue now ≡ some first
    → scan c queue now ≡ some second
    → let (c', job) = commit c first later in
      let (c'', again) = commit (run c' between) second latest in
      (again.id ≡ job.id)
      × (again.attempts ≡ job.attempts)
      × (get job.id c''.jobs ≡ some again)
      × (again.status ≡ reserved)
unfolding commit
overlapping_pops c queue now later latest between {first} {second} f s =
    let e : first ≡ second = ground arith in
    rw (← e) (
      refl,
      refl,
      get-put_record_self (reserve latest first) (run (commit c first later).0 between).jobs,
      refl,
    )
