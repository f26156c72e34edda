-- ===== src/Memory/Invariant.antt =====
-- What holds of the memory driver between any two calls.
use ts_queue.Job.{
  Job, reserved, processing, completed, failed, Dispatch, create_queued_job, no_defaults,
  is_in_flight,
}
use ts_queue.Jobs.{get, modify, reserve, released, marked_failed, find_duplicate}
use ts_queue.Jobs.Ids.{
  IdsDistinct, put-IdsDistinct, keep-IdsDistinct, modify-IdsDistinct, All-modify, All-put, All-keep,
}
use ts_queue.Memory.Pop.{choose-IsOldest, get-choose, pop_cases}
use ts_queue.Jobs.Unique.{
  UniqueInFlight, put-UniqueInFlight, keep-UniqueInFlight, modify-UniqueInFlight,
  find_duplicate-none-All,
}
use ts_queue.Memory.{MemoryConnection, new, push, pop, release, fail, is_eligible}
use ts_queue.Memory.Steps.{
  Call, pushes, pops, removes, releases, fails, clears, closes, pauses, resumes, step, run,
}
use ts_queue.Prelude.{
  ℕ, ◌<◌, String, Bool, true, List, [], ◌∷◌, none, some, ◌≡◌, ◌≢◌, refl, arith, All, keep,
  Option-cases, inl, inr, subst,
}

-- A job as this driver leaves it: it carries the connection's name, only a job that was popped is
-- reserved, a delay or a failure is on record, and the driver never sets the statuses
-- `processing` and `completed`.
pub record IsSound (name : String) (j : Job) : Type 0 where
  pub connected : j.connection ≡ name
  pub popped : j.status ≡ reserved → 0 < j.attempts
  pub explained : j.status ≡ failed → j.last_error ≢ none
  pub not_processing : j.status ≢ processing
  pub not_completed : j.status ≢ completed

pub record IsValid (c : MemoryConnection) : Type 0 where
  pub distinct : IdsDistinct c.jobs
  pub unique : UniqueInFlight c.jobs
  pub sound : All (IsSound c.name) c.jobs

-- A release of a settled job would put it back in flight.
abbrev pub Releasable : List Job → String → Type 0
Releasable jobs id = (j : Job) → get id jobs ≡ some j → is_in_flight j.status ≡ true

-- The worker only releases jobs that it holds.
abbrev pub IsProper : MemoryConnection → Call → Type 0
IsProper c (releases id delay_ms now) = Releasable c.jobs id
IsProper c _ = Unit

create-IsSound :
    (name : String) (args : Dispatch) → IsSound name (create_queued_job name no_defaults args)
unfolding create_queued_job
create-IsSound name args = ground arith

push-IsValid : (c : MemoryConnection) (args : Dispatch) → IsValid c → IsValid (push c args).0
unfolding push
push-IsValid c args v = elim (Option-cases (find_duplicate job c.jobs)) [
  | inr (k, e) ↦ rw (e, push) v
  | inl e ↦
      rw (e, push)
        (record {
          distinct = put-IdsDistinct job c.jobs v.distinct;
          unique = put-UniqueInFlight job c.jobs (find_duplicate-none-All job c.jobs e) v.unique;
          sound = All-put (IsSound c.name) job c.jobs (create-IsSound c.name args) v.sound;
        })
]
  where
    job : Job
    job = create_queued_job c.name no_defaults args

update-IsValid :
    (c : MemoryConnection) (id : String) (f : Job → Job)
    → ((j : Job) → (f j).id ≡ j.id)
    → ((j : Job) → (f j).unique_id ≡ j.unique_id)
    → ((j : Job)
        → get id c.jobs ≡ some j
        → is_in_flight (f j).status ≡ true
        → is_in_flight j.status ≡ true)
    → ((j : Job) → IsSound c.name j → IsSound c.name (f j))
    → IsValid c
    → IsValid (record c { jobs = modify id f c.jobs })
update-IsValid c id f ids uids drops sounds v = record {
  distinct = modify-IdsDistinct id f c.jobs ids v.distinct;
  unique = modify-UniqueInFlight id f c.jobs uids drops v.unique;
  sound = All-modify (IsSound c.name) id f c.jobs (λ j _. sounds j) v.sound;
}

keep-IsValid :
    (c : MemoryConnection) (p : Job → Bool)
    → IsValid c
    → IsValid (record c { jobs = keep p c.jobs })
keep-IsValid c p v = record {
  distinct = keep-IdsDistinct p c.jobs v.distinct;
  unique = keep-UniqueInFlight p c.jobs v.unique;
  sound = All-keep (IsSound c.name) p c.jobs v.sound;
}

waiting_in_flight :
    (queue : String) (now : ℕ) (n j : Job)
    → is_eligible queue now n ≡ true
    → n ≡ j
    → is_in_flight j.status ≡ true
waiting_in_flight queue now n j h e =
    subst (λ (k : Job). is_in_flight k.status ≡ true) e (ground arith)

pop-IsValid :
    (c : MemoryConnection) (queue : String) (now : ℕ) → IsValid c → IsValid (pop c queue now).0
pop-IsValid c queue now v =
    pop_cases (λ r. IsValid r.0) c queue now v
      λ n e.
        update-IsValid c n.id (reserve now) (λ _. refl) (λ _. refl)
          (λ j g _.
            waiting_in_flight queue now n j (choose-IsOldest queue now c.jobs e).is_eligible
              (cc (get-choose queue now c.jobs v.distinct e)))
          (λ j s. ground arith) v

release-IsValid :
    (c : MemoryConnection) (id : String) (delay_ms now : ℕ)
    → Releasable c.jobs id
    → IsValid c
    → IsValid (release c id delay_ms now)
unfolding release
release-IsValid c id delay_ms now r v = elim (Option-cases (get id c.jobs)) [
  | inl e ↦ rw (e, release) v
  | inr (j, e) ↦
      rw (e, release)
        (update-IsValid c id (released delay_ms now) (λ _. refl) (λ _. refl) (λ k g _. r k g)
          (λ k s. ground arith) v)
]

fail-IsValid :
    (c : MemoryConnection) (id reason : String) (now : ℕ)
    → IsValid c
    → IsValid (fail c id reason now)
unfolding fail
fail-IsValid c id reason now v = elim (Option-cases (get id c.jobs)) [
  | inl e ↦ rw (e, fail) v
  | inr (j, e) ↦
      rw (e, fail)
        (update-IsValid c id (marked_failed reason now) (λ _. refl) (λ _. refl) (λ k g h. cc)
          (λ k s. ground arith) v)
]

-- Every call keeps the invariant, provided that a release is of a job in flight.
pub step-IsValid :
    (c : MemoryConnection) (call : Call) → IsProper c call → IsValid c → IsValid (step c call).0
unfolding step
step-IsValid c (pushes args) p v = push-IsValid c args v
step-IsValid c (pops queue now) p v = pop-IsValid c queue now v
step-IsValid c (removes id) p v = keep-IsValid c _ v
step-IsValid c (releases id delay_ms now) p v = release-IsValid c id delay_ms now p v
step-IsValid c (fails id reason now) p v = fail-IsValid c id reason now v
step-IsValid c (clears queue) p v = keep-IsValid c _ v
step-IsValid c closes p v = record { distinct = tt; unique = tt; sound = tt }
step-IsValid c (pauses queue) p v = record {
  distinct = v.distinct;
  unique = v.unique;
  sound = v.sound;
}
step-IsValid c (resumes queue) p v = record {
  distinct = v.distinct;
  unique = v.unique;
  sound = v.sound;
}

-- A history of such calls.
abbrev pub AllProper : MemoryConnection → List Call → Type 0
AllProper c [] = Unit
AllProper c (call ∷ calls) = IsProper c call × AllProper (step c call).0 calls

run-IsValid_from :
    (c : MemoryConnection) (calls : List Call)
    → AllProper c calls
    → IsValid c
    → IsValid (run c calls)
unfolding run
run-IsValid_from c [] p v = v
run-IsValid_from c (call ∷ calls) p v =
    run-IsValid_from (step c call).0 calls p.1 (step-IsValid c call p.0 v)

-- After every history of a new connection in which each release is of a job that is then in
-- flight, ids are distinct, no two jobs in flight share a deduplication id, and each job is sound.
pub run-IsValid :
    (name : String) (calls : List Call)
    → AllProper (new name) calls
    → IsValid (run (new name) calls)
run-IsValid name calls p =
    run-IsValid_from (new name) calls p (record { distinct = tt; unique = tt; sound = tt })
