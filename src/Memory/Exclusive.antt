-- ===== src/Memory/Exclusive.antt =====
-- A job that was handed out is held: no later `pop` hands it out until it is released.
use ts_queue.Job.{Job, Dispatch, create_queued_job, no_defaults, is_waiting}
use ts_queue.Jobs.{get, modify, reserve, released, marked_failed, find_duplicate, has_id}
use ts_queue.Jobs.Ids.{All-modify, All-put, All-keep, get-has_id, IdsDistinct}
use ts_queue.Memory.{MemoryConnection, push, pop, release, fail, choose, is_eligible}
use ts_queue.Memory.Pop.{choose-IsOldest, pop-Reserves, pop-IdsDistinct, pop_cases}
use ts_queue.Memory.Steps.{
  Call, pushes, pops, removes, releases, fails, clears, closes, pauses, resumes, step, handed_out,
}
use ts_queue.Prelude.{
  ℕ, String, true, false, List, [], ◌∷◌, ◌++◌, Option, none, some, ◌≡◌, ◌≢◌, refl, arith, subst,
  All, All-imp, Bool-cases, Option-cases, inl, inr,
}

-- No waiting job has the id.
abbrev Held : String → Job → Type 0
Held id j = j.id ≡ id → is_waiting j.status ≡ false

-- The call neither releases the job nor stores a new job under its id.
abbrev pub Avoids : String → Call → Type 0
Avoids id (pushes args) = args.fresh_id ≢ id
Avoids id (releases i delay_ms now) = i ≢ id
Avoids id _ = Unit

-- Not this job.
abbrev pub NotId : String → Option Job → Type 0
NotId id none = Unit
NotId id (some j) = j.id ≢ id

push-Held :
    (id : String) (c : MemoryConnection) (args : Dispatch)
    → args.fresh_id ≢ id
    → All (Held id) c.jobs
    → All (Held id) (push c args).0.jobs
unfolding push create_queued_job
push-Held id c args ne a = elim (Option-cases (find_duplicate job c.jobs)) [
  | inr (k, e) ↦ rw (e, push) a
  | inl e ↦ rw (e, push) (All-put (Held id) job c.jobs (λ h. absurd (ne h)) a)
]
  where
    job : Job
    job = create_queued_job c.name no_defaults args

update-Held :
    (id i : String) (f : Job → Job) (jobs : List Job)
    → ((j : Job) → get i jobs ≡ some j → Held id j → Held id (f j))
    → All (Held id) jobs
    → All (Held id) (modify i f jobs)
update-Held id i f jobs h a = All-modify (Held id) i f jobs h a

All_middle {κ} :
    (P : Job → Type κ) (before after : List Job) (j : Job) → All P (before ++ j ∷ after) → P j
All_middle P [] after j a = a.0
All_middle P (k ∷ ks) after j a = All_middle P ks after j a.1

pub chosen_waiting :
    (queue : String) (now : ℕ) (jobs : List Job) {n : Job}
    → choose queue now jobs ≡ some n
    → is_waiting n.status ≡ true
chosen_waiting queue now jobs {n} e =
    let due : is_eligible queue now n ≡ true = (choose-IsOldest queue now jobs e).is_eligible in
    ground arith

chosen_not-Held :
    (id queue : String) (now : ℕ) (jobs : List Job) {n : Job}
    → All (Held id) jobs
    → choose queue now jobs ≡ some n
    → n.id ≢ id
chosen_not-Held id queue now jobs {n} a e same_id =
    let old = choose-IsOldest queue now jobs e in
    let held : Held id n =
      All_middle (Held id) old.before old.after n (subst (All (Held id)) old.split a) in
    cc (held same_id, chosen_waiting queue now jobs e)

pop-Held :
    (id : String) (c : MemoryConnection) (queue : String) (now : ℕ)
    → All (Held id) c.jobs
    → NotId id (pop c queue now).1 × All (Held id) (pop c queue now).0.jobs
pop-Held id c queue now a =
    pop_cases (λ r. NotId id r.1 × All (Held id) r.0.jobs) c queue now (tt, a)
      λ n e. (
        (λ q. chosen_not-Held id queue now c.jobs a e (ground arith)),
        update-Held id n.id (reserve now) c.jobs (λ _ _ _ _. refl) a,
      )

release-Held :
    (id : String) (c : MemoryConnection) (i : String) (delay_ms now : ℕ)
    → i ≢ id
    → All (Held id) c.jobs
    → All (Held id) (release c i delay_ms now).jobs
unfolding release
release-Held id c i delay_ms now ne a = elim (Option-cases (get i c.jobs)) [
  | inl e ↦ rw (e, release) a
  | inr (j, e) ↦
      rw (e, release)
        (update-Held id i (released delay_ms now) c.jobs
          (λ k g _ q. absurd (ground (arith, get-has_id i c.jobs g))) a)
]

fail-Held :
    (id : String) (c : MemoryConnection) (i reason : String) (now : ℕ)
    → All (Held id) c.jobs
    → All (Held id) (fail c i reason now).jobs
unfolding fail
fail-Held id c i reason now a = elim (Option-cases (get i c.jobs)) [
  | inl e ↦ rw (e, fail) a
  | inr (j, e) ↦
      rw (e, fail) (update-Held id i (marked_failed reason now) c.jobs (λ _ _ _ _. refl) a)
]

step-Held :
    (id : String) (c : MemoryConnection) (call : Call)
    → Avoids id call
    → All (Held id) c.jobs
    → NotId id (step c call).1 × All (Held id) (step c call).0.jobs
unfolding step
step-Held id c (pushes args) v a = (tt, push-Held id c args v a)
step-Held id c (pops queue now) v a = pop-Held id c queue now a
step-Held id c (removes i) v a = (tt, All-keep (Held id) _ c.jobs a)
step-Held id c (releases i delay_ms now) v a = (tt, release-Held id c i delay_ms now v a)
step-Held id c (fails i reason now) v a = (tt, fail-Held id c i reason now a)
step-Held id c (clears queue) v a = (tt, All-keep (Held id) _ c.jobs a)
step-Held id c closes v a = (tt, tt)
step-Held id c (pauses queue) v a = (tt, a)
step-Held id c (resumes queue) v a = (tt, a)

handed_out_never :
    (id : String) (c : MemoryConnection) (calls : List Call)
    → All (Avoids id) calls
    → All (Held id) c.jobs
    → All (NotId id) (handed_out c calls)
unfolding handed_out
handed_out_never id c [] v a = tt
handed_out_never id c (call ∷ calls) v a =
    let next = step-Held id c call v.0 a in
    (next.0, handed_out_never id (step c call).0 calls v.1 next.1)

-- With distinct ids, one job under the id that waits no more is enough.
distinct-Held :
    (id : String) (jobs : List Job) {j : Job}
    → IdsDistinct jobs
    → get id jobs ≡ some j
    → is_waiting j.status ≡ false
    → All (Held id) jobs
distinct-Held id [] d g w = tt
distinct-Held id (k ∷ ks) {j} d g w = elim (Bool-cases (has_id id k)) [
  | inl e ↦
      let here : k ≡ j = ground arith in
      ((λ _. ground arith), All-imp (λ x ne q. absurd (ne q)) ks (absent ks (ground arith)))
  | inr e ↦ ((λ q. absurd (ground arith)), distinct-Held id ks {j = j} d.1 (ground arith) w)
]
  where
    absent : (l : List Job) → get id l ≡ none → All (λ x. x.id ≢ id) l
    absent [] e = tt
    absent (x ∷ xs) e = ((λ q. absurd (ground arith)), absent xs (ground arith))

-- With distinct ids, after a `pop` has handed out a job, no history that neither releases it nor stores a new job
-- under its id hands it out again.
pub pop_exclusive :
    (c : MemoryConnection) (queue : String) (now : ℕ) (calls : List Call) {job : Job}
    → IdsDistinct c.jobs
    → (pop c queue now).1 ≡ some job
    → All (Avoids job.id) calls
    → All (NotId job.id) (handed_out (pop c queue now).0 calls)
pop_exclusive c queue now calls {job} d h v =
    let r = (pop-Reserves c queue now d h).1 in
    handed_out_never job.id (pop c queue now).0 calls v
      (distinct-Held job.id _ (pop-IdsDistinct c queue now d) r.stored (rw r.is_reserved))
