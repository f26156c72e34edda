-- ===== src/Worker/Pool/Invariant.antt =====
-- What holds in every state that the acts lead to.
use ts_queue.Job.{Job, Dispatch, create_queued_job, no_defaults, is_waiting}
use ts_queue.Jobs.{get, put, find_duplicate}
use ts_queue.Jobs.Ids.{get-has_id}
use ts_queue.Jobs.Views.{get-without, get-keep, passed}
use ts_queue.Memory
use ts_queue.Memory.{MemoryConnection, choose}
use ts_queue.Memory.Exclusive.{chosen_waiting}
use ts_queue.Memory.Invariant.{IsValid, step-IsValid}
use ts_queue.Memory.Pop.{get-choose, pop_cases}
use ts_queue.Memory.Steps
use ts_queue.Memory.Steps.{step, pushes, pops}
use ts_queue.Prelude.{
  ℕ, String, Bool, true, List, Option, none, some, ◌≡◌, ◌∙◌, sym, refl, arith, Option-cases, inl,
  inr,
}
use ts_queue.Worker.Pool.{
  Pool, Act, act, IsFresh, Reach, here, next, take, settle, dispatches, takes, settles, removes,
  clears, pauses, resumes,
}
use ts_queue.Worker.Pool.Settle.{handle-Settled}
use ts_queue.Worker.{WorkerOptions, Race}
use ts_queue.Worker.Pool.Ends.{Settled-IsOrderly}
use ts_queue.Worker.Held.{none-IsOrdered}
use ts_queue.Worker.Pool.Order.{IsOrderly, shrink-IsOrderly, store-IsOrderly, take-IsOrderly}

push-IsOrderly :
    (c : MemoryConnection) (held : List Job) (args : Dispatch)
    → get args.fresh_id held ≡ none
    → IsOrderly c held
    → IsOrderly (Memory.push c args).0 held
unfolding Memory.push step create_queued_job
push-IsOrderly c held args free o = elim (Option-cases (find_duplicate job c.jobs)) [
  | inr (k, e) ↦ rw (e, Memory.push) o
  | inl e ↦
      let v : IsValid (record c { jobs = put job c.jobs }) =
        rw (e, Memory.push) at (step-IsValid c (pushes args) tt o.valid) in
      rw (e, Memory.push)
        (store-IsOrderly c held (record c { jobs = put job c.jobs }) job v refl free waits refl o)
]
  where
    job : Job
    job = create_queued_job c.name no_defaults args

    waits : is_waiting job.status ≡ true
    waits = ground arith

pop-IsOrderly :
    (s : Pool) (queue : String) (now : ℕ)
    → IsOrderly s.connection s.held
    → let s' = take s (Memory.pop s.connection queue now) in IsOrderly s'.connection s'.held
unfolding take step
pop-IsOrderly s queue now o =
    pop_cases (λ r. IsValid r.0 → let s' = take s r in IsOrderly s'.connection s'.held) s.connection
      queue now (λ v. o)
      (λ n e v.
        take-IsOrderly s.connection s.held _ n now v refl
          (get-choose queue now s.connection.jobs o.valid.distinct e)
          (chosen_waiting queue now s.connection.jobs e) o)
      (step-IsValid s.connection (pops queue now) tt o.valid)

settle_id-IsOrderly :
    (policy : WorkerOptions) (s : Pool) (id : String) (race : Race) (now : ℕ)
    → IsOrderly s.connection s.held
    → let s' = settle policy s (get id s.held) race now in IsOrderly s'.connection s'.held
unfolding settle
settle_id-IsOrderly policy s id race now o = elim (Option-cases (get id s.held)) [
  | inl e ↦ rw e o
  | inr (h, e) ↦
      let q : get h.id s.held ≡ some h = ground (arith, get-has_id id s.held e) in
      rw e (
        Settled-IsOrderly s.connection s.held h q (handle-Settled policy s.connection h race now) o)
]

passed_inv : (p : Job → Bool) (o : Option Job) (j : Job) → passed p o ≡ some j → o ≡ some j
passed_inv p none j e = ground arith
passed_inv p (some k) j e = ground (arith, e)

act-IsOrderly :
    (policy : WorkerOptions) (s : Pool) (a : Act)
    → IsFresh s a
    → IsOrderly s.connection s.held
    → let s' = act policy s a in IsOrderly s'.connection s'.held
unfolding act step Memory.remove
act-IsOrderly policy s (dispatches args) f o = push-IsOrderly s.connection s.held args f.1 o
act-IsOrderly policy s (takes queue now) f o = pop-IsOrderly s queue now o
act-IsOrderly policy s (settles id race now) f o = settle_id-IsOrderly policy s id race now o
act-IsOrderly policy s (removes id) f o =
    shrink-IsOrderly s.connection s.held _ (step-IsValid s.connection (Steps.removes id) tt o.valid)
      (λ i j e. ground (arith, get-without id s.connection.jobs i, e)) o
act-IsOrderly policy s (clears queue) f o =
    shrink-IsOrderly s.connection s.held _
      (step-IsValid s.connection (Steps.clears queue) tt o.valid)
      (λ i j e.
        passed_inv _ (get i s.connection.jobs) j
          (sym (get-keep _ i s.connection.jobs o.valid.distinct) ∙ e))
      o
act-IsOrderly policy s (pauses queue) f o =
    shrink-IsOrderly s.connection s.held _
      (step-IsValid s.connection (Steps.pauses queue) tt o.valid) (λ i j e. e) o
act-IsOrderly policy s (resumes queue) f o =
    shrink-IsOrderly s.connection s.held _
      (step-IsValid s.connection (Steps.resumes queue) tt o.valid) (λ i j e. e) o

-- In every state that the dispatches, the workers and an operator can reach, in any order of their acts: no two of the
-- held jobs have the same id, a held job is reserved, and what is stored under its id is the same job; a stored job that
-- is reserved is held; and no stored job has more attempts than its `tries`, or than one if that is none, nor as many
-- while it waits. The memory connection keeps its own invariant.
pub Reach-IsOrderly :
    (policy : WorkerOptions) (name : String) {s : Pool}
    → Reach policy name s
    → IsOrderly s.connection s.held
Reach-IsOrderly policy name here = record {
  valid = record { distinct = tt; unique = tt; sound = tt };
  ordered = none-IsOrdered;
}
Reach-IsOrderly policy name (next {s} r a f) =
    act-IsOrderly policy s a f (Reach-IsOrderly policy name r)
