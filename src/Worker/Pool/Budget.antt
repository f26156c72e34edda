-- ===== src/Worker/Pool/Budget.antt =====
-- What the attempts of all workers cost, and what the dispatches pay for.
use ts_queue.Job.{Job, Dispatch, create_queued_job, no_defaults}
use ts_queue.Jobs.{
  get, put, modify, reserve, released, marked_failed, find_duplicate, has_id, in_queue,
}
use ts_queue.Memory
use ts_queue.Memory.{MemoryConnection, choose}
use ts_queue.Memory.Exclusive.{chosen_waiting}
use ts_queue.Memory.Pop.{get-choose, pop_cases}
use ts_queue.Memory.Updates.{release-modify, fail-modify}
use ts_queue.Prelude.{
  ℕ, ◌+◌, ◌≤◌, ◌<◌, String, Bool, not, List, [], ◌∷◌, some, ◌≡◌, sym, subst, arith, keep,
  Bool-cases, Option-cases, inl, inr,
}
use ts_queue.Worker.Pool.{
  Pool, Act, act, Reach, here, next, take, settle, dispatches, takes, settles, removes, clears,
  pauses, resumes,
}
use ts_queue.Worker.Pool.Invariant.{Reach-IsOrderly}
use ts_queue.Worker.Pool.Order.{IsOrderly}
use ts_queue.Worker.Pool.Settle.{Settled, removed, failed_for_good, put_back, handle-Settled}
use ts_queue.Worker.Weights.{allowance, spare}
use ts_queue.Worker.{WorkerOptions, Race}

abbrev pub spare_all : List Job → ℕ
spare_all [] = 0
spare_all (j ∷ js) = spare j + spare_all js

put-spare : (j : Job) (jobs : List Job) → spare_all (put j jobs) ≤ spare j + spare_all jobs
unfolding put
put-spare j [] = omega arith
put-spare j (k ∷ ks) = elim (Bool-cases (has_id j.id k)) [
  | inl e ↦ rw e (omega arith)
  | inr e ↦ rw e (omega (arith, put-spare j ks))
]

keep-spare : (p : Job → Bool) (jobs : List Job) → spare_all (keep p jobs) ≤ spare_all jobs
keep-spare p [] = omega arith
keep-spare p (j ∷ js) = elim (Bool-cases (p j)) [
  | inl e ↦ rw e (omega (arith, keep-spare p js))
  | inr e ↦ rw e (omega (arith, keep-spare p js))
]

modify-spare :
    (i : String) (f : Job → Job) (jobs : List Job)
    → ((j : Job) → spare (f j) ≤ spare j)
    → spare_all (modify i f jobs) ≤ spare_all jobs
unfolding modify
modify-spare i f [] h = omega arith
modify-spare i f (j ∷ js) h = elim (Bool-cases (has_id i j)) [
  | inl e ↦ rw e (omega (arith, h j, modify-spare i f js h))
  | inr e ↦ rw e (omega (arith, modify-spare i f js h))
]

reserve-spare :
    (i : String) (now : ℕ) (jobs : List Job) (n : Job)
    → get i jobs ≡ some n
    → n.attempts < allowance n
    → spare_all (modify i (reserve now) jobs) + 1 ≤ spare_all jobs
unfolding modify
reserve-spare i now [] n e l = ground (arith, e)
reserve-spare i now (j ∷ js) n e l = elim (Bool-cases (has_id i j)) [
  | inl h ↦
      let q : j ≡ n = ground (arith, e, h) in
      let m : j.attempts < allowance j = subst (λ (x : Job). x.attempts < allowance x) (sym q) l in
      rw h (omega (arith, m))
  | inr h ↦ rw h (omega (arith, reserve-spare i now js n (ground (arith, e, h)) l))
]

-- The attempts that were begun and those that are left.
abbrev pub IsPaid : Pool → Type 0
IsPaid s = s.begun + spare_all s.connection.jobs ≤ s.granted

push-IsPaid :
    (c : MemoryConnection) (args : Dispatch)
    → spare_all (Memory.push c args).0.jobs
      ≤ allowance (create_queued_job c.name no_defaults args) + spare_all c.jobs
unfolding Memory.push create_queued_job
push-IsPaid c args = elim (Option-cases (find_duplicate job c.jobs)) [
  | inr (k, e) ↦ rw (e, Memory.push) (omega arith)
  | inl e ↦ rw (e, Memory.push) (omega (arith, put-spare job c.jobs))
]
  where
    job : Job
    job = create_queued_job c.name no_defaults args

pop-IsPaid :
    (s : Pool) (queue : String) (now : ℕ)
    → IsOrderly s.connection s.held
    → IsPaid s
    → IsPaid (take s (Memory.pop s.connection queue now))
unfolding take
pop-IsPaid s queue now o p =
    pop_cases (λ r. IsPaid (take s r)) s.connection queue now p
      λ n e.
        let g = get-choose queue now s.connection.jobs o.valid.distinct e in
        let l = (o.ordered.within n.id n g).1 (chosen_waiting queue now s.connection.jobs e) in
        omega (arith, p, reserve-spare n.id now s.connection.jobs n g l)

Settled-spare :
    {policy : WorkerOptions} {now : ℕ} {m : MemoryConnection} {job : Job} {m' : MemoryConnection}
    → Settled policy now m job m'
    → spare_all m'.jobs ≤ spare_all m.jobs
unfolding Memory.remove
Settled-spare {policy} {now} {m} {job} removed = keep-spare _ m.jobs
Settled-spare {policy} {now} {m} {job} (failed_for_good reason) =
    rw (fail-modify m job.id reason now)
      (modify-spare job.id (marked_failed reason now) m.jobs (λ j. omega arith))
Settled-spare {policy} {now} {m} {job} (put_back delay_ms left late) =
    rw (release-modify m job.id delay_ms now)
      (modify-spare job.id (released delay_ms now) m.jobs (λ j. omega arith))

settle-IsPaid :
    (policy : WorkerOptions) (s : Pool) (id : String) (race : Race) (now : ℕ)
    → IsPaid s
    → IsPaid (settle policy s (get id s.held) race now)
unfolding settle
settle-IsPaid policy s id race now p = elim (Option-cases (get id s.held)) [
  | inl e ↦ rw e p
  | inr (h, e) ↦
      rw e (omega (arith, p, Settled-spare (handle-Settled policy s.connection h race now)))
]

act-IsPaid :
    (policy : WorkerOptions) (s : Pool) (a : Act)
    → IsOrderly s.connection s.held
    → IsPaid s
    → IsPaid (act policy s a)
unfolding act Memory.remove Memory.clear
act-IsPaid policy s (dispatches args) o p = omega (arith, p, push-IsPaid s.connection args)
act-IsPaid policy s (takes queue now) o p = pop-IsPaid s queue now o p
act-IsPaid policy s (settles id race now) o p = settle-IsPaid policy s id race now p
act-IsPaid policy s (removes id) o p =
    omega (arith, p, keep-spare (λ j. not (has_id id j)) s.connection.jobs)
act-IsPaid policy s (clears queue) o p =
    omega (arith, p, keep-spare (λ j. not (in_queue queue j)) s.connection.jobs)
act-IsPaid policy s (pauses queue) o p = p
act-IsPaid policy s (resumes queue) o p = p

-- In every state that the dispatches, the workers and an operator can reach, in any order of their acts, the attempts
-- that were begun and those that the stored jobs have left are together at most the attempts that the dispatches ask
-- for.
pub Reach-IsPaid :
    (policy : WorkerOptions) (name : String) {s : Pool} → Reach policy name s → IsPaid s
Reach-IsPaid policy name here = omega arith
Reach-IsPaid policy name (next {s} r a f) =
    act-IsPaid policy s a (Reach-IsOrderly policy name r) (Reach-IsPaid policy name r)
