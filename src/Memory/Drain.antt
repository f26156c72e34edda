-- ===== src/Memory/Drain.antt =====
-- A queue that is drained at one instant.
use ts_queue.Job.{Job}
use ts_queue.Jobs.{modify, reserve}
use ts_queue.Jobs.Ids.{IdsDistinct, modify-IdsDistinct, All-modify}
use ts_queue.Jobs.Oldest.{IsOldest, Scanned, oldest-Scanned, whole}
use ts_queue.Memory.{MemoryConnection, pop, choose, is_eligible, is_paused}
use ts_queue.Memory.Pop.{choose-IsOldest, get-choose, pop_idle_iff}
use ts_queue.Memory.Sizes.{count-modify}
use ts_queue.Memory.Steps.{Call, pops, step, run, handed_out}
use ts_queue.Prelude.{
  ℕ, zero, suc, ◌≤◌, String, Bool, true, false, List, [], ◌∷◌, ◌++◌, Option, none, some, ◌≡◌, refl,
  arith, All, count, Option-cases, inl, inr, subst, sym,
}

-- So many `pop`s of one queue at one instant.
abbrev pub pop_times : ℕ → String → ℕ → List Call
pop_times zero queue now = []
pop_times (suc n) queue now = pops queue now ∷ pop_times n queue now

-- Every `pop` handed out a job, none created before the one handed out last.
abbrev pub InOrder : ℕ → List (Option Job) → Type 0
InOrder since [] = Unit
InOrder since (none ∷ rest) = ⊥
InOrder since (some j ∷ rest) = (since ≤ j.created_at) × InOrder j.created_at rest

count_zero : (p : Job → Bool) (jobs : List Job) → count p jobs ≡ 0 → All (λ j. p j ≡ false) jobs
count_zero p [] h = tt
count_zero p (j ∷ js) h = ground (arith, count_zero p js)

count_none : (p : Job → Bool) (jobs : List Job) → All (λ j. p j ≡ false) jobs → count p jobs ≡ 0
count_none p [] a = refl
count_none p (j ∷ js) a = ground (arith, count_none p js a.1)

module _ (queue : String) (now : ℕ) where
  abbrev NotBefore : ℕ → List Job → Type 0
  NotBefore since jobs = All (λ k. is_eligible queue now k ≡ true → since ≤ k.created_at) jobs

  reserved_idle : (j : Job) → is_eligible queue now (reserve now j) ≡ false
  reserved_idle j = ground arith

  -- The next job, and what is left to hand out.
  record Next (c : MemoryConnection) (n : ℕ) : Type 0 where
    job : Job
    popped :
        pop c queue now
        ≡ (record c { jobs = modify job.id (reserve now) c.jobs }, some (reserve now job))
    oldest_due : IsOldest (is_eligible queue now) c.jobs job
    left : count (is_eligible queue now) (modify job.id (reserve now) c.jobs) ≡ n
    in_order : NotBefore job.created_at (modify job.id (reserve now) c.jobs)

  pop-Next :
      (c : MemoryConnection) (n : ℕ)
      → IdsDistinct c.jobs
      → is_paused c queue ≡ false
      → count (is_eligible queue now) c.jobs ≡ suc n
      → Next c n
  unfolding pop is_paused
  pop-Next c n d p k = elim (Option-cases (choose queue now c.jobs)) [
    | inl e ↦
        let idle =
          subst (λ o. Scanned (is_eligible queue now) c.jobs o) e
            (oldest-Scanned (is_eligible queue now) c.jobs) in
        absurd (omega (arith, count_none (is_eligible queue now) c.jobs idle))
    | inr (j, e) ↦
        let old = choose-IsOldest queue now c.jobs e in
        let there = get-choose queue now c.jobs d e in
        record {
          job = j;
          popped = rw (p, e, pop) refl;
          oldest_due = old;
          left = ground (
            arith,
            count-modify (is_eligible queue now) j.id (reserve now) c.jobs there,
            reserved_idle j,
            old.is_eligible,
          );
          in_order =
              All-modify _ j.id (reserve now) c.jobs
                (λ i _ _ h. absurd (ground (arith, reserved_idle i)))
                (whole (is_eligible queue now) j c.jobs old);
        }
  ]

  drain_from :
      (n since : ℕ) (c : MemoryConnection)
      → IdsDistinct c.jobs
      → is_paused c queue ≡ false
      → count (is_eligible queue now) c.jobs ≡ n
      → NotBefore since c.jobs
      → InOrder since (handed_out c (pop_times n queue now))
        × (let c' = run c (pop_times n queue now) in pop c' queue now ≡ (c', none))
  unfolding handed_out run step is_paused
  drain_from zero since c d p k later =
      (tt, (pop_idle_iff c queue now).1 (inr (count_zero (is_eligible queue now) c.jobs k)))
  drain_from (suc n) since c d p k later =
      let next = pop-Next c n d p k in
      let rest =
        drain_from n next.job.created_at
          (record c { jobs = modify next.job.id (reserve now) c.jobs })
          (modify-IdsDistinct next.job.id (reserve now) c.jobs (λ _. refl) d) p next.left
          next.in_order in
      let first = since_le c next.oldest_due later in
      subst
        (λ (r : MemoryConnection × Option Job).
          InOrder since (r.1 ∷ handed_out r.0 (pop_times n queue now))
          × (let c' = run r.0 (pop_times n queue now) in pop c' queue now ≡ (c', none)))
        (sym next.popped) ((first, rest.0), rest.1)
    where
      since_le :
          (c : MemoryConnection) {j : Job}
          → IsOldest (is_eligible queue now) c.jobs j
          → NotBefore since c.jobs
          → since ≤ j.created_at
      since_le c {j} old a = middle old.before (subst (NotBefore since) old.split a)
        where
          middle : (l : List Job) → NotBefore since (l ++ j ∷ old.after) → since ≤ j.created_at
          middle [] b = b.0 old.is_eligible
          middle (x ∷ xs) b = middle xs b.1

not_before_zero :
    (queue : String) (now : ℕ) (jobs : List Job)
    → All (λ k. is_eligible queue now k ≡ true → 0 ≤ k.created_at) jobs
not_before_zero queue now [] = tt
not_before_zero queue now (j ∷ js) = ((λ _. omega arith), not_before_zero queue now js)

-- With distinct ids, as many `pop`s at one instant as there are due jobs on a queue that is not paused each hand out
-- a job, in the order of creation, and the next `pop` finds nothing.
pub drain-InOrder :
    (c : MemoryConnection) (queue : String) (now : ℕ)
    → IdsDistinct c.jobs
    → is_paused c queue ≡ false
    → let calls = pop_times (count (is_eligible queue now) c.jobs) queue now in
      let c' = run c calls in InOrder 0 (handed_out c calls) × (pop c' queue now ≡ (c', none))
drain-InOrder c queue now d p =
    drain_from queue now (count (is_eligible queue now) c.jobs) 0 c d p refl
      (not_before_zero queue now c.jobs)
