-- ===== src/Memory/Pop.antt =====
-- What `pop` of the memory driver hands out, and what it changes.
use ts_queue.Base
use ts_queue.Job.{Job, reserved}
use ts_queue.Jobs.{get, modify, reserve}
use ts_queue.Jobs.Ids.{get-modify_self, get-modify_ne, IdsDistinct, modify-IdsDistinct}
use ts_queue.Jobs.Oldest.{IsOldest, Scanned, oldest-Scanned, oldest_none}
use ts_queue.Memory.{MemoryConnection, pop, choose, is_eligible, is_paused}
use ts_queue.Prelude.{
  ℕ, ◌+◌, String, true, false, List, [], ◌∷◌, ◌++◌, Option, none, some, ◌≡◌, ◌≢◌, refl, ap, arith,
  All, Bool-cases, Option-cases, inl, inr, subst, ◌⊎◌, ◌↔◌,
}

get_middle :
    (before after : List Job) (j : Job)
    → IdsDistinct (before ++ j ∷ after)
    → get j.id (before ++ j ∷ after) ≡ some j
get_middle [] after j d = ground arith
get_middle (k ∷ ks) after j d = ground (arith, get_middle ks after j d.1, get_later ks)
  where
    get_later : (l : List Job) → get k.id (l ++ j ∷ after) ≡ none → k.id ≢ j.id
    get_later [] e = ground arith
    get_later (x ∷ xs) e = ground (arith, get_later xs)

-- The two outcomes of `pop`.
pub pop_cases {ℓ} :
    (P : MemoryConnection × Option Job → Type ℓ) (c : MemoryConnection) (queue : String) (now : ℕ)
    → P (c, none)
    → ((n : Job)
        → choose queue now c.jobs ≡ some n
        → P (record c { jobs = modify n.id (reserve now) c.jobs }, some (reserve now n)))
    → P (pop c queue now)
unfolding pop
pop_cases P c queue now idle hand_out = elim (Bool-cases (Base.has queue c.paused_queues)) [
  | inl p ↦ rw (p, pop) idle
  | inr p ↦ elim (Option-cases (choose queue now c.jobs)) [
    | inl e ↦ rw (p, e, pop) idle
    | inr (n, e) ↦ rw (p, e, pop) (hand_out n e)
  ]
]

pub pop-IdsDistinct :
    (c : MemoryConnection) (queue : String) (now : ℕ)
    → IdsDistinct c.jobs
    → IdsDistinct (pop c queue now).0.jobs
pop-IdsDistinct c queue now d =
    pop_cases (λ r. IdsDistinct r.0.jobs) c queue now d
      λ n _. modify-IdsDistinct n.id (reserve now) c.jobs (λ _. refl) d

-- What a `pop` that hands out `job` has done.
pub record Reserves (c : MemoryConnection) (queue : String) (now : ℕ) (c' : MemoryConnection)
    (job : Job) : Type 0 where
  pub source : Job
  pub oldest_due : IsOldest (is_eligible queue now) c.jobs source
  pub same_id : job.id ≡ source.id
  pub is_reserved : job.status ≡ reserved
  pub counted : job.attempts ≡ source.attempts + 1
  pub stored : get job.id c'.jobs ≡ some job
  pub others : (i : String) → i ≢ job.id → get i c'.jobs ≡ get i c.jobs

-- The job that `pop` chooses is in the map, under its own id.
pub choose-IsOldest :
    (queue : String) (now : ℕ) (jobs : List Job) {n : Job}
    → choose queue now jobs ≡ some n
    → IsOldest (is_eligible queue now) jobs n
choose-IsOldest queue now jobs e =
    subst (λ o. Scanned (is_eligible queue now) jobs o) e
      (oldest-Scanned (is_eligible queue now) jobs)

pub get-choose :
    (queue : String) (now : ℕ) (jobs : List Job) {n : Job}
    → IdsDistinct jobs
    → choose queue now jobs ≡ some n
    → get n.id jobs ≡ some n
get-choose queue now jobs {n} d e =
    let old = choose-IsOldest queue now jobs e in
    rw old.split (get_middle old.before old.after n (rw old.split at d))

module _ (c : MemoryConnection) (queue : String) (now : ℕ) where
  -- With distinct ids, a `pop` that hands out a job takes it from a queue that is not paused: it is
  -- the first of the oldest due jobs there, reserved and with one more attempt, and it is stored;
  -- every other job is as before.
  pub pop-Reserves :
      {job : Job}
      → IdsDistinct c.jobs
      → (pop c queue now).1 ≡ some job
      → (is_paused c queue ≡ false) × Reserves c queue now (pop c queue now).0 job
  unfolding pop is_paused
  pop-Reserves {job} d h = elim (Bool-cases (Base.has queue c.paused_queues)) [
    | inl p ↦ absurd (ground arith)
    | inr p ↦ elim (Option-cases (choose queue now c.jobs)) [
      | inl e ↦ absurd (ground arith)
      | inr (n, e) ↦
          let j : reserve now n ≡ job = ground arith in
          (
            p,
            rw (← j, p, e)
                (record {
                  source = n;
                  oldest_due = choose-IsOldest queue now c.jobs e;
                  same_id = refl;
                  is_reserved = refl;
                  counted = refl;
                  stored =
                      get-modify_self n.id (reserve now) (λ _. refl) c.jobs
                        (get-choose queue now c.jobs d e);
                  others = λ i ne. get-modify_ne n.id (reserve now) (λ _. refl) i c.jobs ne;
                }),
          )
    ]
  ]

  -- `pop` hands out nothing and changes nothing exactly if the queue is paused or no job on it is
  -- due.
  pub pop_idle_iff :
      (pop c queue now ≡ (c, none))
      ↔ ((is_paused c queue ≡ true) ⊎ All (λ j. is_eligible queue now j ≡ false) c.jobs)
  unfolding pop is_paused
  pop_idle_iff = (idle, back)
    where
      back :
          (is_paused c queue ≡ true) ⊎ All (λ j. is_eligible queue now j ≡ false) c.jobs
          → pop c queue now ≡ (c, none)
      back (inl p) = rw p
      back (inr a) = ground (arith, oldest_none (is_eligible queue now) none c.jobs a)

      idle :
          pop c queue now ≡ (c, none)
          → (is_paused c queue ≡ true) ⊎ All (λ j. is_eligible queue now j ≡ false) c.jobs
      idle h = elim (Bool-cases (Base.has queue c.paused_queues)) [
        | inl p ↦ inl p
        | inr p ↦ elim (Option-cases (choose queue now c.jobs)) [
          | inl e ↦ inr (
              subst (λ o. Scanned (is_eligible queue now) c.jobs o) e
                (oldest-Scanned (is_eligible queue now) c.jobs))
          | inr (n, e) ↦ absurd (ground (arith, ap (λ (r : MemoryConnection × Option Job). r.1) h))
        ]
      ]
