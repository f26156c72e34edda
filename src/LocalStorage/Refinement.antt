-- ===== src/LocalStorage/Refinement.antt =====
-- The local-storage driver against the memory driver.
use mathlib.Core.List.{append-nil}
use ts_queue.Base
use ts_queue.Job.{Job, Dispatch, create_queued_job, no_defaults, is_in_flight}
use ts_queue.Jobs.{get, put, modify, is_due, reserve, find_duplicate, in_queue}
use ts_queue.Jobs.Ids.{IdsDistinct, modify-IdsDistinct, put-IdsDistinct}
use ts_queue.Jobs.Queues.{
  oldest-keep, count-keep, keep-append, put_absent, keep-modify_in, keep-modify_out, OthersClear,
  find_duplicate-keep,
}
use ts_queue.LocalStorage
use ts_queue.LocalStorage.{LocalStorageConnection, read, write}
use ts_queue.LocalStorage.Cells.{IsRoomy, read-write, write-IsRoomy, write-name}
use ts_queue.LocalStorage.Store.{Blob}
use ts_queue.Memory
use ts_queue.Memory.{MemoryConnection, choose, is_eligible}
use ts_queue.Memory.Pop.{get-choose, choose-IsOldest}
use ts_queue.Prelude.{
  ℕ, String, Bool, true, false, List, [], ◌∷◌, ◌++◌, none, some, ◌≡◌, ◌≢◌, refl, sym, ap, arith,
  keep, Bool-cases, Option-cases, inl, inr, ◌∙◌,
}

-- What the tube of a queue holds, seen from the memory driver.
abbrev pub tube : MemoryConnection → String → Blob
tube c q = record { jobs = keep (in_queue q) c.jobs; paused = Base.has q c.paused_queues }

-- The two connections have one name and hold the same jobs and pause flags, queue by queue; the
-- memory driver's ids are distinct, and the browser's store exists and has room.
pub record Sim (c : MemoryConnection) (s : LocalStorageConnection) : Type 0 where
  pub same_name : s.name ≡ c.name
  pub roomy : IsRoomy s
  pub distinct : IdsDistinct c.jobs
  pub same_tubes : (q : String) → read s q ≡ tube c q

module _ {c : MemoryConnection} {s : LocalStorageConnection} (sim : Sim c s) where
  -- A write to one tube follows a change of the memory driver's jobs of that queue.
  pub write-Sim :
      (q : String) (b : Blob) (c' : MemoryConnection)
      → c'.name ≡ c.name
      → IdsDistinct c'.jobs
      → b ≡ tube c' q
      → ((r : String) → r ≢ q → tube c' r ≡ tube c r)
      → Sim c' (write s q b)
  write-Sim q b c' named distinct here others = record {
    same_name = write-name s q b ∙ sim.same_name ∙ sym named;
    roomy = write-IsRoomy s q b sim.roomy;
    distinct = distinct;
    same_tubes = λ r. ground (arith, read-write s q r b sim.roomy, sim.same_tubes r, others r);
  }

  -- An update of one job that leaves its queue alone.
  pub update-Sim :
      (q : String) (n : Job) (f : Job → Job)
      → ((j : Job) → (f j).id ≡ j.id)
      → ((j : Job) → (f j).queue ≡ j.queue)
      → get n.id c.jobs ≡ some n
      → n.queue ≡ q
      → Sim
          (record c { jobs = modify n.id f c.jobs })
          (write s q (record (read s q) { jobs = modify n.id f (read s q).jobs }))
  update-Sim q n f ids queues there here = rw (sim.same_tubes q) (
      write-Sim q _ (record c { jobs = modify n.id f c.jobs }) refl
        (modify-IdsDistinct n.id f c.jobs ids sim.distinct)
        (ground
          (arith, keep-modify_in (in_queue q) n.id f (λ j. ground (arith, queues j)) c.jobs there))
        (λ r ne. ground (
          arith,
          keep-modify_out (in_queue r) n.id f (λ j. ground (arith, queues j)) c.jobs there,
        )))

  chosen_queue : (q : String) (now : ℕ) {n : Job} → choose q now c.jobs ≡ some n → n.queue ≡ q
  chosen_queue q now {n} e =
      let due : is_eligible q now n ≡ true = (choose-IsOldest q now c.jobs e).is_eligible in
      ground arith

  pub pop-Sim :
      (q : String) (now : ℕ)
      → ((LocalStorage.pop s q now).1 ≡ (Memory.pop c q now).1)
        × Sim (Memory.pop c q now).0 (LocalStorage.pop s q now).0
  unfolding LocalStorage.pop Memory.pop
  pop-Sim q now = elim (Bool-cases (Base.has q c.paused_queues)) [
    | inl p ↦ rw (sim.same_tubes q, p) (refl, sim)
    | inr p ↦ elim (Option-cases (choose q now c.jobs)) [
      | inl e ↦
          let e' = sym (oldest-keep (in_queue q) (is_due now) none c.jobs) ∙ e in
          rw (sim.same_tubes q, p, e, e') (refl, sim)
      | inr (n, e) ↦
          let e' = sym (oldest-keep (in_queue q) (is_due now) none c.jobs) ∙ e in
          rw (sim.same_tubes q, p, e, e')
            (
              refl,
              update-Sim q n (reserve now) (λ _. refl) (λ _. refl)
                  (get-choose q now c.jobs sim.distinct e) (chosen_queue q now e),
            )
    ]
  ]

  store_job-Sim :
      (job : Job)
      → OthersClear job c.jobs
      → get job.id c.jobs ≡ none
      → ((LocalStorage.store_job s job).1
          ≡ (elim (find_duplicate job c.jobs) [ some k ↦ k.id | none ↦ job.id ]))
        × Sim
            (elim (find_duplicate job c.jobs) [
              | some k ↦ c
              | none ↦ record c { jobs = put job c.jobs }
            ])
            (LocalStorage.store_job s job).0
  unfolding LocalStorage.store_job
  store_job-Sim job clear fresh = elim (Option-cases (find_duplicate job c.jobs)) [
    | inr (k, e) ↦
        let e' = sym (find_duplicate-keep job c.jobs clear) ∙ e in
        rw (LocalStorage.store_job, sim.same_tubes job.queue, e, e') (refl, sim)
    | inl e ↦
        let e' = sym (find_duplicate-keep job c.jobs clear) ∙ e in
        rw (LocalStorage.store_job, sim.same_tubes job.queue, e, e')
          (
            refl,
            rw (put_absent job c.jobs fresh) (
                write-Sim job.queue _ (record c { jobs = c.jobs ++ job ∷ [] }) refl
                  (rw (put_absent job c.jobs fresh) at (put-IdsDistinct job c.jobs sim.distinct))
                  (ground (
                    arith,
                    sim.same_tubes job.queue,
                    keep-append (in_queue job.queue) c.jobs (job ∷ []),
                  ))
                  (λ r ne. ground (
                    arith,
                    keep-append (in_queue r) c.jobs (job ∷ []),
                    append-nil (keep (in_queue r) c.jobs),
                  ))),
          )
  ]

  pub push-Sim :
      (args : Dispatch)
      → OthersClear (create_queued_job c.name no_defaults args) c.jobs
      → get args.fresh_id c.jobs ≡ none
      → ((LocalStorage.push s args).1 ≡ (Memory.push c args).1)
        × Sim (Memory.push c args).0 (LocalStorage.push s args).0
  unfolding LocalStorage.push Memory.push create_queued_job
  push-Sim args clear fresh =
      let job = create_queued_job c.name no_defaults args in
      let built : create_queued_job s.name no_defaults args ≡ job =
        ap (λ n. create_queued_job n no_defaults args) sim.same_name in
      rw built (elim (Option-cases (find_duplicate job c.jobs)) [
        | inl e ↦ rw (e, Memory.push) (rw e at (store_job-Sim job clear fresh))
        | inr (k, e) ↦ rw (e, Memory.push) (rw e at (store_job-Sim job clear fresh))
      ])

  -- The pause flag of one tube.
  flag-Sim :
      (q : String) (b : Bool) (ps : List String)
      → Base.has q ps ≡ b
      → ((r : String) → r ≢ q → Base.has r ps ≡ Base.has r c.paused_queues)
      → Sim (record c { paused_queues = ps }) (write s q (record (read s q) { paused = b }))
  flag-Sim q b ps here others =
      write-Sim q _ (record c { paused_queues = ps }) refl sim.distinct
        (ground (arith, sim.same_tubes q)) (λ r ne. ground (arith, others r))

  pub pause-Sim : (q : String) → Sim (Memory.pause c q) (LocalStorage.pause s q)
  unfolding LocalStorage.pause Memory.pause
  pause-Sim q =
      flag-Sim q true (Base.add q c.paused_queues)
        (ground (arith, Base.has-add q q c.paused_queues))
        (λ r ne. ground (arith, Base.has-add q r c.paused_queues))

  pub resume-Sim : (q : String) → Sim (Memory.resume c q) (LocalStorage.resume s q)
  unfolding LocalStorage.resume Memory.resume
  resume-Sim q =
      flag-Sim q false (Base.delete q c.paused_queues)
        (ground (arith, Base.has-delete q q c.paused_queues))
        (λ r ne. ground (arith, Base.has-delete q r c.paused_queues))

  pub size-Sim : (q : String) → LocalStorage.size s q ≡ Memory.size c q
  unfolding LocalStorage.size Memory.size
  size-Sim q =
      ground (arith, sim.same_tubes q, count-keep (in_queue q) (λ j. is_in_flight j.status) c.jobs)
