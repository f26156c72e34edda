-- ===== src/IndexedDb/Agreement.antt =====
-- The IndexedDB driver, its transactions not interleaved, against the memory driver.
use ts_queue.Base
use ts_queue.Base.{has-add, has-delete}
use ts_queue.Job.{Job, JobStatus, same_status, is_in_flight}
use ts_queue.Jobs.{modify, without, is_due, reserve, released, marked_failed, in_queue}
use ts_queue.Jobs.Ids.{KeepsId, IdsDistinct, modify-IdsDistinct, keep-IdsDistinct}
use ts_queue.Jobs.Queues.{oldest-keep, count-keep}
use ts_queue.IndexedDb
use ts_queue.IndexedDb.{IndexedDbConnection, put_record, is_paused}
use ts_queue.Memory
use ts_queue.Memory.{MemoryConnection, choose, is_eligible}
use ts_queue.Memory.Pop.{get-choose, pop-IdsDistinct}
use ts_queue.Memory.Steps.{
  Call, pushes, pops, removes, releases, fails, clears, closes, pauses, resumes,
}
use ts_queue.Memory.Steps
use ts_queue.Prelude.{
  ℕ, String, Bool, true, false, ap, not, All, same, if◌then◌else◌, List, [], ◌∷◌, Option, none, ◌≡◌,
  refl, sym, arith, keep, Bool-cases, Option-cases, inl, inr,
}
use ts_queue.IndexedDb.Records.{put_record-modify, mutate-modify}
use ts_queue.Memory.Updates.{release-modify, fail-modify}

-- The database holds the jobs of the memory driver, in the same order, and the same queues are
-- paused.
pub record Shows (c : IndexedDbConnection) (m : MemoryConnection) : Type 0 where
  pub same_jobs : c.jobs ≡ m.jobs
  pub same_paused : (q : String) → is_paused c q ≡ Base.has q m.paused_queues

-- The calls of a worker and of an operator: no new job, and the database stays open.
abbrev pub IsSettling : Call → Type 0
IsSettling (pushes args) = ⊥
IsSettling closes = ⊥
IsSettling (pops queue now) = Unit
IsSettling (removes id) = Unit
IsSettling (releases id delay_ms now) = Unit
IsSettling (fails id reason now) = Unit
IsSettling (clears queue) = Unit
IsSettling (pauses queue) = Unit
IsSettling (resumes queue) = Unit

module _ {c : IndexedDbConnection} {m : MemoryConnection} (v : Shows c m) where
  modify-Shows :
      (id : String) (f : Job → Job)
      → KeepsId f
      → Shows (IndexedDb.mutate c id f) (record m { jobs = modify id f m.jobs })
  unfolding is_paused
  modify-Shows id f keeps =
      rw (mutate-modify c id f keeps)
        (record { same_jobs = ap (modify id f) v.same_jobs; same_paused = v.same_paused })

  same-choice : (queue : String) (now : ℕ) → IndexedDb.scan c queue now ≡ choose queue now m.jobs
  unfolding IndexedDb.scan
  same-choice queue now =
      rw v.same_jobs (sym (oldest-keep (in_queue queue) (is_due now) none m.jobs))

  pop-Shows :
      (queue : String) (now : ℕ)
      → IdsDistinct m.jobs
      → ((IndexedDb.pop c queue now now).1 ≡ (Memory.pop m queue now).1)
        × Shows (IndexedDb.pop c queue now now).0 (Memory.pop m queue now).0
  unfolding IndexedDb.pop Memory.pop IndexedDb.commit is_paused
  pop-Shows queue now d = elim (Bool-cases (Base.has queue m.paused_queues)) [
    | inl p ↦ rw (v.same_paused queue, p, IndexedDb.pop, Memory.pop) (refl, v)
    | inr p ↦ elim (Option-cases (choose queue now m.jobs)) [
      | inl e ↦
          rw (v.same_paused queue, p, same-choice queue now, e, IndexedDb.pop, Memory.pop) (refl, v)
      | inr (n, e) ↦
          rw (v.same_paused queue, p, same-choice queue now, e, IndexedDb.pop, Memory.pop)
            (
              refl,
              record {
                same_jobs = rw v.same_jobs (
                    put_record-modify (reserve now) n.id m.jobs (λ _. refl)
                      (get-choose queue now m.jobs d e));
                same_paused = v.same_paused;
              },
            )
    ]
  ]

  set-Shows :
      (queue : String) (paused : Bool) (queues : List String)
      → ((q : String)
          → Base.has q queues ≡ (if same queue q then paused else Base.has q m.paused_queues))
      → Shows (IndexedDb.write_meta c queue paused) (record m { paused_queues = queues })
  unfolding IndexedDb.write_meta is_paused
  set-Shows queue paused queues h = record {
    same_jobs = v.same_jobs;
    same_paused = λ q. elim (Bool-cases (same queue q)) [
      | inl e ↦ rw (h q, e) refl
      | inr e ↦ rw (h q, e) (v.same_paused q)
    ];
  }

  step-Shows :
      (call : Call)
      → IsSettling call
      → IdsDistinct m.jobs
      → ((IndexedDb.step c call).1 ≡ (Steps.step m call).1)
        × Shows (IndexedDb.step c call).0 (Steps.step m call).0
        × IdsDistinct (Steps.step m call).0.jobs
  unfolding IndexedDb.step Steps.step
  step-Shows (pushes args) a d = absurd a
  step-Shows closes a d = absurd a
  step-Shows (pops queue now) a d =
      let (same_job, shows) = pop-Shows queue now d in
      (same_job, shows, pop-IdsDistinct m queue now d)
  step-Shows (removes id) a d = (
    refl,
    record { same_jobs = ap (without id) v.same_jobs; same_paused = v.same_paused },
    keep-IdsDistinct _ m.jobs d,
  )
  step-Shows (releases id delay_ms now) a d = (
    refl,
    rw (release-modify m id delay_ms now) (modify-Shows id (released delay_ms now) (λ _. refl)),
    rw (release-modify m id delay_ms now)
        (modify-IdsDistinct id (released delay_ms now) m.jobs (λ _. refl) d),
  )
  step-Shows (fails id reason now) a d = (
    refl,
    rw (fail-modify m id reason now) (modify-Shows id (marked_failed reason now) (λ _. refl)),
    rw (fail-modify m id reason now)
        (modify-IdsDistinct id (marked_failed reason now) m.jobs (λ _. refl) d),
  )
  step-Shows (clears queue) a d = (
    refl,
    record {
      same_jobs = ap (keep (λ j. not (in_queue queue j))) v.same_jobs;
      same_paused = v.same_paused;
    },
    keep-IdsDistinct _ m.jobs d,
  )
  step-Shows (pauses queue) a d = (
    refl,
    set-Shows queue true (Base.add queue m.paused_queues)
        (λ q. ground (arith, has-add queue q m.paused_queues)),
    d,
  )
  step-Shows (resumes queue) a d = (
    refl,
    set-Shows queue false (Base.delete queue m.paused_queues)
        (λ q. ground (arith, has-delete queue q m.paused_queues)),
    d,
  )

-- What a history of calls hands out.
unfoldable pub handed_out : IndexedDbConnection → List Call → List (Option Job)
unfolding IndexedDb.step
handed_out c [] = []
handed_out c (call ∷ calls) = let (c', job) = IndexedDb.step c call in job ∷ handed_out c' calls

-- From a database that holds the jobs of a memory connection, in their order and with distinct ids,
-- while the same queues are paused, every history without a `push` and
-- without a `close`, its transactions not interleaved, gets the same jobs from both drivers.
pub settling-agree :
    (calls : List Call) (c : IndexedDbConnection) (m : MemoryConnection)
    → Shows c m
    → IdsDistinct m.jobs
    → All IsSettling calls
    → handed_out c calls ≡ Steps.handed_out m calls
unfolding handed_out Steps.handed_out
settling-agree [] c m v d a = refl
settling-agree (call ∷ calls) c m v d a =
    let (same_job, shows, distinct) = step-Shows v call a.0 d in
    let rest =
      settling-agree calls (IndexedDb.step c call).0 (Steps.step m call).0 shows distinct a.1 in
    cc (same_job, rest)

-- The counts are those of the memory driver.
sizes-agree :
    (c : IndexedDbConnection) (m : MemoryConnection) (queue : String) (status : JobStatus)
    → Shows c m
    → (IndexedDb.size c queue ≡ Memory.size m queue)
      × (IndexedDb.status_size c queue status ≡ Memory.count_by_status m queue status)
unfolding IndexedDb.size IndexedDb.status_size IndexedDb.count_matching Memory.size
    Memory.count_by_status
sizes-agree c m queue status v = rw v.same_jobs (
  sym (count-keep (in_queue queue) (λ j. is_in_flight j.status) m.jobs),
  sym (count-keep (in_queue queue) (λ j. same_status j.status status) m.jobs),
)
