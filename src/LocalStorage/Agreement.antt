-- ===== src/LocalStorage/Agreement.antt =====
-- Whole histories: the local-storage driver hands out what the memory driver hands out.
use ts_queue.Base
use ts_queue.Job.{Job, create_queued_job, no_defaults}
use ts_queue.Jobs.{get, without, modify, released, marked_failed, in_queue}
use ts_queue.Jobs.Ids.{KeepsId, keep-IdsDistinct, get-has_id, get-keep-none}
use ts_queue.Jobs.Queues.{
  OthersClear, keep-drop_in, keep-drop_out, keep-without, without_absent, get-keep_in, get-keep_out,
}
use ts_queue.LocalStorage
use ts_queue.LocalStorage.{LocalStorageConnection, read, write, update_in, list_queues}
use ts_queue.LocalStorage.Cells.{read-clear, clear-IsRoomy, clear-name}
use ts_queue.LocalStorage.Refinement.{
  Sim, write-Sim, update-Sim, pop-Sim, push-Sim, pause-Sim, resume-Sim,
}
use ts_queue.LocalStorage.Steps
use ts_queue.LocalStorage.Tubes.{AcceptsPrefix, has-list_queues, update_in-write, update_in_absent}
use ts_queue.Memory
use ts_queue.Memory.{MemoryConnection}
use ts_queue.Memory.Steps.{
  Call, pushes, pops, removes, releases, fails, clears, closes, pauses, resumes, step, handed_out,
}
use ts_queue.Prelude.{
  ℕ, String, Bool, false, List, [], ◌∷◌, none, some, ◌≡◌, refl, sym, ◌∙◌, subst, arith, keep, same,
  Option-cases, inl, inr, if◌then◌else◌,
}

-- The calls on which the two drivers agree: a new job has a fresh id and shares no deduplication
-- id with a job in flight on another queue, only a queue that is not paused is cleared, and the
-- connection is not closed.
abbrev pub Agrees : MemoryConnection → Call → Type 0
Agrees c (pushes args) =
    OthersClear (create_queued_job c.name no_defaults args) c.jobs
    × (get args.fresh_id c.jobs ≡ none)
Agrees c (clears queue) = Base.has queue c.paused_queues ≡ false
Agrees c closes = ⊥
Agrees c (pops queue now) = Unit
Agrees c (removes id) = Unit
Agrees c (releases id delay_ms now) = Unit
Agrees c (fails id reason now) = Unit
Agrees c (pauses queue) = Unit
Agrees c (resumes queue) = Unit

abbrev pub AllAgree : MemoryConnection → List Call → Type 0
AllAgree c [] = Unit
AllAgree c (call ∷ calls) = Agrees c call × AllAgree (step c call).0 calls

module _ (starts_with : String → String → Bool) (accepts : AcceptsPrefix starts_with)
    {c : MemoryConnection} {s : LocalStorageConnection} (sim : Sim c s) where
  absent-tubes : (id : String) → get id c.jobs ≡ none → (q : String) → get id (read s q).jobs ≡ none
  absent-tubes id h q = rw (sim.same_tubes q) (get-keep-none (in_queue q) id c.jobs h)

  -- The job under an id is in the tube of its queue and in no other.
  located :
      (id : String) {j : Job}
      → get id c.jobs ≡ some j
      → (q : String) → get id (read s q).jobs ≡ (if same q j.queue then some j else none)
  located id {j} h q = rw (sim.same_tubes q) (
      ground (
        arith,
        get-keep_in (in_queue q) id c.jobs h,
        get-keep_out (in_queue q) id c.jobs sim.distinct h,
      ))

  -- The loop over the tubes rewrites that tube.
  reaches :
      (id : String) (f : List Job → List Job) {j : Job}
      → get id c.jobs ≡ some j
      → update_in starts_with (list_queues starts_with s) s id f
        ≡ write s j.queue (record (read s j.queue) { jobs = f (read s j.queue).jobs })
  reaches id f {j} h =
      update_in-write starts_with s id f j.queue j (list_queues starts_with s) (located id h) (
        has-list_queues starts_with s j.queue id {j = j} accepts
          (ground (arith, located id h j.queue)))

  modify-Sim :
      (id : String) (f : Job → Job) {j : Job}
      → KeepsId f
      → ((k : Job) → (f k).queue ≡ k.queue)
      → get id c.jobs ≡ some j
      → Sim
          (record c { jobs = modify id f c.jobs })
          (update_in starts_with (list_queues starts_with s) s id (modify id f))
  modify-Sim id f {j} ids queues h =
      let e : j.id ≡ id = get-has_id id c.jobs h in
      rw (reaches id (modify id f) h) (
        subst
          (λ i.
            Sim (record c { jobs = modify i f c.jobs })
              (write s j.queue
                (record (read s j.queue) { jobs = modify i f (read s j.queue).jobs })))
          e
          (update-Sim sim j.queue j f ids queues (subst (λ i. get i c.jobs ≡ some j) (sym e) h)
            refl))

  release-Sim :
      (id : String) (delay_ms now : ℕ)
      → Sim (Memory.release c id delay_ms now) (LocalStorage.release starts_with s id delay_ms now)
  unfolding Memory.release LocalStorage.release
  release-Sim id delay_ms now = elim (Option-cases (get id c.jobs)) [
    | inl e ↦
        rw
          (
            e,
            Memory.release,
            update_in_absent starts_with s id (modify id (released delay_ms now))
                (list_queues starts_with s) (absent-tubes id e),
          )
          sim
    | inr (j, e) ↦
        rw (e, Memory.release) (modify-Sim id (released delay_ms now) (λ _. refl) (λ _. refl) e)
  ]

  fail-Sim :
      (id reason : String) (now : ℕ)
      → Sim (Memory.fail c id reason now) (LocalStorage.fail starts_with s id reason now)
  unfolding Memory.fail LocalStorage.fail
  fail-Sim id reason now = elim (Option-cases (get id c.jobs)) [
    | inl e ↦
        rw
          (
            e,
            Memory.fail,
            update_in_absent starts_with s id (modify id (marked_failed reason now))
                (list_queues starts_with s) (absent-tubes id e),
          )
          sim
    | inr (j, e) ↦
        rw (e, Memory.fail) (modify-Sim id (marked_failed reason now) (λ _. refl) (λ _. refl) e)
  ]

  remove-Sim : (id : String) → Sim (Memory.remove c id) (LocalStorage.remove starts_with s id)
  unfolding Memory.remove LocalStorage.remove
  remove-Sim id = elim (Option-cases (get id c.jobs)) [
    | inl e ↦
        rw
          (
            update_in_absent starts_with s id (without id) (list_queues starts_with s)
                (absent-tubes id e),
            without_absent id c.jobs e,
          )
          sim
    | inr (j, e) ↦ rw (reaches id (without id) e) (
        write-Sim sim j.queue _ (record c { jobs = without id c.jobs }) refl
          (keep-IdsDistinct _ c.jobs sim.distinct)
          (ground (arith, sim.same_tubes j.queue, keep-without (in_queue j.queue) id c.jobs))
          (λ r ne. ground (
            arith,
            keep-without (in_queue r) id c.jobs,
            without_absent id (keep (in_queue r) c.jobs),
            get-keep_out (in_queue r) id c.jobs sim.distinct e,
          )))
  ]

  clear-Sim :
      (q : String)
      → Base.has q c.paused_queues ≡ false
      → Sim (Memory.clear c q) (LocalStorage.clear s q)
  unfolding Memory.clear
  clear-Sim q open_queue = record {
    same_name = clear-name s q ∙ sim.same_name;
    roomy = clear-IsRoomy s q sim.roomy;
    distinct = keep-IdsDistinct _ c.jobs sim.distinct;
    same_tubes = λ r. ground (
      arith,
      read-clear s q r sim.roomy,
      sim.same_tubes r,
      keep-drop_in q c.jobs,
      keep-drop_out q r c.jobs,
    );
  }

  step-Sim :
      (call : Call)
      → Agrees c call
      → ((Steps.step starts_with s call).1 ≡ (step c call).1)
        × Sim (step c call).0 (Steps.step starts_with s call).0
  unfolding step Steps.step
  step-Sim (pushes args) a = (refl, (push-Sim sim args a.0 a.1).1)
  step-Sim (pops queue now) a = pop-Sim sim queue now
  step-Sim (removes id) a = (refl, remove-Sim id)
  step-Sim (releases id delay_ms now) a = (refl, release-Sim id delay_ms now)
  step-Sim (fails id reason now) a = (refl, fail-Sim id reason now)
  step-Sim (clears queue) a = (refl, clear-Sim queue a)
  step-Sim closes a = absurd a
  step-Sim (pauses queue) a = (refl, pause-Sim sim queue)
  step-Sim (resumes queue) a = (refl, resume-Sim sim queue)

-- From connections of one name that hold the same jobs and pause flags, with distinct ids and a
-- browser store that exists and has room, a history gets the same jobs from the local-storage
-- driver as from the memory driver, call by call, if every new job has an unused id and shares no
-- deduplication id with a job in flight on another queue, only queues that are not paused are
-- cleared, the connection is not closed, and the prefix test accepts a text behind the prefix.
pub handed_out-agree :
    (starts_with : String → String → Bool) (calls : List Call) (c : MemoryConnection)
    (s : LocalStorageConnection)
    → AcceptsPrefix starts_with
    → Sim c s
    → AllAgree c calls
    → Steps.handed_out starts_with s calls ≡ handed_out c calls
unfolding handed_out Steps.handed_out
handed_out-agree starts_with [] c s accepts sim agree = refl
handed_out-agree starts_with (call ∷ calls) c s accepts sim agree =
    let (same_job, sim') = step-Sim starts_with accepts sim call agree.0 in
    let rest =
      handed_out-agree starts_with calls (step c call).0 (Steps.step starts_with s call).0 accepts
        sim' agree.1 in
    cc (same_job, rest)
