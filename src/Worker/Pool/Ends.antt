-- ===== src/Worker/Pool/Ends.antt =====
-- The ends of an attempt keep the order.
use ts_queue.Job.{Job, is_in_flight, pending, delayed, reserved}
use ts_queue.Jobs.{get, modify, without, released, marked_failed}
use ts_queue.Jobs.Ids.{KeepsId}
use ts_queue.Jobs.Views.{get-modify, get-without, changed}
use ts_queue.Memory
use ts_queue.Memory.{MemoryConnection, choose}
use ts_queue.Memory.Invariant.{Releasable, step-IsValid}
use ts_queue.Memory.Steps.{step, removes, releases, fails}
use ts_queue.Memory.Updates.{release-modify, fail-modify}
use ts_queue.Prelude.{
  ℕ, ◌<◌, String, true, List, none, some, ◌≡◌, ◌≢◌, sym, ap, subst, refl, arith, Bool-cases,
  Option-cases, inl, inr, same, if◌then◌else◌, ltb,
}
use ts_queue.Worker.Pool.Settle.{Settled, removed, failed_for_good, put_back}
use ts_queue.Worker.{WorkerOptions}
use ts_queue.Worker.Held.{IsWithin}
use ts_queue.Worker.Pool.Order.{IsOrderly, settle-IsOrderly}

module _ (c : MemoryConnection) (held : List Job) (h : Job) where
  modified :
      (f : Job → Job) (i : String)
      → KeepsId f
      → get i (modify h.id f c.jobs)
        ≡ (if same h.id i then changed f (get h.id c.jobs) else get i c.jobs)
  modified f i keeps = elim (Bool-cases (same h.id i)) [
    | inl p ↦
        let q : h.id ≡ i = ground (arith, p) in
        ground (arith, p, get-modify h.id f c.jobs i keeps, ap (λ k. get k c.jobs) q)
    | inr p ↦ ground (arith, p, get-modify h.id f c.jobs i keeps)
  ]

  failed-IsWithin :
      (reason : String) (now : ℕ) (j : Job)
      → IsOrderly c held
      → changed (marked_failed reason now) (get h.id c.jobs) ≡ some j
      → (j.status ≢ reserved) × IsWithin j
  failed-IsWithin reason now j o e = elim (Option-cases (get h.id c.jobs)) [
    | inl g ↦ absurd (ground (arith, g, e))
    | inr (k, g) ↦
        let q : marked_failed reason now k ≡ j = ground (arith, g, e) in
        subst (λ (x : Job). (x.status ≢ reserved) × IsWithin x) q
          ((λ r. absurd (cc)), ((o.ordered.within h.id k g).0, λ w. absurd (cc)))
  ]

  released-IsWithin :
      (delay_ms now : ℕ) (j : Job)
      → IsOrderly c held
      → get h.id held ≡ some h
      → h.attempts < h.max_attempts
      → changed (released delay_ms now) (get h.id c.jobs) ≡ some j
      → (j.status ≢ reserved) × IsWithin j
  released-IsWithin delay_ms now j o b left e = elim (Option-cases (get h.id c.jobs)) [
    | inl g ↦ absurd (ground (arith, g, e))
    | inr (k, g) ↦
        let q : released delay_ms now k ≡ j = ground (arith, g, e) in
        let p : k ≡ h = o.ordered.backed h.id h k b g in
        let a : k.attempts ≡ h.attempts = ap (λ (x : Job). x.attempts) p in
        let l : k.max_attempts ≡ h.max_attempts = ap (λ (x : Job). x.max_attempts) p in
        subst (λ (x : Job). (x.status ≢ reserved) × IsWithin x) q
          (waits, (omega (arith, a, l, left), λ w. omega (arith, a, l, left)))
  ]
    where
      waits : (if ltb 0 delay_ms then delayed else pending) ≢ reserved
      waits = elim (Bool-cases (ltb 0 delay_ms)) [
        | inl t ↦ rw t (λ r. absurd (cc))
        | inr t ↦ rw t (λ r. absurd (cc))
      ]

  releasable : IsOrderly c held → get h.id held ≡ some h → Releasable c.jobs h.id
  releasable o g j e =
      let p = o.ordered.backed h.id h j g e in
      let r = o.ordered.held_reserved h.id h g in
      subst (λ (x : Job). is_in_flight x.status ≡ true) (sym p) (rw r refl)

  -- The three ends of an attempt.
  pub Settled-IsOrderly :
      {policy : WorkerOptions} {now : ℕ} {m : MemoryConnection}
      → get h.id held ≡ some h
      → Settled policy now c h m
      → IsOrderly c held
      → IsOrderly m (without h.id held)
  unfolding Memory.remove step
  Settled-IsOrderly {policy} {now} {m} g removed o =
      settle-IsOrderly c held (Memory.remove c h.id) h none
        (step-IsValid c (removes h.id) tt o.valid) (get-without h.id c.jobs) (λ j e. absurd (cc)) o
  Settled-IsOrderly {policy} {now} {m} g (failed_for_good reason) o =
      settle-IsOrderly c held (Memory.fail c h.id reason now) h
        (changed (marked_failed reason now) (get h.id c.jobs))
        (step-IsValid c (fails h.id reason now) tt o.valid)
        (λ i.
          rw (fail-modify c h.id reason now) (modified (marked_failed reason now) i (λ _. refl)))
        (λ j e. failed-IsWithin reason now j o e) o
  Settled-IsOrderly {policy} {now} {m} g (put_back delay_ms left late) o =
      settle-IsOrderly c held (Memory.release c h.id delay_ms now) h
        (changed (released delay_ms now) (get h.id c.jobs))
        (step-IsValid c (releases h.id delay_ms now) (releasable o g) o.valid)
        (λ i.
          rw (release-modify c h.id delay_ms now) (modified (released delay_ms now) i (λ _. refl)))
        (λ j e. released-IsWithin delay_ms now j o g left e) o
