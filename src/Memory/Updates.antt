-- ===== src/Memory/Updates.antt =====
-- `release` and `fail` of the memory driver as assignments to the job under an id.
use ts_queue.Jobs.{get, modify, released, marked_failed}
use ts_queue.Jobs.Ids.{modify_absent}
use ts_queue.Memory
use ts_queue.Memory.{MemoryConnection}
use ts_queue.Prelude.{ℕ, String, ◌≡◌, refl, Option-cases, inl, inr}

pub release-modify :
    (m : MemoryConnection) (id : String) (delay_ms now : ℕ)
    → Memory.release m id delay_ms now
      ≡ record m { jobs = modify id (released delay_ms now) m.jobs }
unfolding Memory.release
release-modify m id delay_ms now = elim (Option-cases (get id m.jobs)) [
  | inl e ↦
      rw (e, Memory.release)
        (rw (modify_absent id (released delay_ms now) (λ _. refl) m.jobs e) refl)
  | inr (j, e) ↦ rw (e, Memory.release) refl
]

pub fail-modify :
    (m : MemoryConnection) (id reason : String) (now : ℕ)
    → Memory.fail m id reason now ≡ record m { jobs = modify id (marked_failed reason now) m.jobs }
unfolding Memory.fail
fail-modify m id reason now = elim (Option-cases (get id m.jobs)) [
  | inl e ↦
      rw (e, Memory.fail)
        (rw (modify_absent id (marked_failed reason now) (λ _. refl) m.jobs e) refl)
  | inr (j, e) ↦ rw (e, Memory.fail) refl
]
