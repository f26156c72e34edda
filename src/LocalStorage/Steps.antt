-- ===== src/LocalStorage/Steps.antt =====
-- The calls of the memory driver's histories, on the local-storage driver.
use ts_queue.Job.{Job}
use ts_queue.LocalStorage.{
  LocalStorageConnection, push, pop, remove, release, fail, clear, close, pause, resume,
}
use ts_queue.Memory.Steps.{
  Call, pushes, pops, removes, releases, fails, clears, closes, pauses, resumes,
}
use ts_queue.Prelude.{String, Bool, List, [], ◌∷◌, Option, none}

module _ (starts_with : String → String → Bool) where
  unfoldable pub step : LocalStorageConnection → Call → LocalStorageConnection × Option Job
  step s (pushes args) = ((push s args).0, none)
  step s (pops queue now) = pop s queue now
  step s (removes id) = (remove starts_with s id, none)
  step s (releases id delay_ms now) = (release starts_with s id delay_ms now, none)
  step s (fails id reason now) = (fail starts_with s id reason now, none)
  step s (clears queue) = (clear s queue, none)
  step s closes = (close s, none)
  step s (pauses queue) = (pause s queue, none)
  step s (resumes queue) = (resume s queue, none)

  -- The jobs that the calls of a history hand out, in order.
  unfoldable pub handed_out : LocalStorageConnection → List Call → List (Option Job)
  handed_out s [] = []
  handed_out s (call ∷ calls) = (step s call).1 ∷ handed_out (step s call).0 calls
