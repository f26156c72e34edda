-- ===== src/Memory/Steps.antt =====
-- Histories of calls of the memory driver. `bulk` and `later` are calls of `push`.
use ts_queue.Job.{Job, Dispatch}
use ts_queue.Memory.{
  MemoryConnection, push, pop, remove, release, fail, clear, close, pause, resume,
}
use ts_queue.Prelude.{ℕ, String, List, [], ◌∷◌, Option, none}

pub data Call : Type 0 where
  pushes : Dispatch → Call
  pops : String → ℕ → Call
  removes : String → Call
  releases : String → ℕ → ℕ → Call
  fails : String → String → ℕ → Call
  clears : String → Call
  closes : Call
  pauses : String → Call
  resumes : String → Call

-- The state after a call, and the job that it hands out.
unfoldable pub step : MemoryConnection → Call → MemoryConnection × Option Job
unfolding push pop remove release fail clear close pause resume
step c (pushes args) = ((push c args).0, none)
step c (pops queue now) = pop c queue now
step c (removes id) = (remove c id, none)
step c (releases id delay_ms now) = (release c id delay_ms now, none)
step c (fails id reason now) = (fail c id reason now, none)
step c (clears queue) = (clear c queue, none)
step c closes = (close c, none)
step c (pauses queue) = (pause c queue, none)
step c (resumes queue) = (resume c queue, none)

-- The state after a history.
unfoldable pub run : MemoryConnection → List Call → MemoryConnection
run c [] = c
run c (call ∷ calls) = run (step c call).0 calls

-- The jobs that the calls of a history hand out, in order.
unfoldable pub handed_out : MemoryConnection → List Call → List (Option Job)
handed_out c [] = []
handed_out c (call ∷ calls) = (step c call).1 ∷ handed_out (step c call).0 calls
