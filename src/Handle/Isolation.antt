-- ===== src/Handle/Isolation.antt =====
-- A handle's calls on the memory driver leave the other queues alone.
use mathlib.Core.List.{append-nil}
use ts_queue.Base
use ts_queue.Base.{has-add, has-delete}
use ts_queue.Handle
use ts_queue.Handle.{memory, on_queue}
use ts_queue.Job.{Job, Dispatch, create_queued_job, no_defaults}
use ts_queue.Jobs.{get, in_queue, find_duplicate}
use ts_queue.Jobs.Queues.{keep-append, put_absent, keep-drop_out}
use ts_queue.Memory
use ts_queue.Memory.{MemoryConnection}
use ts_queue.Prelude.{
  ℕ, String, List, [], ◌∷◌, none, some, ◌≡◌, ◌≢◌, refl, ◌∙◌, ap, arith, keep, Option-cases, inl,
  inr,
}

pub data HandleCall : Type 0 where
  pushes : Dispatch → HandleCall
  delays : ℕ → Dispatch → HandleCall
  bulks : List Dispatch → HandleCall
  clears : HandleCall
  pauses : HandleCall
  resumes : HandleCall

-- The ids of new jobs are unused.
abbrev AllFresh :
    (MemoryConnection → Dispatch → MemoryConnection) → MemoryConnection → List Dispatch → Type 0
AllFresh next c [] = Unit
AllFresh next c (args ∷ rest) = (get args.fresh_id c.jobs ≡ none) × AllFresh next (next c args) rest

-- The jobs of a queue and its pause flag.
pub record SameQueue (r : String) (c c' : MemoryConnection) : Type 0 where
  pub same_jobs : keep (in_queue r) c'.jobs ≡ keep (in_queue r) c.jobs
  pub same_pause : Memory.is_paused c' r ≡ Memory.is_paused c r

module _ (queue : String) where
  unfoldable pub step : MemoryConnection → HandleCall → MemoryConnection
  unfolding Handle.push Handle.later Handle.bulk Handle.clear Handle.pause Handle.resume
  step c (pushes args) = (Handle.push memory queue c args).0
  step c (delays delay_ms args) = (Handle.later memory queue delay_ms c args).0
  step c (bulks jobs) = (Handle.bulk memory queue c jobs).0
  step c clears = Handle.clear memory queue c
  step c pauses = Handle.pause memory queue c
  step c resumes = Handle.resume memory queue c

  abbrev pub IsFresh : MemoryConnection → HandleCall → Type 0
  IsFresh c (pushes args) = get args.fresh_id c.jobs ≡ none
  IsFresh c (delays delay_ms args) = get args.fresh_id c.jobs ≡ none
  IsFresh c (bulks jobs) = AllFresh (λ s args. (Memory.push s (on_queue queue args)).0) c jobs
  IsFresh c clears = Unit
  IsFresh c pauses = Unit
  IsFresh c resumes = Unit

push-SameQueue :
    (c : MemoryConnection) (args : Dispatch) (queue r : String)
    → args.options.queue ≡ some queue
    → r ≢ queue
    → get args.fresh_id c.jobs ≡ none
    → SameQueue r c (Memory.push c args).0
unfolding Memory.push Memory.is_paused create_queued_job
push-SameQueue c args queue r e ne fresh = elim (Option-cases (find_duplicate job c.jobs)) [
  | inr (k, d) ↦ rw (d, Memory.push) (record { same_jobs = refl; same_pause = refl })
  | inl d ↦
      rw (d, Memory.push)
        (record {
          same_jobs =
              ap (keep (in_queue r)) (put_absent job c.jobs fresh)
              ∙ keep-append (in_queue r) c.jobs (job ∷ [])
              ∙ ground (arith, e, append-nil (keep (in_queue r) c.jobs));
          same_pause = refl;
        })
]
  where
    job : Job
    job = create_queued_job c.name no_defaults args

bulk-SameQueue :
    (c : MemoryConnection) (jobs : List Dispatch) (queue r : String)
    → r ≢ queue
    → AllFresh (λ s args. (Memory.push s (on_queue queue args)).0) c jobs
    → SameQueue r c (Handle.bulk memory queue c jobs).0
unfolding Handle.bulk Base.bulk
bulk-SameQueue c [] queue r ne fresh = record { same_jobs = refl; same_pause = refl }
bulk-SameQueue c (args ∷ rest) queue r ne fresh =
    let here = push-SameQueue c (on_queue queue args) queue r refl ne fresh.0 in
    let there = bulk-SameQueue (Memory.push c (on_queue queue args)).0 rest queue r ne fresh.1 in
    record {
      same_jobs = there.same_jobs ∙ here.same_jobs;
      same_pause = there.same_pause ∙ here.same_pause;
    }

step-SameQueue :
    (c : MemoryConnection) (call : HandleCall) (queue r : String)
    → r ≢ queue
    → IsFresh queue c call
    → SameQueue r c (step queue c call)
unfolding step Handle.push Handle.later Handle.clear Handle.pause Handle.resume Base.later
    Memory.clear Memory.pause Memory.resume Memory.is_paused
step-SameQueue c (pushes args) queue r ne fresh =
    push-SameQueue c (on_queue queue args) queue r refl ne fresh
step-SameQueue c (delays delay_ms args) queue r ne fresh =
    push-SameQueue c
      (record (on_queue queue args) {
        options = record ((on_queue queue args).options) { delay_ms = some delay_ms };
      })
      queue r refl ne fresh
step-SameQueue c (bulks jobs) queue r ne fresh = bulk-SameQueue c jobs queue r ne fresh
step-SameQueue c clears queue r ne fresh = record {
  same_jobs = keep-drop_out queue r c.jobs ne;
  same_pause = refl;
}
step-SameQueue c pauses queue r ne fresh = record {
  same_jobs = refl;
  same_pause = ground (arith, has-add queue r c.paused_queues);
}
step-SameQueue c resumes queue r ne fresh = record {
  same_jobs = refl;
  same_pause = ground (arith, has-delete queue r c.paused_queues);
}

-- A history of calls of the handle, each of whose new jobs has a fresh id.
unfoldable pub run : String → MemoryConnection → List HandleCall → MemoryConnection
unfolding step
run queue c [] = c
run queue c (call ∷ calls) = run queue (step queue c call) calls

abbrev pub AllCallsFresh : String → MemoryConnection → List HandleCall → Type 0
AllCallsFresh queue c [] = Unit
AllCallsFresh queue c (call ∷ calls) =
    IsFresh queue c call × AllCallsFresh queue (step queue c call) calls

-- Whatever is done through a handle of one queue of the memory driver, every other queue keeps its
-- jobs, in their order, and its pause flag, provided that new jobs get unused ids.
pub run-SameQueue :
    (queue r : String) (calls : List HandleCall) (c : MemoryConnection)
    → r ≢ queue
    → AllCallsFresh queue c calls
    → SameQueue r c (run queue c calls)
unfolding run
run-SameQueue queue r [] c ne fresh = record { same_jobs = refl; same_pause = refl }
run-SameQueue queue r (call ∷ calls) c ne fresh =
    let here = step-SameQueue c call queue r ne fresh.0 in
    let there = run-SameQueue queue r calls (step queue c call) ne fresh.1 in
    record {
      same_jobs = there.same_jobs ∙ here.same_jobs;
      same_pause = there.same_pause ∙ here.same_pause;
    }
