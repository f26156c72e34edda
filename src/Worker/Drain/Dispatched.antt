-- ===== src/Worker/Drain/Dispatched.antt =====
-- A dispatch, and the worker that keeps polling after it.
use native.Mathlib.Nat.{mul-le-mul_right}
use ts_queue.Driver
use ts_queue.Job.{Job, Dispatch, create_queued_job, no_defaults, is_in_flight}
use ts_queue.Jobs.{get, put, in_queue, find_duplicate, has_id}
use ts_queue.Jobs.Ids.{put-IdsDistinct}
use ts_queue.Jobs.Views.{get-put}
use ts_queue.Memory
use ts_queue.Memory.{MemoryConnection}
use ts_queue.Prelude.{
  ℕ, ◌+◌, ◌*◌, ◌≤◌, String, true, false, List, [], ◌∷◌, some, ◌≡◌, subst, arith, Bool-cases,
  Option-cases, inl, inr, same, length,
}
use ts_queue.Worker.Drain.{IsQuiet, IsReady}
use ts_queue.Worker.Drain.Polling.{ticks_settle}
use ts_queue.Worker.Weights.{allowance, weight, weight_all}
use ts_queue.Worker.{WorkerOptions, Round, ticks}

weight-put :
    (queue : String) (j : Job) (jobs : List Job)
    → weight_all queue (put j jobs) ≤ weight_all queue jobs + weight queue j
unfolding put weight_all
weight-put queue j [] = omega arith
weight-put queue j (k ∷ ks) = elim (Bool-cases (has_id j.id k)) [
  | inl e ↦ rw e (omega arith)
  | inr e ↦ rw e (omega (arith, weight-put queue j ks))
]

-- The job that a dispatch makes.
abbrev pub made : MemoryConnection → Dispatch → Job
made c args = create_queued_job c.name no_defaults args

module _ (queue : String) (t : ℕ) (c : MemoryConnection) (args : Dispatch) where
  -- The connection with the new job, which is due by then.
  abbrev IsFed : MemoryConnection → Type 0
  IsFed m =
      (weight_all queue m.jobs ≤ weight_all queue c.jobs + allowance (made c args))
      × IsReady queue t m

  made-IsQuiet : (made c args).available_at ≤ t → IsQuiet queue t (made c args)
  unfolding create_queued_job
  made-IsQuiet l q f = (ground arith, l, omega arith)

  made-allowance : weight queue (made c args) ≤ allowance (made c args)
  made-allowance = ground arith

  push-IsFed : (made c args).available_at ≤ t → IsReady queue t c → IsFed (Memory.push c args).0
  unfolding Memory.push
  push-IsFed l r = elim (Option-cases (find_duplicate (made c args) c.jobs)) [
    | inr (k, e) ↦ rw (e, Memory.push) (omega arith, r)
    | inl e ↦
        rw (e, Memory.push)
          (
            omega (arith, weight-put queue (made c args) c.jobs, made-allowance),
            record {
              distinct = put-IdsDistinct (made c args) c.jobs r.distinct;
              open_queue = r.open_queue;
              quiet = λ i j g. elim (Bool-cases (same (made c args).id i)) [
                | inl p ↦
                    let q : made c args ≡ j =
                      ground (arith, p, g, get-put (made c args) c.jobs i) in
                    subst (IsQuiet queue t) q (made-IsQuiet l)
                | inr p ↦ r.quiet i j (ground (arith, p, g, get-put (made c args) c.jobs i))
              ];
            },
          )
  ]

module _ (queue : String) (now idle : ℕ) (c : MemoryConnection) (args : Dispatch)
    (policy : WorkerOptions) (polls : ℕ)
    (covers : policy.max_backoff_ms ≤ polls * policy.poll_interval_ms) where
  -- A dispatch to a memory connection on which the queue is not paused and ids are distinct, and on which every job in
  -- flight on the queue waits, is due within `idle` poll intervals, and has an attempt left; the new job is due by then
  -- too. Then one worker polls the queue on its own schedule, from `now` on, whatever the processor does, the time it
  -- takes and the lateness of timers, and nothing else is called on the connection. If there are `polls` poll intervals
  -- in the longest delay of a retry, then after `polls + 1` ticks for each attempt that the old jobs have left and the
  -- new one gets, and `idle` more, no job of the queue is in flight.
  pub dispatch_settles :
      (rounds : List Round) (i : String) {j : Job}
      → IsReady queue (now + idle * policy.poll_interval_ms) c
      → (made c args).available_at ≤ now + idle * policy.poll_interval_ms
      → (weight_all queue c.jobs + allowance (made c args)) * (polls + 1) + idle ≤ length rounds
      → get i (ticks Driver.memory policy queue (Memory.push c args).0 now rounds).0.jobs ≡ some j
      → in_queue queue j ≡ true
      → is_in_flight j.status ≡ false
  dispatch_settles rounds i {j} r l enough g q =
      let (less, ready) = push-IsFed queue (now + idle * policy.poll_interval_ms) c args l r in
      ticks_settle policy queue polls covers now idle (Memory.push c args).0 rounds i {j = j} ready
        (omega (arith, enough, mul-le-mul_right (polls + 1) less)) g q
