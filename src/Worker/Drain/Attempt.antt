-- ===== src/Worker/Drain/Attempt.antt =====
-- One tick of the worker.
use ts_queue.Job.{Job, is_waiting, delayed, pending}
use ts_queue.Jobs.{get, modify, without, reserve, released, marked_failed}
use ts_queue.Jobs.Ids.{IdsDistinct, get-modify_self, modify-IdsDistinct, keep-IdsDistinct}
use ts_queue.Jobs.Views.{get-modify, get-without}
use ts_queue.Memory
use ts_queue.Memory.{MemoryConnection, choose, is_eligible}
use ts_queue.Memory.Updates.{release-modify, fail-modify}
use ts_queue.Prelude.{
  ℕ, ◌+◌, ◌≤◌, ◌<◌, String, true, false, some, ◌≡◌, subst, refl, arith, Bool-cases, inl, inr, same,
  if◌then◌else◌, ltb,
}
use ts_queue.Worker.Drain.{IsQuiet, IsReady}
use ts_queue.Worker.Pool.Settle.{Settled, removed, failed_for_good, put_back}
use ts_queue.Worker.Weights.{allowance, spare, weight, weight_all, weight-modify, weight-keep}
use ts_queue.Worker.{WorkerOptions}

-- The job is popped at `now` and settled at `later`; `again` is a time from which all jobs are due.
module _ (policy : WorkerOptions) (queue : String) (t now later again : ℕ) (grows : t ≤ again)
    (late : later + policy.max_backoff_ms ≤ again) where
  -- A job that was popped.
  module _ (c : MemoryConnection) (n : Job) (ready : IsReady queue t c)
      (found : get n.id c.jobs ≡ some n) (eligible : is_eligible queue now n ≡ true) where
    abbrev pub job : Job
    job = reserve now n

    abbrev pub popped : MemoryConnection
    popped = record c { jobs = modify n.id (reserve now) c.jobs }

    stored : get n.id popped.jobs ≡ some job
    stored = get-modify_self n.id (reserve now) (λ _. refl) c.jobs found

    popped-distinct : IdsDistinct popped.jobs
    popped-distinct = modify-IdsDistinct n.id (reserve now) c.jobs (λ _. refl) ready.distinct

    had_left : n.attempts < allowance n
    had_left = (ready.quiet n.id n found (ground (arith, eligible)) (ground (arith, eligible))).2

    popped_none : weight queue job ≡ 0
    popped_none = ground arith

    -- It counts no more while it is reserved.
    popped-weight : weight_all queue popped.jobs + spare n ≡ weight_all queue c.jobs
    popped-weight =
        let full : weight queue n ≡ spare n = ground (arith, eligible) in
        omega (arith, weight-modify queue n.id (reserve now) c.jobs found, full, popped_none)

    has_spare : 1 ≤ spare n
    has_spare = omega (arith, had_left)

    others-IsQuiet :
        (i : String) (j : Job)
        → same n.id i ≡ false
        → get i popped.jobs ≡ some j
        → IsQuiet queue again j
    others-IsQuiet i j ne e q f =
        let old =
          ready.quiet i j
            (ground (arith, ne, e, get-modify n.id (reserve now) c.jobs i (λ _. refl))) q f in
        (old.0, omega (arith, old.1, grows), old.2)

    -- What the tick leaves.
    abbrev pub Leaves : MemoryConnection → Type 0
    Leaves m = (weight_all queue m.jobs + 1 ≤ weight_all queue c.jobs) × IsReady queue again m

    view :
        (f : Job → Job) (i : String) (j : Job)
        → ((k : Job) → (f k).id ≡ k.id)
        → get i (modify n.id f popped.jobs) ≡ some j
        → IsQuiet queue again (f job)
        → IsQuiet queue again j
    view f i j keeps e done = elim (Bool-cases (same n.id i)) [
      | inl p ↦
          let q : n.id ≡ i = ground (arith, p) in
          let r : f job ≡ j = ground (
            arith,
            stored,
            p,
            e,
            subst (λ x. get x popped.jobs ≡ some job) q stored,
            get-modify n.id f popped.jobs i keeps,
          ) in
          subst (IsQuiet queue again) r done
      | inr p ↦ others-IsQuiet i j p (ground (arith, p, e, get-modify n.id f popped.jobs i keeps))
    ]

    modify-Leaves :
        (f : Job → Job)
        → ((k : Job) → (f k).id ≡ k.id)
        → IsQuiet queue again (f job)
        → weight queue (f job) + 1 ≤ spare n
        → Leaves (record popped { jobs = modify n.id f popped.jobs })
    modify-Leaves f keeps done less = (
      omega
          (arith, weight-modify queue n.id f popped.jobs stored, popped-weight, less, popped_none),
      record {
        distinct = modify-IdsDistinct n.id f popped.jobs keeps popped-distinct;
        open_queue = ready.open_queue;
        quiet = λ i j e. view f i j keeps e done;
      },
    )

    pub attempt-Leaves : {m : MemoryConnection} → Settled policy later popped job m → Leaves m
    unfolding Memory.remove
    attempt-Leaves removed = (
      omega (arith, popped-weight, lighter, has_spare),
      record {
        distinct = keep-IdsDistinct _ popped.jobs popped-distinct;
        open_queue = ready.open_queue;
        quiet = λ i j e. kept i j (ground (arith, e, get-without n.id popped.jobs i));
      },
    )
      where
        lighter : weight_all queue (without n.id popped.jobs) ≤ weight_all queue popped.jobs
        lighter = weight-keep queue _ popped.jobs

        kept :
            (i : String) (j : Job)
            → (same n.id i ≡ false) × (get i popped.jobs ≡ some j)
            → IsQuiet queue again j
        kept i j (ne, e) = others-IsQuiet i j ne e
    attempt-Leaves (failed_for_good reason) = rw (fail-modify popped n.id reason later) (
        modify-Leaves (marked_failed reason later) (λ _. refl) (λ q f. absurd (cc))
          (ground (arith, has_spare)))
    attempt-Leaves (put_back delay_ms left bound) = rw (release-modify popped n.id delay_ms later) (
        modify-Leaves (released delay_ms later) (λ _. refl)
          (λ q f. (waits, omega (arith, bound (omega arith), late), omega (arith, left)))
          (omega (arith, has_spare, counted)))
      where
        waits : is_waiting (if ltb 0 delay_ms then delayed else pending) ≡ true
        waits = ground arith

        counted : weight queue (released delay_ms later job) ≤ spare job
        counted = ground arith
