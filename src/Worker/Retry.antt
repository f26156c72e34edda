-- ===== src/Worker/Retry.antt =====
-- A job whose processor keeps failing, on the memory driver.
use native.Mathlib.Nat.{suc-mul}
use ts_queue.Base
use ts_queue.Driver
use ts_queue.Errors.{max_attempts_exceeded_error, message}
use ts_queue.Job.{Job, is_waiting}
use ts_queue.Jobs.{reserve, released, marked_failed, is_due}
use ts_queue.Memory.{MemoryConnection}
use ts_queue.Prelude.{
  ℕ, zero, suc, ◌+◌, ◌*◌, ◌≤◌, ◌<◌, String, true, false, List, [], ◌∷◌, ◌++◌, ◌≡◌, ◌∙◌, refl, ap,
  arith, count, count-append, leb, All, length, Bool-cases, Nat-cases, inl, inr, subst, sym,
}
use ts_queue.Worker.{WorkerOptions, Event, Race, Round, retry_delay_ms, tick, ticks}
use ts_queue.Worker.Failing.{failing_tick, idle_tick, released_due}
use ts_queue.Worker.Rounds.{is_retryable, error_of, single, is_processing, is_failure, Exhausted}

module _ (policy : WorkerOptions) (name : String) (paused : List String) where
  -- The ticks on a memory connection that holds one job.
  abbrev run : Job → ℕ → List Round → MemoryConnection × List Event
  run job now rounds = ticks Driver.memory policy job.queue (single name paused job) now rounds

  abbrev retried : ℕ → Job → Job
  retried now job = released (retry_delay_ms policy (reserve now job)) now (reserve now job)

  -- A tick that changes nothing.
  idle_round :
      (job : Job) (now : ℕ) (round : Round) (rest : List Round)
      → is_due now job ≡ false
      → run job now (round ∷ rest) ≡ run job (now + policy.poll_interval_ms + round.late_ms) rest
  unfolding ticks
  idle_round job now round rest early =
      let (state, events, next) =
        idle_tick policy name paused job now (now + round.takes_ms) round.race early in
      rw (state, events, next) refl

  -- A job that is done is left alone.
  done_rounds :
      (job : Job) (rounds : List Round) (now : ℕ)
      → is_waiting job.status ≡ false
      → run job now rounds ≡ (single name paused job, [])
  unfolding ticks
  done_rounds job [] now d = refl
  done_rounds job (round ∷ rest) now d =
      idle_round job now round rest (ground arith)
      ∙ done_rounds job rest (now + policy.poll_interval_ms + round.late_ms) d

  last_round :
      (job : Job) (now : ℕ) (round : Round) (rest : List Round)
      → Base.has job.queue paused ≡ false
      → is_due now job ≡ true
      → is_retryable policy round.race ≡ true
      → job.attempts + 1 ≡ job.max_attempts
      → Exhausted name paused job 1 (run job now (round ∷ rest))
  unfolding ticks
  last_round job now round rest open_queue due retry budget =
      let later = now + round.takes_ms in
      let t = tick Driver.memory policy job.queue (single name paused job) round.race now later in
      let (state, processing, failures, _) =
        failing_tick policy name paused job now later round.race open_queue due retry in
      let spent : leb job.max_attempts (job.attempts + 1) ≡ true = ground arith in
      let moved : t.state ≡ single name paused (final later round.race) = (rw spent at state) in
      let after = t.ended + t.next_delay + round.late_ms in
      let over : ticks Driver.memory policy job.queue t.state after rest
          ≡ (single name paused (final later round.race), []) =
        rw moved (done_rounds (final later round.race) rest after refl) in
      record {
        final = final later round.race;
        state = ap (λ r. r.0) over;
        same_id = refl;
        is_failed = refl;
        all_attempts = budget;
        processing =
            ap (λ (r : MemoryConnection × List Event). count is_processing (t.events ++ r.1)) over
            ∙ omega (arith, processing, count-append is_processing t.events []);
        failures =
            ap (λ (r : MemoryConnection × List Event). count is_failure (t.events ++ r.1)) over
            ∙ omega (arith, (rw spent at failures), count-append is_failure t.events []);
      }
    where
      final : ℕ → Race → Job
      final later race =
          marked_failed
            (message (
              max_attempts_exceeded_error job.id (job.attempts + 1)
                (error_of (reserve now job) race)))
            later (reserve now job)

  one_round :
      (job : Job) (now left : ℕ) (round : Round) (rest : List Round)
      → Base.has job.queue paused ≡ false
      → is_due now job ≡ true
      → is_retryable policy round.race ≡ true
      → job.attempts + 1 < job.max_attempts
      → ((after : ℕ)
          → now + round.takes_ms ≤ after
          → Exhausted name paused
              (retried (now + round.takes_ms) job)
              left
              (run (retried (now + round.takes_ms) job) after rest))
      → Exhausted name paused job (suc left) (run job now (round ∷ rest))
  unfolding ticks
  one_round job now left round rest open_queue due retry budget others =
      let later = now + round.takes_ms in
      let t = tick Driver.memory policy job.queue (single name paused job) round.race now later in
      let (state, processing, failures, ends) =
        failing_tick policy name paused job now later round.race open_queue due retry in
      let more : leb job.max_attempts (job.attempts + 1) ≡ false = ground arith in
      let moved : t.state ≡ single name paused (retried later job) = (rw more at state) in
      let after = t.ended + t.next_delay + round.late_ms in
      let ih = others after (omega (arith, ends)) in
      let events = (run (retried later job) after rest).1 in
      record {
        final = ih.final;
        state = rw moved ih.state;
        same_id = ih.same_id;
        is_failed = ih.is_failed;
        all_attempts = ih.all_attempts;
        processing =
            rw moved (
              omega (arith, processing, count-append is_processing t.events events, ih.processing));
        failures = rw moved (
            omega
              (arith, (rw more at failures), count-append is_failure t.events events, ih.failures));
      }

  -- So many poll intervals cover the longest delay of a retry.
  module _ (polls : ℕ) (covers : policy.max_backoff_ms ≤ polls * policy.poll_interval_ms) where
    -- A job that waits and whose processor fails on every attempt, not by a timeout that the policy makes final, alone on
    -- a memory connection on which its queue is not paused, and due within `idle` poll intervals; and one worker that
    -- polls the queue on its own schedule, whatever the processor's time and the lateness of timers, while nothing else
    -- is called on the connection. If there are `polls` poll
    -- intervals in the longest delay of a retry, then after `left * (polls + 1) + idle` ticks, those that find nothing
    -- included, the job is failed, each of the `left` attempts that it had was made, and one failure was reported.
    pub ticks-Exhausted :
        (rounds : List Round) (job : Job) (now left idle : ℕ)
        → Base.has job.queue paused ≡ false
        → is_waiting job.status ≡ true
        → 1 ≤ left
        → job.attempts + left ≡ job.max_attempts
        → job.available_at ≤ now + idle * policy.poll_interval_ms
        → left * (polls + 1) + idle ≤ length rounds
        → All (λ r. is_retryable policy r.race ≡ true) rounds
        → Exhausted name paused job left
            (ticks Driver.memory policy job.queue (single name paused job) now rounds)
    ticks-Exhausted rounds job now zero idle open_queue waits some budget near enough retry =
        absurd (omega (arith, some))
    ticks-Exhausted [] job now (suc left) idle open_queue waits some budget near enough retry =
        absurd (omega (arith, suc-mul left (polls + 1), enough))
    ticks-Exhausted (round ∷ rest) job now (suc left) idle open_queue waits some budget near enough
          retry =
        elim (Bool-cases (is_due now job)) [
          | inr e ↦
              let (i, q) =
                spare_interval now job.available_at idle near (ground (arith, e, waits)) in
              rw (idle_round job now round rest e) (
                ticks-Exhausted rest job (now + policy.poll_interval_ms + round.late_ms) (suc left)
                  i open_queue waits some budget
                  (omega (
                    arith,
                    near,
                    ap (λ n. n * policy.poll_interval_ms) q,
                    suc-mul i policy.poll_interval_ms,
                  ))
                  (omega (arith, enough, q)) retry.1)
          | inl e ↦ elim (Nat-cases left) [
            | inl z ↦
                subst (λ n. Exhausted name paused job (suc n) (run job now (round ∷ rest))) (sym z)
                  (last_round job now round rest open_queue e retry.0 (omega (arith, budget, z)))
            | inr (l, z) ↦
                one_round job now left round rest open_queue e retry.0 (omega (arith, budget, z))
                  λ after ends.
                    let (waits_again, due_again) =
                      released_due policy name paused (reserve (now + round.takes_ms) job)
                        (now + round.takes_ms) (now + round.takes_ms + policy.max_backoff_ms)
                        (omega arith) (omega arith) in
                    ticks-Exhausted rest (retried (now + round.takes_ms) job) after left polls
                      open_queue waits_again (omega (arith, z)) (omega (arith, budget))
                      (omega (arith, due_again, covers, ends))
                      (omega (arith, suc-mul left (polls + 1), enough)) retry.1
          ]
        ]
      where
        spare_interval :
            (now t idle : ℕ)
            → t ≤ now + idle * policy.poll_interval_ms
            → now < t
            → (i : ℕ) × (idle ≡ suc i)
        spare_interval now t zero near early = absurd (omega (arith, near, early))
        spare_interval now t (suc i) near early = (i, refl)
