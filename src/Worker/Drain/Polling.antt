-- ===== src/Worker/Drain/Polling.antt =====
-- The ticks of a worker that keeps polling.
use native.Mathlib.Nat.{suc-mul, add-mul, mul-le-mul_right}
use ts_queue.Base
use ts_queue.Driver
use ts_queue.Job.{Job, is_waiting, is_in_flight}
use ts_queue.Jobs.{get, modify, reserve, in_queue}
use ts_queue.Jobs.Views.{All-get}
use ts_queue.Jobs.Oldest.{Scanned, oldest-Scanned}
use ts_queue.Memory
use ts_queue.Memory.{MemoryConnection, choose, is_eligible}
use ts_queue.Memory.Pop.{get-choose, choose-IsOldest}
use ts_queue.Prelude.{
  ℕ, zero, suc, ◌+◌, ◌*◌, ◌≤◌, String, true, false, ◌&&◌, List, [], ◌∷◌, none, some, ◌≡◌, subst,
  refl, arith, All, Bool-cases, Option-cases, inl, inr, length,
}
use ts_queue.Worker.Drain.{IsReady}
use ts_queue.Worker.Drain.Attempt.{attempt-Leaves}
use ts_queue.Worker.Pool.Settle.{handle-Settled}
use ts_queue.Worker.Weights.{weight_all, weight_all-zero, weight-zero}
use ts_queue.Worker.{WorkerOptions, Race, Round, tick, ticks}

pop_none :
    (c : MemoryConnection) (queue : String) (now : ℕ)
    → Base.has queue c.paused_queues ≡ false
    → choose queue now c.jobs ≡ none
    → Memory.pop c queue now ≡ (c, none)
unfolding Memory.pop
pop_none c queue now o e = rw (o, e) refl

pop_some :
    (c : MemoryConnection) (queue : String) (now : ℕ) {n : Job}
    → Base.has queue c.paused_queues ≡ false
    → choose queue now c.jobs ≡ some n
    → Memory.pop c queue now
      ≡ (record c { jobs = modify n.id (reserve now) c.jobs }, some (reserve now n))
unfolding Memory.pop
pop_some c queue now o e = rw (o, e) refl

module _ (policy : WorkerOptions) (queue : String) where
  -- Nothing is due: then nothing waits.
  idle_weight :
      (t now : ℕ) (c : MemoryConnection)
      → t ≤ now
      → IsReady queue t c
      → choose queue now c.jobs ≡ none
      → weight_all queue c.jobs ≡ 0
  idle_weight t now c late ready e = weight_all-zero queue c.jobs ready.distinct λ i j g.
      elim (Bool-cases (in_queue queue j && is_waiting j.status)) [
        | inl w ↦
            let q = ready.quiet i j g (ground (arith, w)) (ground (arith, w)) in
            absurd (ground (arith, w, q.1, late, All-get _ i c.jobs none_due g))
        | inr w ↦ ground (arith, w)
      ]
    where
      none_due : All (λ j. is_eligible queue now j ≡ false) c.jobs
      none_due =
          subst (λ o. Scanned (is_eligible queue now) c.jobs o) e
            (oldest-Scanned (is_eligible queue now) c.jobs)

  later-IsReady : (t u : ℕ) (c : MemoryConnection) → t ≤ u → IsReady queue t c → IsReady queue u c
  later-IsReady t u c l r = record {
    distinct = r.distinct;
    open_queue = r.open_queue;
    quiet = λ i j e q f. let old = r.quiet i j e q f in (old.0, omega (arith, old.1, l), old.2);
  }

  tick-IsReady :
      (t now later again : ℕ) (c : MemoryConnection) (race : Race)
      → t ≤ again
      → later + policy.max_backoff_ms ≤ again
      → IsReady queue t c
      → {n : Job} → choose queue now c.jobs ≡ some n
      → let r = tick Driver.memory policy queue c race now later in
        (weight_all queue r.state.jobs + 1 ≤ weight_all queue c.jobs) × IsReady queue again r.state
  unfolding tick
  tick-IsReady t now later again c race grows late ready {n} e =
      let found = get-choose queue now c.jobs ready.distinct e in
      let due = (choose-IsOldest queue now c.jobs e).is_eligible in
      rw (pop_some c queue now ready.open_queue e, tick)
        (attempt-Leaves policy queue t now later again grows late c n ready found due (
          handle-Settled policy (record c { jobs = modify n.id (reserve now) c.jobs })
            (reserve now n) race later))

  tick-ended :
      (now later : ℕ) (c : MemoryConnection) (race : Race)
      → Base.has queue c.paused_queues ≡ false
      → {n : Job} → choose queue now c.jobs ≡ some n
      → later ≤ (tick Driver.memory policy queue c race now later).ended
  unfolding tick
  tick-ended now later c race open_queue {n} e =
      rw (pop_some c queue now open_queue e, tick) (omega arith)

  -- So many poll intervals cover the longest delay of a retry.
  module _ (polls : ℕ) (covers : policy.max_backoff_ms ≤ polls * policy.poll_interval_ms) where
    -- The ticks that settle the jobs in flight: for every attempt one, and the idle ones until its job is due.
    abbrev pub needed : ℕ → ℕ → ℕ
    needed attempts idle = attempts * (polls + 1) + idle

    needed-zero : (attempts idle : ℕ) → needed attempts idle ≤ 0 → attempts ≡ 0
    needed-zero zero idle l = refl
    needed-zero (suc n) idle l = absurd (omega (arith, l, suc-mul n (polls + 1)))

    needed-less : (a b idle n : ℕ) → a + 1 ≤ b → needed b idle ≤ suc n → needed a (polls + idle) ≤ n
    needed-less a b idle n l m = omega (
      arith,
      m,
      suc-mul a (polls + 1),
      mul-le-mul_right {m = suc a} {n = b} (polls + 1) (omega (arith, l)),
    )

    -- After an idle tick, at a time that is a poll interval later, one idle tick less is to come.
    idle-IsReady :
        (now after idle n : ℕ) (c : MemoryConnection)
        → now + policy.poll_interval_ms ≤ after
        → choose queue now c.jobs ≡ none
        → IsReady queue (now + idle * policy.poll_interval_ms) c
        → needed (weight_all queue c.jobs) idle ≤ suc n
        → (i : ℕ) × IsReady queue (after + i * policy.poll_interval_ms) c
          × (needed (weight_all queue c.jobs) i ≤ n)
    idle-IsReady now after zero n c l e ready enough =
        let nothing : weight_all queue c.jobs ≡ 0 =
          idle_weight (now + 0 * policy.poll_interval_ms) now c (omega arith) ready e in
        (
          0,
          later-IsReady _ (after + 0 * policy.poll_interval_ms) c (omega (arith, l)) ready,
          rw nothing (omega arith),
        )
    idle-IsReady now after (suc i) n c l e ready enough = (
      i,
      later-IsReady _ (after + i * policy.poll_interval_ms) c
          (omega (arith, l, suc-mul i policy.poll_interval_ms)) ready,
      omega (arith, enough),
    )

    ticks-IsReady :
        (now idle : ℕ) (c : MemoryConnection) (rounds : List Round)
        → IsReady queue (now + idle * policy.poll_interval_ms) c
        → needed (weight_all queue c.jobs) idle ≤ length rounds
        → (t : ℕ) × (let m = (ticks Driver.memory policy queue c now rounds).0 in
            (weight_all queue m.jobs ≡ 0) × IsReady queue t m)
    unfolding ticks
    ticks-IsReady now idle c [] ready enough =
        (now + idle * policy.poll_interval_ms, (needed-zero _ idle enough, ready))
    ticks-IsReady now idle c (round ∷ rest) ready enough =
        let later = now + round.takes_ms in
        let r = tick Driver.memory policy queue c round.race now later in
        let after = r.ended + r.next_delay + round.late_ms in
        elim (Option-cases (choose queue now c.jobs)) [
          | inl e ↦
              rw (pop_none c queue now ready.open_queue e, tick)
                (let (i, next, fewer) =
                    idle-IsReady now (now + policy.poll_interval_ms + round.late_ms) idle
                      (length rest) c (omega arith) e ready enough in
                  ticks-IsReady (now + policy.poll_interval_ms + round.late_ms) i c rest next fewer)
          | inr (n, e) ↦
              let ends = tick-ended now later c round.race ready.open_queue e in
              let split = add-mul polls idle policy.poll_interval_ms in
              let (less, next) =
                tick-IsReady (now + idle * policy.poll_interval_ms) now later
                  (after + (polls + idle) * policy.poll_interval_ms) c round.race
                  (omega (arith, ends, split)) (omega (arith, ends, split, covers)) ready e in
              ticks-IsReady after (polls + idle) r.state rest next
                (needed-less _ (weight_all queue c.jobs) idle (length rest) less enough)
        ]

    -- A memory connection on which the queue is not paused and ids are distinct, and on which every job in flight on
    -- the queue waits, is due within `idle` poll intervals, and has an attempt left. One worker polls the queue on its
    -- own schedule, from `now` on, whatever the processor does, the time it takes and the lateness of timers, and
    -- nothing else is called on the connection. If there are `polls` poll intervals in the longest delay of a retry,
    -- then after `polls + 1` ticks for each attempt that those jobs have left, and `idle` more, no job of the queue is
    -- in flight.
    pub ticks_settle :
        (now idle : ℕ) (c : MemoryConnection) (rounds : List Round) (i : String) {j : Job}
        → IsReady queue (now + idle * policy.poll_interval_ms) c
        → needed (weight_all queue c.jobs) idle ≤ length rounds
        → get i (ticks Driver.memory policy queue c now rounds).0.jobs ≡ some j
        → in_queue queue j ≡ true
        → is_in_flight j.status ≡ false
    ticks_settle now idle c rounds i {j} ready enough e q =
        let (t, (none_left, last)) = ticks-IsReady now idle c rounds ready enough in
        elim (Bool-cases (is_in_flight j.status)) [
          | inl f ↦
              let (w, due, left) = last.quiet i j e q f in
              absurd (ground (arith, w, q, left, weight-zero queue i _ {j = j} none_left e))
          | inr f ↦ f
        ]
