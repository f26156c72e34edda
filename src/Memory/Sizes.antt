-- ===== src/Memory/Sizes.antt =====
-- The counters of the memory driver.
use ts_queue.Base
use ts_queue.Job.{Job, pending, delayed, reserved, same_status, is_in_flight}
use ts_queue.Jobs.{get, modify, reserve, in_queue}
use ts_queue.Memory.{MemoryConnection, pop, size, pending_size, delayed_size, reserved_size, choose}
use ts_queue.Memory.Invariant.{IsValid, IsSound}
use ts_queue.Memory.Pop.{choose-IsOldest, get-choose}
use ts_queue.Prelude.{
  ℕ, ◌+◌, String, Bool, ◌&&◌, List, [], ◌∷◌, some, ◌≡◌, arith, All, count, Bool-cases, Option-cases,
  inl, inr, if◌then◌else◌,
}

count_parts :
    (name queue : String) (jobs : List Job)
    → All (IsSound name) jobs
    → count (λ j. in_queue queue j && is_in_flight j.status) jobs
      ≡ count (λ j. in_queue queue j && same_status j.status pending) jobs
        + count (λ j. in_queue queue j && same_status j.status delayed) jobs
        + count (λ j. in_queue queue j && same_status j.status reserved) jobs
count_parts name queue [] a = omega arith
count_parts name queue (j ∷ js) a = ground (arith, count_parts name queue js a.1)

-- On a connection that satisfies the invariant of histories, the size of a queue is the number of
-- its pending, delayed and reserved jobs together.
pub size_parts :
    (c : MemoryConnection) (queue : String)
    → IsValid c
    → size c queue ≡ pending_size c queue + delayed_size c queue + reserved_size c queue
unfolding size pending_size delayed_size reserved_size
size_parts c queue v = count_parts c.name queue c.jobs v.sound

abbrev pub one_if : Bool → ℕ
one_if b = if b then 1 else 0

pub count-modify :
    (p : Job → Bool) (i : String) (f : Job → Job) (jobs : List Job) {j : Job}
    → get i jobs ≡ some j
    → count p (modify i f jobs) + one_if (p j) ≡ count p jobs + one_if (p (f j))
unfolding modify
count-modify p i f [] h = ground arith
count-modify p i f (k ∷ ks) {j} h = ground (arith, count-modify p i f ks {j = j})

-- On a connection that satisfies the invariant of histories, a `pop` that hands out a job leaves
-- the number in flight on the queue, and moves one from the pending and delayed to the reserved.
pub pop-sizes :
    (c : MemoryConnection) (queue : String) (now : ℕ) {job : Job}
    → IsValid c
    → (pop c queue now).1 ≡ some job
    → let c' = (pop c queue now).0 in
      (size c' queue ≡ size c queue)
      × (reserved_size c' queue ≡ reserved_size c queue + 1)
      × (pending_size c' queue + delayed_size c' queue + 1
          ≡ pending_size c queue + delayed_size c queue)
unfolding pop size pending_size delayed_size reserved_size
pop-sizes c queue now v h = elim (Bool-cases (Base.has queue c.paused_queues)) [
  | inl p ↦ absurd (ground arith)
  | inr p ↦ elim (Option-cases (choose queue now c.jobs)) [
    | inl e ↦ absurd (ground arith)
    | inr (n, e) ↦
        let there = get-choose queue now c.jobs v.distinct e in
        let due = (choose-IsOldest queue now c.jobs e).is_eligible in
        rw (p, e)
          (ground (
            arith,
            count-modify (λ j. in_queue queue j && is_in_flight j.status) n.id (reserve now) c.jobs
                there,
            count-modify (λ j. in_queue queue j && same_status j.status pending) n.id (reserve now)
                c.jobs there,
            count-modify (λ j. in_queue queue j && same_status j.status delayed) n.id (reserve now)
                c.jobs there,
            count-modify (λ j. in_queue queue j && same_status j.status reserved) n.id (reserve now)
                c.jobs there,
          ))
  ]
]
