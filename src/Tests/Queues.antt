-- ===== src/Tests/Queues.antt =====
-- The theorems on the memory driver and on delays.
use ts_queue.Backoff.{compute_backoff}
use ts_queue.Backoff.Laws.{backoff_doubles}
use ts_queue.Jobs.{reserve}
use ts_queue.Memory.{new, pop, push, is_paused, is_eligible}
use ts_queue.Memory.Drain.{InOrder, pop_times, drain-InOrder}
use ts_queue.Memory.Exclusive.{Avoids, NotId, pop_exclusive}
use ts_queue.Memory.Invariant.{IsValid, AllProper, run-IsValid}
use ts_queue.Memory.Pop.{Reserves, pop-Reserves}
use ts_queue.Memory.Push.{Deduplicates, Enqueues, push_lem}
use ts_queue.Memory.Steps.{Call, pushes, pops, releases, fails, step, run, handed_out}
use ts_queue.Prelude.{
  count, ◌*◌, min, ◌≤◌, false, List, [], ◌∷◌, none, some, ◌≡◌, refl, arith, All, ◌⊎◌, text_discrete,
  text_ne,
}
use ts_queue.Tests.{job_a, job_b, two_jobs, two_jobs-distinct, again_k}

popped_a : (pop two_jobs "default" 7).1 ≡ some (reserve 7 job_a)
unfolding pop text_discrete
popped_a = refl

pop-Reserves_example :
    (is_paused two_jobs "default" ≡ false)
    × Reserves two_jobs "default" 7 (pop two_jobs "default" 7).0 (reserve 7 job_a)
pop-Reserves_example = pop-Reserves two_jobs "default" 7 two_jobs-distinct popped_a

-- Both jobs are due at 9: `job_b` is the older one.
popped_b : (pop two_jobs "default" 9).1 ≡ some (reserve 9 job_b)
unfolding pop text_discrete
popped_b = refl

abbrev after_a : List Call
after_a = pops "default" 8 ∷ releases "b" 0 9 ∷ pops "default" 10 ∷ []

after_a-Avoids : All (Avoids "a") after_a
after_a-Avoids = (tt, (text_ne "b" "a" refl, (tt, tt)))

pop_exclusive_example : All (NotId "a") (handed_out (pop two_jobs "default" 7).0 after_a)
pop_exclusive_example =
    pop_exclusive two_jobs "default" 7 after_a two_jobs-distinct popped_a after_a-Avoids

-- A job is pushed, refused as a duplicate, popped, released and failed.
abbrev life : List Call
life =
    pushes again_k
    ∷ pushes (record again_k { fresh_id = "d" })
    ∷ pops "default" 10
    ∷ releases "c" 50 11
    ∷ pops "default" 70
    ∷ fails "c" "no" 71
    ∷ []

life-AllProper : AllProper (new "mem") life
unfolding step text_discrete
life-AllProper = (tt, (tt, (tt, ((λ j h. ground (arith, h)), (tt, (tt, tt))))))

run-IsValid_example : IsValid (run (new "mem") life)
run-IsValid_example = run-IsValid "mem" life life-AllProper

push_lem_example :
    Deduplicates two_jobs again_k (push two_jobs again_k)
    ⊎ Enqueues two_jobs again_k (push two_jobs again_k)
push_lem_example = push_lem two_jobs again_k two_jobs-distinct

open_queue : is_paused two_jobs "default" ≡ false
unfolding is_paused
open_queue = refl

drain-InOrder_example :
    let calls = pop_times (count (is_eligible "default" 9) two_jobs.jobs) "default" 9 in
    let c' = run two_jobs calls in
    InOrder 0 (handed_out two_jobs calls) × (pop c' "default" 9 ≡ (c', none))
drain-InOrder_example = drain-InOrder two_jobs "default" 9 two_jobs-distinct open_queue

two_jobs-IsValid : IsValid two_jobs
unfolding text_discrete
two_jobs-IsValid = record {
  distinct = two_jobs-distinct;
  unique = (((λ u a b t. ground arith), tt), (tt, tt));
  sound = (ground arith, (ground arith, tt));
}

three_le : 1 ≤ 3
three_le = omega arith

backoff_doubles_example :
    compute_backoff 4 1000 30000 ≡ min (2 * compute_backoff 3 1000 30000) 30000
backoff_doubles_example = backoff_doubles 3 1000 30000 three_le
