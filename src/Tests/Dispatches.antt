-- ===== src/Tests/Dispatches.antt =====
-- The theorems on repeated dispatches, deduplication ids and handles.
use ts_queue.Handle.Isolation.{
  HandleCall, pushes, delays, clears, pauses, SameQueue, AllCallsFresh, run, step, run-SameQueue,
}
use ts_queue.Job.{Dispatch, no_options}
use ts_queue.Memory
use ts_queue.Memory.{push}
use ts_queue.Memory.Repeat.{IsDerived, push-again}
use ts_queue.Payload.{Value, number, object, end, field, Text}
use ts_queue.Payload.Reordered.{Reordered, in_object, swap}
use ts_queue.Prelude.{
  ◌*◌, ◌%◌, ◌^◌, ◌<◌, List, [], ◌∷◌, some, ◌≡◌, ◌≢◌, refl, arith, text_ne, text_discrete,
}
use ts_queue.Tests.{two_jobs}
use ts_queue.UniqueId.{compute_unique_id}
use ts_queue.UniqueId.{magnitude, fnv_prime, hash_mul}
use ts_queue.UniqueId.Laws.{hash_mul_exact, compute_unique_id-Reordered}

-- { a: 1, b: 2 } and { b: 2, a: 1 }
abbrev one_two : Value
one_two =
    object (field (b'a' ∷ []) (number (b'1' ∷ [])) (field (b'b' ∷ []) (number (b'2' ∷ [])) end))

abbrev two_one : Value
two_one =
    object (field (b'b' ∷ []) (number (b'2' ∷ [])) (field (b'a' ∷ []) (number (b'1' ∷ [])) end))

abbrev a_name : Text
a_name = b'a' ∷ []

abbrev b_name : Text
b_name = b'b' ∷ []

a_ne_b : a_name ≢ b_name
a_ne_b h = absurd (ground arith)

one_two-Reordered : Reordered one_two two_one
one_two-Reordered = in_object (swap a_ne_b)

compute_unique_id-Reordered_example :
    compute_unique_id "mail" one_two ≡ compute_unique_id "mail" two_one
compute_unique_id-Reordered_example =
    compute_unique_id-Reordered "mail" one_two two_one one_two-Reordered

abbrev first : Dispatch
first = record {
  name = "mail";
  payload = one_two;
  options = record no_options { unique_for = some 60 };
  now = 10;
  fresh_id = "c";
}

abbrev second : Dispatch
second = record first { payload = two_one; fresh_id = "d"; now = 11 }

first-IsDerived : IsDerived first
first-IsDerived = record { window = 60; asks = refl; unnamed = refl }

second-IsDerived : IsDerived second
second-IsDerived = record { window = 60; asks = refl; unnamed = refl }

push-again_example : let (c', id) = push two_jobs first in push c' second ≡ (c', id)
push-again_example =
    push-again two_jobs first second first-IsDerived second-IsDerived refl one_two-Reordered

abbrev calls : List HandleCall
calls = pushes first ∷ pauses ∷ delays 50 (record second { fresh_id = "e" }) ∷ clears ∷ []

calls-AllCallsFresh : AllCallsFresh "mails" two_jobs calls
unfolding step text_discrete push Memory.pause compute_unique_id
calls-AllCallsFresh = (refl, (tt, (refl, (tt, tt))))

run-SameQueue_example : SameQueue "default" two_jobs (run "mails" two_jobs calls)
run-SameQueue_example =
    run-SameQueue "mails" "default" calls two_jobs (text_ne "default" "mails" refl)
      calls-AllCallsFresh

hundred_lt : 100 < 2 ^ 32
hundred_lt = omega arith

hundred_small : magnitude 100 * fnv_prime < 2 ^ 53
unfolding magnitude
hundred_small = ground arith

hash_mul_exact_example : hash_mul 100 ≡ 100 * fnv_prime % 2 ^ 32
hash_mul_exact_example = hash_mul_exact 100 hundred_lt hundred_small
