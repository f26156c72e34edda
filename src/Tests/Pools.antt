-- ===== src/Tests/Pools.antt =====
-- The theorems on several workers of one connection.
use ts_queue.Errors.{thrown, err}
use ts_queue.Job.{Dispatch, no_options}
use ts_queue.Payload.{null}
use ts_queue.Prelude.{◌≡◌, refl, some, text_discrete, true}
use ts_queue.Worker.Pool.{Pool, act, new, here, next, Reach, dispatches, takes, settles}
use ts_queue.Worker.Pool.Budget.{IsPaid, Reach-IsPaid}
use ts_queue.Worker.Pool.Invariant.{Reach-IsOrderly}
use ts_queue.Worker.Pool.Order.{IsOrderly}
use ts_queue.Worker.{WorkerOptions, processor_first}

abbrev policy : WorkerOptions
policy = record {
  tries = 1;
  backoff_ms = 1000;
  max_backoff_ms = 500;
  timeout_ms = 30000;
  poll_interval_ms = 500;
  auto_start = true;
  fail_on_timeout = true;
}

abbrev two_tries : Dispatch
two_tries = record {
  name = "mail";
  payload = null;
  options = record no_options { tries = some 2 };
  now = 5;
  fresh_id = "a";
}

abbrev one_try : Dispatch
one_try = record two_tries { options = no_options; fresh_id = "b" }

abbrev dispatched : Pool
dispatched = act policy (act policy (new "mem") (dispatches two_tries)) (dispatches one_try)

-- Two workers hold the two jobs.
abbrev both_held : Pool
both_held = act policy (act policy dispatched (takes "default" 6)) (takes "default" 6)

-- The processor of the first job fails.
abbrev one_failed : Pool
one_failed = act policy both_held (settles "a" (processor_first (err (thrown "broken"))) 7)

one_failed-Reach : Reach policy "mem" one_failed
unfolding act text_discrete
one_failed-Reach =
    next
      (next
        (next
          (next (next here (dispatches two_tries) (refl, refl)) (dispatches one_try) (refl, refl))
          (takes "default" 6) tt)
        (takes "default" 6) tt)
      (settles "a" (processor_first (err (thrown "broken"))) 7) tt

one_failed_counts : (one_failed.begun ≡ 2) × (one_failed.granted ≡ 3)
unfolding act text_discrete
one_failed_counts = (refl, refl)

Reach-IsOrderly_example : IsOrderly one_failed.connection one_failed.held
Reach-IsOrderly_example = Reach-IsOrderly policy "mem" one_failed-Reach

Reach-IsPaid_example : IsPaid one_failed
Reach-IsPaid_example = Reach-IsPaid policy "mem" one_failed-Reach
