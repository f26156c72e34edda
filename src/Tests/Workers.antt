-- ===== src/Tests/Workers.antt =====
-- The theorems on the worker.
use ts_queue.Base
use ts_queue.Driver
use ts_queue.Errors.{is_timeout, thrown, err}
use ts_queue.Prelude.{true, false, List, [], ◌∷◌, ◌≡◌, refl, arith, All, length}
use ts_queue.Tests.{job_a, two_jobs}
use ts_queue.Worker.{WorkerOptions, Race, Round, processor_first, handle, ticks}
use ts_queue.Worker.Loop.{Loop, new, run, stop, starts, stops, fires, settles, Signal}
use ts_queue.Worker.Loop
use ts_queue.Worker.Loop.Single.{IsSingle, AllCalm, run-IsSingle, restart_forks}
use ts_queue.Worker.Rounds.{is_retryable, Exhausted, single}
use ts_queue.Worker.Retry.{ticks-Exhausted}
use ts_queue.Worker.Trace.{IsTrace, handle-IsTrace}

abbrev policy : WorkerOptions
policy = record {
  tries = 1;
  backoff_ms = 1000;
  max_backoff_ms = 500;
  timeout_ms = 30000;
  poll_interval_ms = 500;
  auto_start = true;
  fail_on_timeout = true;
}

abbrev breaks : Race
breaks = processor_first (err (thrown "broken"))

handle-IsTrace_example : IsTrace job_a (handle Driver.memory policy two_jobs job_a breaks 9)
handle-IsTrace_example = handle-IsTrace Driver.memory policy two_jobs job_a breaks 9

-- The processor takes its time, and the timers are late.
abbrev rounds : List Round
rounds =
    record { race = breaks; takes_ms = 30; late_ms = 2 }
    ∷ record { race = breaks; takes_ms = 45; late_ms = 0 }
    ∷ record { race = breaks; takes_ms = 7; late_ms = 1 }
    ∷ record { race = breaks; takes_ms = 8; late_ms = 3 }
    ∷ []

rounds-retryable : All (λ r. is_retryable policy r.race ≡ true) rounds
unfolding is_timeout
rounds-retryable = (refl, (refl, (refl, (refl, tt))))

not_paused : Base.has job_a.queue [] ≡ false
unfolding Base.has
not_paused = refl

ticks-Exhausted_example :
    Exhausted "mem" [] job_a 2
      (ticks Driver.memory policy "default" (single "mem" [] job_a) 7 rounds)
ticks-Exhausted_example =
    ticks-Exhausted policy "mem" [] 1 (omega arith) rounds job_a 7 2 0 not_paused refl (omega arith)
      refl (omega arith) (omega arith) rounds-retryable

-- Started, one tick, stopped during it, started again after it.
abbrev signals : List Signal
signals = starts ∷ fires 0 ∷ stops ∷ settles ∷ starts ∷ []

signals-AllCalm : AllCalm (new "mem" "default") signals
unfolding Loop.step
signals-AllCalm = (refl, (tt, (tt, (tt, (refl, tt)))))

run-IsSingle_example : IsSingle (run (new "mem" "default") signals)
run-IsSingle_example = run-IsSingle "mem" "default" signals signals-AllCalm

abbrev in_a_tick : Loop
in_a_tick = record (new "mem" "default") { running = true; in_tick = 1; next_handle = 1 }

restart_forks_example :
    let forked = run in_a_tick (stops ∷ starts ∷ settles ∷ []) in
    (length forked.timers ≡ 2) × ((stop forked).running ≡ false) × (length (stop forked).timers ≡ 1)
restart_forks_example = restart_forks in_a_tick refl refl refl
