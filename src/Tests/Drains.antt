-- ===== src/Tests/Drains.antt =====
-- The theorems on a worker that keeps polling, and on generated ids.
use ts_queue.Base
use ts_queue.Driver
use ts_queue.Errors.{thrown, err}
use ts_queue.Ids.{generate_job_id, slice}
use ts_queue.Ids.Fallback.{read_id, read_id-generate_job_id}
use ts_queue.Job.{Job, Dispatch, no_options, create_queued_job, is_in_flight, failed}
use ts_queue.Jobs.{get, in_queue}
use ts_queue.Memory
use ts_queue.Prelude.{
  ◌+◌, ◌*◌, ◌≤◌, true, false, List, [], ◌∷◌, none, some, ◌≡◌, refl, arith, length, text_discrete,
}
use ts_queue.Tests.{job_a, job_b, two_jobs, two_jobs-distinct}
use ts_queue.Worker.Drain.{IsReady, IsQuiet}
use ts_queue.Payload.{null}
use ts_queue.Worker.Drain.Dispatched.{made, dispatch_settles}
use ts_queue.Worker.Drain.Polling.{ticks_settle}
use ts_queue.Worker.Weights.{weight_all, allowance}
use ts_queue.Jobs.Views.{All-get}
use ts_queue.Worker.{WorkerOptions, Race, Round, processor_first, ticks}

abbrev policy : WorkerOptions
policy = record {
  tries = 1;
  backoff_ms = 1000;
  max_backoff_ms = 500;
  timeout_ms = 30000;
  poll_interval_ms = 500;
  auto_start = true;
  fail_on_timeout = true;
}

abbrev breaks : Race
breaks = processor_first (err (thrown "broken"))

abbrev slow : Round
slow = record { race = breaks; takes_ms = 30; late_ms = 2 }

abbrev rounds : List Round
rounds = slow ∷ slow ∷ slow ∷ slow ∷ slow ∷ slow ∷ slow ∷ slow ∷ []

two_jobs-IsReady : IsReady "default" 9 two_jobs
unfolding Base.has
two_jobs-IsReady = record {
  distinct = two_jobs-distinct;
  open_queue = refl;
  quiet = λ i j e. All-get (IsQuiet "default" 9) i two_jobs.jobs (quiet_a, (quiet_b, tt)) e;
}
  where
    quiet_a : IsQuiet "default" 9 job_a
    quiet_a q f = (refl, omega arith, omega arith)

    quiet_b : IsQuiet "default" 9 job_b
    quiet_b q f = (refl, omega arith, omega arith)

enough : weight_all "default" two_jobs.jobs * (1 + 1) + 0 ≤ length rounds
unfolding weight_all text_discrete
enough = omega arith

-- The second job after the rounds, of which the first and the fourth were its own and the third was idle.
abbrev spent : Job
spent = record job_b {
  status = failed;
  attempts = 2;
  available_at = 239;
  updated_at = 605;
  last_error = some "Job [b] has been attempted too many times (2 attempts).";
}

found : get "b" (ticks Driver.memory policy "default" two_jobs 9 rounds).0.jobs ≡ some spent
unfolding ticks text_discrete Memory.pop Memory.release Memory.fail
found = refl

on_queue : in_queue "default" spent ≡ true
unfolding text_discrete
on_queue = refl

ticks_settle_example : is_in_flight spent.status ≡ false
ticks_settle_example =
    ticks_settle policy "default" 1 (omega arith) 9 0 two_jobs rounds "b" two_jobs-IsReady enough
      found on_queue

-- A third job, and two more rounds.
abbrev late_mail : Dispatch
late_mail = record { name = "mail"; payload = null; options = no_options; now = 6; fresh_id = "c" }

abbrev more : List Round
more = slow ∷ slow ∷ rounds

due_by_then : (made two_jobs late_mail).available_at ≤ 9
unfolding create_queued_job
due_by_then = omega arith

enough_for_it :
    (weight_all "default" two_jobs.jobs + allowance (made two_jobs late_mail)) * (1 + 1) + 0
    ≤ length more
unfolding weight_all create_queued_job text_discrete
enough_for_it = omega arith

abbrev spent_mail : Job
spent_mail = record {
  id = "c";
  name = "mail";
  payload = null;
  queue = "default";
  connection = "mem";
  status = failed;
  attempts = 1;
  max_attempts = 1;
  backoff_ms = 1000;
  timeout_ms = 30000;
  available_at = 6;
  created_at = 6;
  updated_at = 103;
  tags = [];
  unique_id = none;
  last_error = some "Job [c] has been attempted too many times (1 attempts).";
}

found_mail :
    get "c" (ticks Driver.memory policy "default" (Memory.push two_jobs late_mail).0 9 more).0.jobs
    ≡ some spent_mail
unfolding ticks text_discrete Memory.pop Memory.release Memory.fail Memory.push
found_mail = refl

mail_on_queue : in_queue "default" spent_mail ≡ true
unfolding text_discrete
mail_on_queue = refl

dispatch_settles_example : is_in_flight spent_mail.status ≡ false
dispatch_settles_example =
    dispatch_settles "default" 9 0 two_jobs late_mail policy 1 (omega arith) more "c"
      two_jobs-IsReady due_by_then enough_for_it found_mail mail_on_queue

read_id-generate_job_id_example :
    read_id (generate_job_id none 1700000000000 "0.4fzyo82mvyr")
    ≡ (1700000000000, slice 2 11 "0.4fzyo82mvyr")
read_id-generate_job_id_example = read_id-generate_job_id 1700000000000 "0.4fzyo82mvyr"

an_id : generate_job_id none 35 "0.4fzyo82mvyr" ≡ "job_z_4fzyo82mv"
unfolding generate_job_id
an_id = refl
