-- ===== src/Tests/Tabbed.antt =====
-- The theorem on the tabs of one database, and what a change of the leader within a `pop` does.
use ts_queue.Broadcast.Tabs.{
  Tabs, act, new, Reach, here, next, elects, dispatches, scans, commits, releases, clears,
}
use ts_queue.Broadcast.Tabs.Led.{IsLed}
use ts_queue.Broadcast.Tabs.Safety.{Reach-IsLed}
use ts_queue.Job.{Job, reserved, Dispatch, no_options}
use ts_queue.Payload.{null}
use ts_queue.Prelude.{[], ◌∷◌, none, some, ◌≡◌, refl, arith, map, text_discrete}

abbrev mail : Dispatch
mail = record {
  name = "mail";
  payload = null;
  options = record no_options { tries = some 2 };
  now = 5;
  fresh_id = "a";
}

abbrev report : Dispatch
report = record mail { name = "report"; now = 6; fresh_id = "b" }

-- Tab 1 scans, a dispatch and a clear come between, it commits, so that its job is stored again, and gives the job back
-- after a failure; then tab 2 leads.
abbrev scanned : Tabs
scanned = act (act (act (new "main" 1) (dispatches mail)) (scans 1 "default" 7)) (dispatches report)

abbrev taken : Tabs
taken = act (act (act scanned (clears "default")) (commits 1 8)) (scans 2 "default" 8)

abbrev moved : Tabs
moved = act (act taken (releases "a" 100 9)) (elects 2)

abbrev last : Tabs
last = act moved (scans 2 "default" 200)

-- The job as it was handed out.
abbrev first_mail : Job
first_mail = record {
  id = "a";
  name = "mail";
  payload = null;
  queue = "default";
  connection = "main";
  status = reserved;
  attempts = 1;
  max_attempts = 2;
  backoff_ms = 1000;
  timeout_ms = 30000;
  available_at = 5;
  created_at = 5;
  updated_at = 8;
  tags = [];
  unique_id = none;
  last_error = none;
}

last-Reach : Reach "main" 1 last
unfolding act text_discrete
last-Reach =
    next
      (next
        (next
          (next
            (next
              (next
                (next
                  (next (next here (dispatches mail) (refl, refl, refl)) (scans 1 "default" 7) refl)
                  (dispatches report) (refl, refl, refl))
                (clears "default") tt)
              (commits 1 8) tt)
            (scans 2 "default" 8) refl)
          (releases "a" 100 9) (first_mail, refl, omega arith))
        (elects 2) refl)
      (scans 2 "default" 200) refl

Reach-IsLed_example : IsLed last
Reach-IsLed_example = Reach-IsLed "main" 1 last-Reach

-- The leader changes while tab 1 is between the transactions of its `pop`.
abbrev hasty : Tabs
hasty =
    act
      (act
        (act (act (act (act (new "main" 1) (dispatches mail)) (scans 1 "default" 7)) (elects 2))
          (scans 2 "default" 8))
        (commits 1 9))
      (commits 2 9)

held_twice : map (λ j. j.id) hasty.held ≡ "a" ∷ "a" ∷ []
unfolding act text_discrete
held_twice = refl
