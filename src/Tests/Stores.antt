-- ===== src/Tests/Stores.antt =====
-- The theorems on the drivers that store jobs in the browser.
use ts_queue.Base
use text.Mathlib.TextLemmas.{cons-append}
use ts_queue.IndexedDb.{IndexedDbConnection, is_paused, scan, commit}
use ts_queue.IndexedDb.Agreement
use ts_queue.IndexedDb.Agreement.{Shows, IsSettling, settling-agree}
use ts_queue.IndexedDb.Follows.{Holds}
use ts_queue.IndexedDb.History.{handed_out-same}
use ts_queue.IndexedDb.Pushes.{SameRecords}
use ts_queue.IndexedDb.Spread.{IsTimely, IsSpread}
use ts_queue.Memory.Invariant.{IsValid, IsSound}
use ts_queue.Jobs.Ids.{IdsDistinct}
use ts_queue.Jobs.Unique.{UniqueInFlight}
use ts_queue.Memory.{MemoryConnection}
use ts_queue.IndexedDb.Overlap.{run, overlapping_pops}
use ts_queue.Job.{reserved, Dispatch, no_options}
use ts_queue.Jobs.{get}
use ts_queue.LocalStorage.{LocalStorageConnection, read}
use ts_queue.LocalStorage.Agreement.{AllAgree, handed_out-agree}
use ts_queue.LocalStorage.Refinement.{Sim}
use ts_queue.LocalStorage.Steps
use ts_queue.LocalStorage.Store.{get_item, parse}
use ts_queue.LocalStorage.Tubes.{AcceptsPrefix}
use ts_queue.Memory.{new}
use ts_queue.Memory.Steps.{Call, pushes, pops, removes, releases, pauses, step, handed_out}
use ts_queue.Prelude.{
  String, Bool, true, false, List, [], ◌∷◌, none, some, ◌≡◌, refl, All, arith, text_ne,
  text_discrete, same, same_refl, ◌+++◌, if◌then◌else◌,
}
use ts_queue.Tests.{job_a, job_b, two_jobs, two_jobs-distinct, again_k}

abbrev database : IndexedDbConnection
database = record { name = "mem"; jobs = job_a ∷ job_b ∷ []; meta = λ q. none }

database-Shows : Shows database two_jobs
unfolding is_paused Base.has
database-Shows = record { same_jobs = refl; same_paused = λ q. refl }

abbrev work : List Call
work =
    pops "default" 7 ∷ releases "a" 10 8 ∷ pops "default" 9 ∷ removes "b" ∷ pops "default" 20 ∷ []

work-IsSettling : All IsSettling work
work-IsSettling = (tt, (tt, (tt, (tt, (tt, tt)))))

scanned_a : scan database "default" 7 ≡ some job_a
unfolding scan text_discrete
scanned_a = refl

overlapping_pops_example :
    let (c', job) = commit database job_a 8 in
    let (c'', again) = commit (run c' (removes "a" ∷ [])) job_a 9 in
    (again.id ≡ job.id)
    × (again.attempts ≡ job.attempts)
    × (get job.id c''.jobs ≡ some again)
    × (again.status ≡ reserved)
overlapping_pops_example =
    overlapping_pops database "default" 7 8 9 (removes "a" ∷ []) scanned_a scanned_a

-- An empty browser store with room for everything.
abbrev browser : LocalStorageConnection
browser = record {
  name = "mem";
  prefix = "app:";
  store = record { available = true; cells = []; fits = λ cells. true };
}

browser-Sim : Sim (new "mem") browser
unfolding read get_item parse Base.has
browser-Sim = record {
  same_name = refl;
  roomy = record { available = refl; room = λ cells. refl };
  distinct = tt;
  same_tubes = λ q. refl;
}

-- `startsWith`, character by character.
begins : String → String → Bool
begins String.[] k = true
begins (String.◌∷◌ c p) String.[] = false
begins (String.◌∷◌ c p) (String.◌∷◌ d k) =
    let rest = begins p k in if same (String.◌∷◌ c "") (String.◌∷◌ d "") then rest else false

abbrev starts_with : String → String → Bool
starts_with k p = begins p k

begins-append : (p k : String) → begins p (p +++ k) ≡ true
unfolding begins
begins-append String.[] k = refl
begins-append (String.◌∷◌ c p) k = rw (cons-append, same_refl (String.◌∷◌ c "")) (begins-append p k)

starts_with-AcceptsPrefix : AcceptsPrefix starts_with
starts_with-AcceptsPrefix p k = begins-append p k

abbrev history : List Call
history = pushes again_k ∷ pops "default" 10 ∷ releases "c" 5 11 ∷ pauses "default" ∷ []

history-AllAgree : AllAgree (new "mem") history
unfolding step
history-AllAgree = ((tt, refl), (tt, (tt, (tt, tt))))

handed_out-agree_example :
    Steps.handed_out starts_with browser history ≡ handed_out (new "mem") history
handed_out-agree_example =
    handed_out-agree starts_with history (new "mem") browser starts_with-AcceptsPrefix browser-Sim
      history-AllAgree

-- The jobs of the database in the order in which they were pushed.
abbrev pushed : MemoryConnection
pushed = record two_jobs { jobs = job_b ∷ job_a ∷ [] }

database-SameRecords : SameRecords database.jobs pushed.jobs
database-SameRecords i = ground (arith, text_ne "a" "b" refl)

pushed_distinct : IdsDistinct pushed.jobs
unfolding text_discrete
pushed_distinct = (refl, (refl, tt))

pushed_unique : UniqueInFlight pushed.jobs
pushed_unique = (((λ u f g t e. absurd (cc)), tt), (tt, tt))

pushed-IsValid : IsValid pushed
pushed-IsValid = record {
  distinct = pushed_distinct;
  unique = pushed_unique;
  sound = (sound_b, (sound_a, tt));
}
  where
    sound_a : IsSound "mem" job_a
    sound_a = record {
      connected = refl;
      popped = λ e. absurd (cc);
      explained = λ e. absurd (cc);
      not_processing = λ e. absurd (cc);
      not_completed = λ e. absurd (cc);
    }

    sound_b : IsSound "mem" job_b
    sound_b = record {
      connected = refl;
      popped = λ e. absurd (cc);
      explained = λ e. absurd (cc);
      not_processing = λ e. absurd (cc);
      not_completed = λ e. absurd (cc);
    }

pushed-IsSpread : IsSpread pushed.jobs
unfolding text_discrete
pushed-IsSpread = record { named = refl; apart = λ i k j j' e e' t. ground (arith, e, e', t) }

database-Holds : Holds database pushed
unfolding is_paused Base.has
database-Holds = record {
  same_name = refl;
  same_records = database-SameRecords;
  same_paused = λ q. refl;
  distinct = two_jobs-distinct;
  valid = pushed-IsValid;
  spread = pushed-IsSpread;
}

-- A new job is pushed, and two jobs are handed out.
abbrev dispatch_c : Dispatch
dispatch_c = record again_k { options = no_options }

abbrev shift : List Call
shift = pushes dispatch_c ∷ pops "default" 9 ∷ removes "b" ∷ pops "default" 20 ∷ []

dispatch_c-IsTimely : IsTimely pushed (pushes dispatch_c)
unfolding text_discrete
dispatch_c-IsTimely = (text_ne "c" "" refl, refl, λ i j e t. absurd (ground (arith, e, t)))

handed_out-same_example : Agreement.handed_out database shift ≡ handed_out pushed shift
handed_out-same_example =
    handed_out-same shift database pushed database-Holds (dispatch_c-IsTimely, (tt, (tt, (tt, tt))))
      (tt, (tt, (tt, (tt, tt))))
