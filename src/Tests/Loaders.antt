-- ===== src/Tests/Loaders.antt =====
-- The theorems on the processor loader and on opening a database.
use ts_queue.Errors.{Error, thrown, Result, ok, err}
use ts_queue.IndexedDb.Opening.{Browser, Opener, open_db, can_transact}
use ts_queue.IndexedDb.Opening.Sharing.{Upgraded, open_db-Upgraded, shared_database}
use ts_queue.Loader.{
  LoaderState, Provider, ProcessorMetadata, Target, Emitter, register_processor, bootstrap,
  shutdown,
}
use ts_queue.Loader.Called.{called, asked}
use ts_queue.Loader.Delivery.{bootstrap-asked}
use ts_queue.Loader.Handlers.{later_processor_wins}
use ts_queue.Loader.Lifecycle.{shutdown-bootstrap}
use ts_queue.Loader.Listeners.{IsLawful}
use ts_queue.Loader.Spawn.{Registered, register_processor-Registered}
use ts_queue.Prelude.{
  ℕ, ◌==◌, ◌&&◌, not, String, Bool, true, false, List, [], ◌∷◌, Option, none, some, ◌≡◌, ◌≢◌, refl,
  arith, All, keep, length, same, text_discrete, text_ne, if◌then◌else◌,
}
use ts_queue.Prelude.Maps.{lookup}

-- An event manager that lists who listens.
abbrev heard : List (String × ℕ) → String → ℕ → Bool
heard [] event n = false
heard ((x, k) ∷ e) event n = if same x event && (k == n) then true else heard e event n

abbrev emitter : Emitter (List (String × ℕ))
emitter = record {
  on = λ e event n. (event, n) ∷ e;
  off = λ e event n. keep (λ (x : String × ℕ). not (same event x.0 && (n == x.1))) e;
  listening = heard;
}

heard_less :
    (e : List (String × ℕ)) (event other : String) (n k : ℕ)
    → heard (emitter.off e event n) other k
      ≡ (if same event other && (n == k) then false else heard e other k)
heard_less [] event other n k = ground arith
heard_less (x ∷ e) event other n k = ground (arith, heard_less e event other n k)

emitter-IsLawful : IsLawful emitter
emitter-IsLawful = record { listening-on = λ e event other n k. refl; listening-off = heard_less }

abbrev mailer : Provider
mailer = record {
  number = 1;
  class_name = "Mailer";
  is_worker_host = true;
  metadata = some (record { queue = "mail"; connection = none; concurrency = some 2 });
  methods =
      record {
        key = "on_failed";
        entries = record { event = "queue.job.failed"; connection = some "main" } ∷ [];
      }
      ∷ [];
}

abbrev reports : ProcessorMetadata
reports = record { queue = "reports"; connection = some "inline"; concurrency = none }

abbrev reporter : Provider
reporter = record {
  number = 2;
  class_name = "Reporter";
  is_worker_host = true;
  metadata = some reports;
  methods = [];
}

abbrev auditor : Provider
auditor = record reporter {
  number = 3;
  class_name = "Auditor";
  metadata = some (record reports { queue = "audit" });
}

abbrev connect : String → Result Target
connect name = ok (record { name = name; is_sync = same name "inline" })

abbrev idle : LoaderState (List (String × ℕ))
idle = record {
  workers = [];
  listeners = [];
  sync_handlers = [];
  events = some (("queue.job.failed", 0) ∷ []);
  next_number = 5;
}

register_processor-Registered_example :
    let r = register_processor emitter connect "main" idle reporter reports in
    Registered idle reporter reports (connect "inline") r.0 r.1
register_processor-Registered_example =
    register_processor-Registered emitter connect "main" idle reporter reports

shutdown-bootstrap_example :
    let booted = (bootstrap emitter connect "main" idle (mailer ∷ reporter ∷ [])).0 in
    let (after, stopped) = shutdown emitter booted in
    (length stopped ≡ length booted.workers)
    × All (λ w. w.loop.running ≡ false) stopped
    × (after.workers ≡ [])
    × (after.listeners ≡ [])
    × ((e : List (String × ℕ)) × (after.events ≡ some e)
        × ((event : String) (n : ℕ)
            → heard e event n ≡ heard (("queue.job.failed", 0) ∷ []) event n))
shutdown-bootstrap_example =
    shutdown-bootstrap emitter emitter-IsLawful connect "main" (("queue.job.failed", 0) ∷ []) idle
      (mailer ∷ reporter ∷ []) refl refl (λ event k l. ground (arith, l))

inline_sync : (connect "inline") ≡ ok (record { name = "inline"; is_sync = true })
unfolding text_discrete
inline_sync = refl

later_processor_wins_example :
    lookup "inline"
      (bootstrap emitter connect "main" idle (reporter ∷ auditor ∷ [])).0.sync_handlers
    ≡ some 3
later_processor_wins_example =
    later_processor_wins emitter connect "main" idle reporter auditor reports
      (record reports { queue = "audit" }) (record { name = "inline"; is_sync = true }) refl refl
      refl refl inline_sync inline_sync refl

abbrev browser : Browser
browser = record { available = true; databases = [] }

abbrev mail_opener : Opener
mail_opener = record {
  name = "mail";
  db_name = "app";
  version = 1;
  prefix = "queue:";
  db_promise = none;
}

abbrev report_opener : Opener
report_opener = record mail_opener { name = "reports" }

open_db-Upgraded_example : Upgraded browser mail_opener (open_db browser mail_opener)
unfolding lookup
open_db-Upgraded_example = open_db-Upgraded browser mail_opener refl refl (omega arith)

shared_database_example :
    let b' = (open_db browser mail_opener).0 in
    let (b'', d', r) = open_db b' report_opener in
    (r ≡ ok tt) × (b'' ≡ b') × (can_transact b'' report_opener ≡ false)
unfolding lookup
shared_database_example =
    shared_database browser mail_opener report_opener refl refl refl refl refl refl (omega arith)
      refl (text_ne "reports" "mail" refl)

abbrev no_browser : Browser
no_browser = record { available = false; databases = [] }

abbrev unavailable : Error
unavailable = thrown "IndexedDB is not available in this environment."

refused : (open_db no_browser mail_opener).2 ≡ err unavailable
unfolding open_db
refused = refl

abbrev booted : LoaderState (List (String × ℕ)) × Result (Unit {0})
booted = bootstrap emitter connect "main" idle (mailer ∷ reporter ∷ [])

booted_ok : booted.1 ≡ ok tt
unfolding bootstrap text_discrete
booted_ok = refl

main_named : ◌≢◌ {A = Option String} (some "main") (some "")
main_named e = absurd (cc)

-- A job of the connection `main` fails.
bootstrap-asked_example :
    (e : List (String × ℕ)) × (booted.0.events ≡ some e)
    × (called (heard e "queue.job.failed") (some "main") booted.0.listeners
        ≡ asked "queue.job.failed" (some "main") (mailer ∷ reporter ∷ []))
bootstrap-asked_example =
    bootstrap-asked emitter emitter-IsLawful "queue.job.failed" (some "main") main_named connect
      "main" (("queue.job.failed", 0) ∷ []) idle (mailer ∷ reporter ∷ []) refl refl
      (λ event k l. ground (arith, l)) booted_ok

-- Its failure reaches the method of the mailer, that of a job of another connection does not.
asked_example :
    (asked "queue.job.failed" (some "main") (mailer ∷ reporter ∷ []) ≡ (1, "on_failed") ∷ [])
    × (asked "queue.job.failed" (some "other") (mailer ∷ reporter ∷ []) ≡ [])
unfolding asked text_discrete
asked_example = (refl, refl)
