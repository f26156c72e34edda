-- ===== src/Manager/Options.antt =====
-- The configuration that src/services/queue-manager.service.ts reads, and `getWorkerOptions`.
use ts_queue.Prelude.{ℕ, String, Bool, true, List, Option, none, or_default}
use ts_queue.Worker.{WorkerOptions}

-- A row of `config.connections`: the fields that the connectors read. A missing driver is `""`.
pub record ConnectionConfig : Type 0 where
  pub driver : String
  pub name : Option String
  pub prefix : Option String
  pub db_name : Option String
  pub db_version : Option ℕ
  pub mode : Option String
  pub token : Option String
  pub proxy_url : Option String
  pub default_destination : Option String
  pub base_url : Option String

-- `config.worker`
pub record WorkerSettings : Type 0 where
  pub tries : Option ℕ
  pub backoff_ms : Option ℕ
  pub max_backoff_ms : Option ℕ
  pub timeout_ms : Option ℕ
  pub poll_interval_ms : Option ℕ
  pub auto_start : Option Bool
  pub fail_on_timeout : Option Bool

abbrev pub no_settings : WorkerSettings
no_settings = record {
  tries = none;
  backoff_ms = none;
  max_backoff_ms = none;
  timeout_ms = none;
  poll_interval_ms = none;
  auto_start = none;
  fail_on_timeout = none;
}

pub record ModuleOptions : Type 0 where
  pub default : String
  pub connections : List (String × ConnectionConfig)
  pub worker : Option WorkerSettings

-- `getWorkerOptions`
unfoldable pub get_worker_options : ModuleOptions → WorkerOptions
get_worker_options config =
    let w = or_default config.worker no_settings in
    record {
      tries = or_default w.tries 1;
      backoff_ms = or_default w.backoff_ms 1000;
      max_backoff_ms = or_default w.max_backoff_ms 30000;
      timeout_ms = or_default w.timeout_ms 30000;
      poll_interval_ms = or_default w.poll_interval_ms 500;
      auto_start = or_default w.auto_start true;
      fail_on_timeout = or_default w.fail_on_timeout true;
    }
