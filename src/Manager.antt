-- ===== src/Manager.antt =====
-- src/services/queue-manager.service.ts. The base class, which keeps the instances, belongs to
-- another package: it is the parameter `base`. What a connector and a connection do is the
-- drivers' part: a connection is a value of `C`. A handle carries a number, by which two handles
-- are told apart. `queue` waits for the connection between its look at the cache and its write to
-- it: `cached` and `keep_handle` are the two sides of that wait.
mod Options
pub mod Keys
pub mod Bound
pub mod Calls
pub mod Cache
pub mod Sound
pub mod Names
pub mod Mixups
use text.Mathlib.Text.{starts_with}
use ts_queue.Errors.{Error, queue_driver_error, Result, ok, err}
use ts_queue.Prelude.{
  ℕ, ◌+◌, String, Bool, true, false, not, List, [], ◌∷◌, ◌++◌, Option, none, some, or_default,
  is_some, keep, map, ◌+++◌, if◌then◌else◌, same,
}
use ts_queue.Prelude.Maps.{lookup, insert}
use ts_queue.Worker.{WorkerOptions}
pub use Options.{ConnectionConfig, WorkerSettings, no_settings, ModuleOptions}
unfoldable pub use Options.{get_worker_options}

-- What the manager uses of `MultipleInstanceManager`. `make` is what the hooks of the manager
-- answer for a name.
pub record InstanceManager (I : Type 0) (C : Type 0) : Type 0 where
  pub instance_of : I → String → Option C  -- hasInstance and instance
  pub instance_async : (String → Result C) → I → String → I × Result C
  pub forget_instance : I → String → I
  pub get_resolved_instances : I → List String
  pub purge : I → I
  pub unconfigured : String → Error  -- of a name without configuration

pub record Handle (C : Type 0) : Type 0 where
  pub number : ℕ
  pub connection : C
  pub queue : String

pub record QueueManager (I : Type 0) (C : Type 0) : Type 0 where
  pub config : ModuleOptions
  pub connectors : List (String × (ConnectionConfig → Result C))
  pub handles : List (String × Handle C)
  pub instances : I
  pub next_number : ℕ

-- `drivers.join(', ') || '(none)'`
abbrev pub join_names : List String → String
join_names [] = ""
join_names (s ∷ []) = s
join_names (s ∷ t ∷ rest) = s +++ ", " +++ join_names (t ∷ rest)

abbrev pub or_none : String → String
or_none String.[] = "(none)"
or_none (String.◌∷◌ c s) = String.◌∷◌ c s

-- The key of a handle.
abbrev pub key_of : String → String → String
key_of connection queue = connection +++ ":" +++ queue

module _ {I C : Type 0} (base : InstanceManager I C) where
  -- A later registration of a driver replaces the earlier one.
  unfoldable pub register_connector :
      QueueManager I C → String → (ConnectionConfig → Result C) → QueueManager I C
  register_connector m driver connector = record m {
    connectors = insert driver connector m.connectors;
  }

  unfoldable pub get_registered_drivers : QueueManager I C → List String
  get_registered_drivers m = map (λ e. e.0) m.connectors

  abbrev pub get_default_connection_name : QueueManager I C → String
  get_default_connection_name m = m.config.default

  -- Tagged with the connection's name.
  unfoldable pub get_instance_config : QueueManager I C → String → Option ConnectionConfig
  unfolding lookup
  get_instance_config m name = elim (lookup name m.config.connections) [
    | none ↦ none
    | some raw ↦ some (record raw { name = some name })
  ]

  unfoldable pub create_driver_async : QueueManager I C → String → ConnectionConfig → Result C
  unfolding lookup get_registered_drivers
  create_driver_async m driver config = elim (lookup driver m.connectors) [
    | none ↦ err (
        queue_driver_error (
          "Queue driver \""
          +++ driver
          +++ "\" is not registered. Registered drivers: "
          +++ or_none (join_names (get_registered_drivers m))
          +++ "."))
    | some connector ↦ connector config
  ]

  unfoldable pub make : QueueManager I C → String → Result C
  unfolding get_instance_config create_driver_async
  make m name = elim (get_instance_config m name) [
    | none ↦ err (base.unconfigured name)
    | some config ↦ create_driver_async m config.driver config
  ]

  unfoldable pub connection : QueueManager I C → Option String → QueueManager I C × Result C
  unfolding make
  connection m name =
      let (instances, r) =
        base.instance_async (make m) m.instances (or_default name m.config.default) in
      (record m { instances = instances }, r)

  unfoldable pub cached : QueueManager I C → String → String → Option (Handle C)
  unfolding lookup
  cached m name queue = lookup (key_of name queue) m.handles

  unfoldable pub keep_handle : QueueManager I C → String → String → C → QueueManager I C × Handle C
  unfolding insert
  keep_handle m name queue conn =
      let handle : Handle C = record { number = m.next_number; connection = conn; queue = queue } in
      (
        record m {
          handles = insert (key_of name queue) handle m.handles;
          next_number = m.next_number + 1;
        },
        handle,
      )

  -- After the wait.
  abbrev pub after_connection :
      String → String → QueueManager I C × Result C → QueueManager I C × Result (Handle C)
  after_connection name queue (m, err e) = (m, err e)
  after_connection name queue (m, ok conn) =
      ((keep_handle m name queue conn).0, ok (keep_handle m name queue conn).1)

  unfoldable pub queue :
      QueueManager I C → String → Option String → QueueManager I C × Result (Handle C)
  unfolding cached keep_handle connection
  queue m queue_name connection_name =
      let name = or_default connection_name m.config.default in
      elim (cached m name queue_name) [
        | some handle ↦ (m, ok handle)
        | none ↦ after_connection name queue_name (connection m (some name))
      ]

  -- An error of `close` is logged and does not change what follows.
  unfoldable pub disconnect : QueueManager I C → Option String → QueueManager I C
  disconnect m connection_name =
      let name = or_default connection_name m.config.default in
      if is_some (base.instance_of m.instances name)
      then record m {
        instances = base.forget_instance m.instances name;
        handles = keep (λ e. not (starts_with e.0 (name +++ ":"))) m.handles;
      }
      else m

  -- The connection that `disconnect` closes.
  unfoldable pub closes : QueueManager I C → Option String → Option C
  closes m connection_name =
      base.instance_of m.instances (or_default connection_name m.config.default)

  unfoldable pub disconnect_each : QueueManager I C → List String → QueueManager I C
  unfolding disconnect
  disconnect_each m [] = m
  disconnect_each m (n ∷ ns) = disconnect_each (disconnect m (some n)) ns

  unfoldable pub disconnect_all : QueueManager I C → QueueManager I C
  unfolding disconnect_each
  disconnect_all m =
      let m' = disconnect_each m (base.get_resolved_instances m.instances) in
      record m' { instances = base.purge m'.instances }

  unfoldable pub on_module_destroy : QueueManager I C → QueueManager I C
  unfolding disconnect_all
  on_module_destroy m = record (disconnect_all m) { handles = [] }

  -- A missing default, or one that is not declared, skips the warm-up; its error is logged.
  unfoldable pub on_module_init : QueueManager I C → QueueManager I C
  unfolding connection lookup
  on_module_init m =
      if same m.config.default ""
      then m
      else if is_some (lookup m.config.default m.config.connections)
      then (connection m none).0
      else m

  unfoldable pub is_connection_active : QueueManager I C → Option String → Bool
  is_connection_active m name =
      is_some (base.instance_of m.instances (or_default name m.config.default))

  unfoldable pub has_connection : QueueManager I C → String → Bool
  unfolding lookup
  has_connection m name = is_some (lookup name m.config.connections)

  unfoldable pub get_connection_names : QueueManager I C → List String
  get_connection_names m = map (λ e. e.0) m.config.connections

  unfoldable pub get_active_connection_names : QueueManager I C → List String
  get_active_connection_names m = base.get_resolved_instances m.instances

  unfoldable pub set_default_instance : QueueManager I C → String → QueueManager I C
  set_default_instance m name = record m { config = record (m.config) { default = name } }
