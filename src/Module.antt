-- ===== src/Module.antt =====
-- src/queue.module.ts: the validation of the options, the registration of the built-in connectors,
-- and which handle or connection each token stands for. The container, which runs the factories, is
-- another package. Entries of an object are listed in the order of `Object.entries`.
pub mod Options
pub mod Named
pub mod Boot
pub mod Provided
pub mod Async
pub mod Exported
use ts_queue.Connectors.{
  Connected, connect_memory, connect_sync, connect_null, connect_local_storage, connect_indexeddb,
  connect_broadcast_channel, connect_qstash,
}
use ts_queue.Errors.{Error, queue_module_options_error, Result, ok, err}
use ts_queue.Manager.{
  InstanceManager, QueueManager, Handle, ConnectionConfig, ModuleOptions, register_connector,
  connection, queue,
}
use ts_queue.Prelude.{
  ℕ, String, Bool, true, false, not, List, [], ◌∷◌, ◌++◌, map, Option, none, some, or_default,
  is_some, same, ◌+++◌, if◌then◌else◌,
}
use ts_queue.Prelude.Maps.{lookup}
use ts_queue.Tokens.{get_queue_token, get_queue_connection_token}

-- `BUILT_IN_CONNECTORS`
abbrev pub built_in_connectors : List (String × (ConnectionConfig → Result Connected))
built_in_connectors =
    ("memory", connect_memory)
    ∷ ("sync", connect_sync)
    ∷ ("null", connect_null)
    ∷ ("local-storage", connect_local_storage)
    ∷ ("indexeddb", connect_indexeddb)
    ∷ ("broadcast-channel", connect_broadcast_channel)
    ∷ ("qstash", connect_qstash)
    ∷ []

abbrev refused : String → Result (Unit {0})
refused text = err (queue_module_options_error ("[QueueModule] " +++ text))

-- The loop over the connections: the first one without a driver is reported.
unfoldable pub validate_drivers : List (String × ConnectionConfig) → Result (Unit {0})
validate_drivers [] = ok tt
validate_drivers (entry ∷ rest) =
    let later = validate_drivers rest in
    if same (entry.1).driver ""
    then refused ("connection \"" +++ entry.0 +++ "\" is missing the \"driver\" field.")
    else later

unfoldable pub validate_connections : String → List (String × ConnectionConfig) → Result (Unit {0})
unfolding validate_drivers lookup
validate_connections default_name [] = refused "config.connections must define at least one entry."
validate_connections default_name (entry ∷ rest) =
    if not (is_some (lookup default_name (entry ∷ rest)))
    then refused
        ("config.default \"" +++ default_name +++ "\" is not present in config.connections.")
    else validate_drivers (entry ∷ rest)

-- A missing default is `""`, and missing connections are none.
unfoldable pub validate : Option ModuleOptions → Result (Unit {0})
unfolding validate_connections
validate none = refused "forRoot() requires a configuration object."
validate (some config) =
    if same config.default ""
    then refused "config.default is required."
    else validate_connections config.default config.connections

-- What a provider's factory asks the manager for.
pub data Factory : Type 0 where
  connects : String → Factory  -- manager.connection(name)
  queues : Option String → Option String → Factory  -- manager.queue(queue, connection)

-- `default_token` is `DEFAULT_QUEUE_CONNECTION_TOKEN` of another package.
unfoldable pub for_root : String → ModuleOptions → List (String × Factory)
unfolding get_queue_token get_queue_connection_token
for_root default_token config =
    (default_token, connects config.default)
      ∷ map (λ entry. (get_queue_connection_token (some entry.0), connects entry.0))
          config.connections
    ++ (get_queue_token none none, queues none none)
      ∷ map
          (λ entry. (
            get_queue_token (some "default") (some entry.0),
            queues (some "default") (some entry.0),
          ))
          config.connections

-- The tokens of `exports` that factories provide; the others are those of the options, the manager and the bus.
unfoldable pub for_root_exports : String → ModuleOptions → List String
unfolding get_queue_token get_queue_connection_token
for_root_exports default_token config =
    default_token ∷ map (λ entry. get_queue_connection_token (some entry.0)) config.connections
    ++ map (λ entry. get_queue_token (some "default") (some entry.0)) config.connections
    ++ get_queue_token none none ∷ []

unfoldable pub for_feature_queues : List (String × Option String) → List (String × Factory)
unfolding get_queue_token
for_feature_queues [] = []
for_feature_queues ((queue, connection) ∷ rest) =
    (
      get_queue_token (some queue) (some (or_default connection "default")),
      queues (some queue) connection,
    )
    ∷ for_feature_queues rest

-- What a factory answers, when the container runs it.
pub data Made : Type 0 where
  made_connection : Connected → Made
  made_handle : Handle Connected → Made

abbrev as_connection : Result Connected → Result Made
as_connection (ok c) = ok (made_connection c)
as_connection (err e) = err e

abbrev as_handle : Result (Handle Connected) → Result Made
as_handle (ok h) = ok (made_handle h)
as_handle (err e) = err e

module _ {I : Type 0} (base : InstanceManager I Connected) where
  unfoldable pub run_factory :
      QueueManager I Connected → Factory → QueueManager I Connected × Result Made
  unfolding connection queue
  run_factory m (connects name) =
      let (m', r) = connection base m (some name) in (m', as_connection r)
  run_factory m (queues queue_name connection_name) =
      let (m', r) = queue base m (or_default queue_name "default") connection_name in
      (m', as_handle r)

  unfoldable pub build_connector_registrations :
      QueueManager I Connected
      → List (String × (ConnectionConfig → Result Connected))
      → QueueManager I Connected
  unfolding register_connector
  build_connector_registrations m [] = m
  build_connector_registrations m ((driver, connector) ∷ rest) =
      build_connector_registrations (register_connector base m driver connector) rest

  -- `forFeature`
  unfoldable pub for_feature :
      QueueManager I Connected
      → String
      → (ConnectionConfig → Result Connected)
      → QueueManager I Connected
  unfolding register_connector
  for_feature m driver connector = register_connector base m driver connector

  -- The manager with the options that `useFactory` answers. Without `useFactory` the module is empty.
  unfoldable pub for_root_async :
      QueueManager I Connected → Option ModuleOptions → QueueManager I Connected
  unfolding build_connector_registrations
  for_root_async m none = m
  for_root_async m (some config) =
      build_connector_registrations (record m { config = config }) built_in_connectors
