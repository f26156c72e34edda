-- ===== src/Connectors.antt =====
-- src/connectors/: each connector checks the driver, resolves defaults and calls a constructor. A
-- connection is described by its driver's record where that needs no environment, and else by the
-- arguments of its constructor.
use ts_queue.Errors.{thrown, Result, ok, err}
use ts_queue.IndexedDb.Opening.{Opener}
use ts_queue.Manager.{ConnectionConfig}
use ts_queue.Memory
use ts_queue.Memory.{MemoryConnection}
use ts_queue.Null.{NullConnection}
use ts_queue.Prelude.{String, [], none, some, or_default, false, same, ◌+++◌, if◌then◌else◌}
use ts_queue.QStash.{QStashConnection}

pub data Connected : Type 0 where
  memory_connection : MemoryConnection → Connected
  sync_connection : String → Connected
  null_connection : NullConnection → Connected
  -- name and prefix
  local_storage_connection : String → String → Connected
  indexeddb_connection : Opener → Connected
  -- over a database; the coordinator is the environment's
  broadcast_channel_connection : Opener → Connected
  qstash_connection : QStashConnection → Connected

-- `connection.name`
abbrev pub name_of : Connected → String
name_of (memory_connection c) = c.name
name_of (sync_connection name) = name
name_of (null_connection c) = c.name
name_of (local_storage_connection name prefix) = name
name_of (indexeddb_connection c) = c.name
name_of (broadcast_channel_connection c) = c.name
name_of (qstash_connection c) = c.name

-- The check that every connector starts with; `class_name` and `driver` are its texts.
abbrev pub for_driver : String → String → ConnectionConfig → Connected → Result Connected
for_driver class_name driver config connection =
    if same config.driver driver
    then ok connection
    else err (thrown (class_name +++ " received non-" +++ driver +++ " driver: " +++ config.driver))

abbrev pub connect_memory : ConnectionConfig → Result Connected
connect_memory config =
    for_driver "MemoryConnector" "memory" config
      (memory_connection (Memory.new (or_default config.name "memory")))

abbrev pub connect_sync : ConnectionConfig → Result Connected
connect_sync config =
    for_driver "SyncConnector" "sync" config (sync_connection (or_default config.name "sync"))

abbrev pub connect_null : ConnectionConfig → Result Connected
connect_null config =
    for_driver "NullConnector" "null" config
      (null_connection (record { name = or_default config.name "null"; paused_queues = [] }))

abbrev pub connect_local_storage : ConnectionConfig → Result Connected
connect_local_storage config = for_driver "LocalStorageConnector" "local-storage" config (
    local_storage_connection (or_default config.name "local-storage") (or_default config.prefix ""))

abbrev pub connect_indexeddb : ConnectionConfig → Result Connected
connect_indexeddb config = for_driver "IndexedDBConnector" "indexeddb" config (
    indexeddb_connection (record {
      name = or_default config.name "indexeddb";
      db_name = or_default config.db_name "stackra-queue";
      version = or_default config.db_version 1;
      prefix = or_default config.prefix "";
      db_promise = none;
    }))

-- The version is always 1.
abbrev pub connect_broadcast_channel : ConnectionConfig → Result Connected
connect_broadcast_channel config =
    for_driver "BroadcastChannelConnector" "broadcast-channel" config (
      broadcast_channel_connection (record {
        name = or_default config.name "broadcast-channel";
        db_name = or_default config.db_name "stackra-queue";
        version = 1;
        prefix = or_default config.prefix "";
        db_promise = none;
      }))

abbrev pub connect_qstash : ConnectionConfig → Result Connected
connect_qstash config = for_driver "QStashConnector" "qstash" config (
    qstash_connection (record {
      name = or_default config.name "qstash";
      config = record {
        mode = some (or_default config.mode "proxy");
        token = config.token;
        proxy_url = config.proxy_url;
        default_destination = config.default_destination;
        base_url = config.base_url;
      };
      direct_client = false;
    }))
