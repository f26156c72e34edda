-- ===== src/Module/Named.antt =====
-- The connectors that are registered, and the connections that they make.
use ts_queue.Connectors.{Connected, name_of, for_driver}
use ts_queue.Errors.{Result, ok}
use ts_queue.Manager.{
  InstanceManager, QueueManager, ConnectionConfig, register_connector, get_instance_config,
  create_driver_async, make, connection, on_module_init,
}
use ts_queue.Module.{built_in_connectors, build_connector_registrations}
use ts_queue.Prelude.{
  String, true, ◌||◌, List, [], ◌∷◌, some, or_default, is_some, ◌≡◌, ◌∙◌, ap, refl, arith, All,
  same_refl, Option-cases, inl, inr,
}
use ts_queue.Prelude.Maps.{lookup, lookup-insert, All-lookup, All-insert}

-- A connector under the name of a driver makes connections that have the name of their row.
abbrev pub MakesNamed : String × (ConnectionConfig → Result Connected) → Type 0
MakesNamed entry =
    (config : ConnectionConfig) (name : String)
    → config.driver ≡ entry.0
    → config.name ≡ some name
    → (c : Connected) × (entry.1 config ≡ ok c) × (name_of c ≡ name)

-- A connector's check passes for its driver.
checked :
    (config : ConnectionConfig) (class_name : String) {driver name : String} (c : Connected)
    → config.driver ≡ driver
    → name_of c ≡ name
    → (c' : Connected) × (for_driver class_name driver config c ≡ ok c') × (name_of c' ≡ name)
checked config class_name {driver} {name} c d n = (c, ground (arith, d, same_refl driver), n)

pub built_in-MakesNamed : All MakesNamed built_in_connectors
built_in-MakesNamed = (
  (λ config name d n. checked config "MemoryConnector" _ d (ap (λ o. or_default o "memory") n)),
  (
    (λ config name d n. checked config "SyncConnector" _ d (ap (λ o. or_default o "sync") n)),
    (
      (λ config name d n. checked config "NullConnector" _ d (ap (λ o. or_default o "null") n)),
      (
        (λ config name d n.
            checked config "LocalStorageConnector" _ d (ap (λ o. or_default o "local-storage") n)),
        (
          (λ config name d n.
              checked config "IndexedDBConnector" _ d (ap (λ o. or_default o "indexeddb") n)),
          (
            (λ config name d n.
                checked config "BroadcastChannelConnector" _ d
                  (ap (λ o. or_default o "broadcast-channel") n)),
            (
              (λ config name d n.
                  checked config "QStashConnector" _ d (ap (λ o. or_default o "qstash") n)),
              tt,
            ),
          ),
        ),
      ),
    ),
  ),
)

module _ {I : Type 0} (base : InstanceManager I Connected) where
  pub build-MakesNamed :
      (m : QueueManager I Connected) (cs : List (String × (ConnectionConfig → Result Connected)))
      → All MakesNamed m.connectors
      → All MakesNamed cs
      → All MakesNamed (build_connector_registrations base m cs).connectors
  unfolding build_connector_registrations register_connector
  build-MakesNamed m [] a b = a
  build-MakesNamed m ((driver, connector) ∷ cs) a b =
      build-MakesNamed (register_connector base m driver connector) cs
        (All-insert MakesNamed driver connector m.connectors b.0 a) b.1

  pub lookup-build :
      (m : QueueManager I Connected) (cs : List (String × (ConnectionConfig → Result Connected)))
      (driver : String)
      → is_some (lookup driver (build_connector_registrations base m cs).connectors)
        ≡ (is_some (lookup driver cs) || is_some (lookup driver m.connectors))
  unfolding build_connector_registrations register_connector lookup
  lookup-build m [] driver = refl
  lookup-build m ((name, connector) ∷ cs) driver = ground (
    arith,
    lookup-build (register_connector base m name connector) cs driver,
    lookup-insert name driver connector m.connectors,
  )

  pub build-keeps :
      (m : QueueManager I Connected) (cs : List (String × (ConnectionConfig → Result Connected)))
      → ((build_connector_registrations base m cs).config ≡ m.config)
        × ((build_connector_registrations base m cs).instances ≡ m.instances)
  unfolding build_connector_registrations register_connector
  build-keeps m [] = (refl, refl)
  build-keeps m ((driver, connector) ∷ cs) =
      build-keeps (register_connector base m driver connector) cs

  pub build-kept :
      (m : QueueManager I Connected) (cs : List (String × (ConnectionConfig → Result Connected)))
      → ((on_module_init base (build_connector_registrations base m cs)).config ≡ m.config)
        × ((on_module_init base (build_connector_registrations base m cs)).handles ≡ m.handles)
  unfolding build_connector_registrations register_connector on_module_init connection
  build-kept m [] = (ground arith, ground arith)
  build-kept m ((driver, connector) ∷ cs) =
      build-kept (register_connector base m driver connector) cs

  -- A row whose driver has a connector gives a connection of its name.
  pub make-MakesNamed :
      (m : QueueManager I Connected) (name : String) {raw : ConnectionConfig}
      → All MakesNamed m.connectors
      → lookup name m.config.connections ≡ some raw
      → is_some (lookup raw.driver m.connectors) ≡ true
      → (c : Connected) × (make base m name ≡ ok c) × (name_of c ≡ name)
  unfolding make get_instance_config create_driver_async
  make-MakesNamed m name {raw} a e d = elim (Option-cases (lookup raw.driver m.connectors)) [
    | inl f ↦ absurd (ground (arith, f, d))
    | inr (connector, f) ↦
        let (c, made, named) =
          All-lookup MakesNamed raw.driver m.connectors a f (record raw { name = some name }) name
            refl refl in
        (c, makes connector f ∙ made, named)
  ]
    where
      makes :
          (connector : ConnectionConfig → Result Connected)
          → lookup raw.driver m.connectors ≡ some connector
          → make base m name ≡ connector (record raw { name = some name })
      makes connector f = ground (arith, e, f)
