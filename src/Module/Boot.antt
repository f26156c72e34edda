-- ===== src/Module/Boot.antt =====
-- A validated configuration with built-in drivers: what the manager answers after it is set up.
use ts_queue.Connectors.{Connected, name_of}
use ts_queue.Errors.{ok}
use ts_queue.Manager.{
  InstanceManager, QueueManager, ConnectionConfig, ModuleOptions, get_instance_config,
  create_driver_async, make, connection, on_module_init,
}
use ts_queue.Manager.Bound.{IsLawful, answer}
use ts_queue.Module.{validate, built_in_connectors, build_connector_registrations}
use ts_queue.Module.Options.{IsUsable, validate_iff}
use ts_queue.Prelude.{
  String, true, [], none, some, is_some, ◌≡◌, ◌∙◌, sym, ap, subst, arith, All, All-imp, same,
  same_refl, Bool-cases, Option-cases, inl, inr,
}
use ts_queue.Prelude.Maps.{lookup, All-lookup}
use ts_queue.Module.Named.{
  MakesNamed, built_in-MakesNamed, build-MakesNamed, lookup-build, build-keeps, make-MakesNamed,
}

module _ {I : Type 0} (base : InstanceManager I Connected) where
  -- Every connection of the configuration has a driver with a connector.
  abbrev HasConnectors : QueueManager I Connected → Type 0
  HasConnectors m =
      All (λ (e : String × ConnectionConfig). is_some (lookup (e.1).driver m.connectors) ≡ true)
        m.config.connections

  declared-MakesNamed :
      (m : QueueManager I Connected) (name : String)
      → All MakesNamed m.connectors
      → HasConnectors m
      → is_some (lookup name m.config.connections) ≡ true
      → (c : Connected) × (make base m name ≡ ok c) × (name_of c ≡ name)
  declared-MakesNamed m name a b d = elim (Option-cases (lookup name m.config.connections)) [
    | inl e ↦ absurd (ground (arith, e, d))
    | inr (raw, e) ↦ make-MakesNamed base m name a e (
        All-lookup
          (λ (e : String × ConnectionConfig). is_some (lookup (e.1).driver m.connectors) ≡ true)
          name m.config.connections b e)
  ]

  module _ (lawful : IsLawful base) where
    -- The default is active, and every declared name is answered with a connection of that name.
    abbrev pub IsServing : ModuleOptions → QueueManager I Connected → Type 0
    IsServing config booted =
        ((c : Connected) × (base.instance_of booted.instances config.default ≡ some c)
          × (name_of c ≡ config.default))
        × ((name : String)
            → is_some (lookup name config.connections) ≡ true
            → (c : Connected) × ((connection base booted (some name)).1 ≡ ok c)
              × (name_of c ≡ name))

    answered :
        (m : QueueManager I Connected) (i : I) (name : String)
        → (connection base (record m { instances = i }) (some name)).1
          ≡ answer (base.instance_of i name) (make base m name)
    unfolding connection make get_instance_config create_driver_async
    answered m i name = lawful.async_answer (make base m) i name

    warmed :
        (m : QueueManager I Connected)
        → All MakesNamed m.connectors
        → HasConnectors m
        → IsUsable m.config
        → ((n : String) → base.instance_of m.instances n ≡ none)
        → IsServing m.config (connection base m none).0
    unfolding connection make get_instance_config create_driver_async
    warmed m a b u idle =
        let d = m.config.default in
        let (c, made, named) = declared-MakesNamed m d a b u.declared in
        let first = lawful.async_instance (make base m) m.instances d in
        let i = (base.instance_async (make base m) m.instances d).0 in
        let active : base.instance_of i d ≡ some c =
          ground (arith, first d, idle d, made, same_refl d) in
        (
          (c, active, named),
          λ name declared. elim (Bool-cases (same d name)) [
            | inl e ↦
                let p : d ≡ name = ground (arith, e) in
                (
                  c,
                  answered m i name
                      ∙ ap (λ o. answer o (make base m name))
                          (subst (λ n. base.instance_of i n ≡ some c) p active),
                  named ∙ p,
                )
            | inr e ↦
                let (c', made', named') = declared-MakesNamed m name a b declared in
                let absent : base.instance_of i name ≡ none =
                  ground (arith, first name, e, idle name) in
                (
                  c',
                  answered m i name ∙ ap (λ o. answer o (make base m name)) absent ∙ made',
                  named',
                )
          ],
        )

    init-warms :
        (m : QueueManager I Connected)
        → IsUsable m.config
        → on_module_init base m ≡ (connection base m none).0
    unfolding on_module_init
    init-warms m u = ground (arith, u.named, u.declared)

    -- A manager without connectors and active connections, whose options pass the validation and
    -- name built-in drivers only: once the built-in connectors are registered and `onModuleInit`
    -- ran, the default connection is active and has its name, and `connection` answers every
    -- declared name with a connection that has this name.
    pub boot-IsServing :
        (m : QueueManager I Connected)
        → validate (some m.config) ≡ ok tt
        → All
            (λ (e : String × ConnectionConfig).
              is_some (lookup (e.1).driver built_in_connectors) ≡ true)
            m.config.connections
        → m.connectors ≡ []
        → ((n : String) → base.instance_of m.instances n ≡ none)
        → IsServing m.config
            (on_module_init base (build_connector_registrations base m built_in_connectors))
    boot-IsServing m v drivers fresh idle =
        let m' = build_connector_registrations base m built_in_connectors in
        let (config, instances) = build-keeps base m built_in_connectors in
        let usable = subst IsUsable (sym config) ((validate_iff m.config).0 v) in
        let named = build-MakesNamed base m built_in_connectors (rw fresh tt) built_in-MakesNamed in
        let connected : HasConnectors m' =
          subst
            (λ (o : ModuleOptions).
              All
                (λ (e : String × ConnectionConfig).
                  is_some (lookup (e.1).driver m'.connectors) ≡ true)
                o.connections)
            (sym config)
            (All-imp
              (λ e h. ground (arith, h, lookup-build base m built_in_connectors (e.1).driver))
              m.config.connections drivers) in
        let idle' : (n : String) → base.instance_of m'.instances n ≡ none =
          λ n. ap (λ i. base.instance_of i n) instances ∙ idle n in
        subst (λ (o : ModuleOptions). IsServing o (on_module_init base m')) config
          (subst (IsServing m'.config) (sym (init-warms m' usable))
            (warmed m' named connected usable idle'))
