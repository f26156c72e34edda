-- ===== src/Module/Provided.antt =====
-- What the providers of `forRoot` resolve to.
use ts_queue.Connectors.{Connected, name_of}
use ts_queue.Errors.{Result, ok, err}
use ts_queue.Manager.{
  InstanceManager, QueueManager, Handle, ConnectionConfig, ModuleOptions, connection, queue, cached,
  key_of, keep_handle, after_connection, on_module_init,
}
use ts_queue.Manager.Bound.{IsLawful}
use ts_queue.Module.{
  validate, built_in_connectors, build_connector_registrations, for_root, run_factory, Factory,
  connects, queues, Made, made_connection, made_handle, as_connection, as_handle,
}
use ts_queue.Module.Boot.{IsServing, boot-IsServing}
use ts_queue.Module.Named.{build-kept}
use ts_queue.Module.Options.{validate_iff}
use ts_queue.Prelude.{
  String, true, List, [], ◌∷◌, map, Option, none, some, or_default, is_some, ◌≡◌, ◌∙◌, sym, ap,
  subst, refl, arith, All, All-imp, All-append, same_refl,
}
use ts_queue.Prelude.Maps.{lookup}

-- The name that a factory asks for, with the default of the options.
abbrev pub asked : ModuleOptions → Factory → String
asked config (connects name) = name
asked config (queues q name) = or_default name config.default

-- What was made is on the connection of that name, and a handle is of the queue `default`.
abbrev pub IsMade : String → Made → Type 0
IsMade name (made_connection c) = name_of c ≡ name
IsMade name (made_handle h) = (name_of h.connection ≡ name) × (h.queue ≡ "default")

-- It asks for the default queue, if for a queue, and for a declared connection.
abbrev IsApt : ModuleOptions → Factory → Type 0
IsApt config (connects name) = is_some (lookup name config.connections) ≡ true
IsApt config (queues q name) =
    (or_default q "default" ≡ "default")
    × (is_some (lookup (or_default name config.default) config.connections) ≡ true)

module _ {I : Type 0} (base : InstanceManager I Connected) where
  -- The factory resolves.
  abbrev pub Resolves : ModuleOptions → QueueManager I Connected → String × Factory → Type 0
  Resolves config m provider =
      (made : Made) × ((run_factory base m provider.1).1 ≡ ok made)
      × IsMade (asked config provider.1) made

  new_handle : QueueManager I Connected → String → Connected → Handle Connected
  new_handle m q c = record { number = m.next_number; connection = c; queue = q }

  after-ok :
      (n q : String) (r : QueueManager I Connected × Result Connected) {c : Connected}
      → r.1 ≡ ok c
      → (after_connection base n q r).1 ≡ ok (new_handle r.0 q c)
  unfolding keep_handle new_handle
  after-ok n q (m, ok d) {c} e = let p : d ≡ c = cc in ap (λ x. ok (new_handle m q x)) p
  after-ok n q (m, err x) e = absurd (cc)

  -- Without a cached handle, `queue` answers with a new one.
  queue_new :
      (m : QueueManager I Connected) (q : String) (name : Option String)
      → m.handles ≡ []
      → queue base m q name
        ≡ after_connection base
            (or_default name m.config.default)
            q
            (connection base m (some (or_default name m.config.default)))
  unfolding queue cached lookup
  queue_new m q name e =
      let n = or_default name m.config.default in
      let absent : cached base m n q ≡ none = ap (lookup (key_of n q)) e in rw (absent, queue) refl

  module _ (lawful : IsLawful base) where
    own_rows :
        (entries : List (String × ConnectionConfig))
        → All
            (λ (entry : String × ConnectionConfig). is_some (lookup entry.0 entries) ≡ true)
            entries
    unfolding lookup
    own_rows [] = tt
    own_rows (entry ∷ entries) = (
      ground (arith, same_refl entry.0),
      All-imp (λ (e : String × ConnectionConfig) h. ground (arith, h)) entries (own_rows entries),
    )

    factory-Resolves :
        (config : ModuleOptions) (m : QueueManager I Connected)
        → m.config ≡ config
        → m.handles ≡ []
        → IsServing base lawful config m
        → (provider : String × Factory) → IsApt config provider.1
        → Resolves config m provider
    unfolding run_factory new_handle
    factory-Resolves config m e h serving (token, connects name) apt =
        let (c, answers, named) = serving.1 name apt in
        (made_connection c, ap as_connection answers, named)
    factory-Resolves config m e h serving (token, queues q name) (default_queue, declared) =
        let n = or_default name m.config.default in
        let p : n ≡ or_default name config.default =
          ap (λ (o : ModuleOptions). or_default name o.default) e in
        let (c, answers, named) = serving.1 (or_default name config.default) declared in
        let r = connection base m (some n) in
        let answers' : r.1 ≡ ok c =
          subst (λ k. (connection base m (some k)).1 ≡ ok c) (sym p) answers in
        (
          made_handle (new_handle r.0 (or_default q "default") c),
          ap as_handle (
              ap (λ (x : QueueManager I Connected × Result (Handle Connected)). x.1)
                (queue_new m (or_default q "default") name h)
              ∙ after-ok n (or_default q "default") r answers'),
          (named, default_queue),
        )

    map-IsApt :
        (config : ModuleOptions) (f : String × ConnectionConfig → String × Factory)
        (entries : List (String × ConnectionConfig))
        → ((entry : String × ConnectionConfig)
            → is_some (lookup entry.0 config.connections) ≡ true
            → IsApt config (f entry).1)
        → All
            (λ (entry : String × ConnectionConfig).
              is_some (lookup entry.0 config.connections) ≡ true)
            entries
        → All (λ (provider : String × Factory). IsApt config provider.1) (map f entries)
    map-IsApt config f [] apt a = tt
    map-IsApt config f (entry ∷ entries) apt a = (apt entry a.0, map-IsApt config f entries apt a.1)

    -- Every provider of `forRoot`, on a manager that is set up as in `boot-IsServing` and has no
    -- cached handle: its factory resolves, to the connection or to a handle of the queue `default` on
    -- the connection that it asks for, which has the name that the configuration gives it.
    pub for_root-Resolves :
        (default_token : String) (m : QueueManager I Connected)
        → validate (some m.config) ≡ ok tt
        → All
            (λ (e : String × ConnectionConfig).
              is_some (lookup (e.1).driver built_in_connectors) ≡ true)
            m.config.connections
        → m.connectors ≡ []
        → m.handles ≡ []
        → ((n : String) → base.instance_of m.instances n ≡ none)
        → All
            (Resolves m.config
              (on_module_init base (build_connector_registrations base m built_in_connectors)))
            (for_root default_token m.config)
    unfolding for_root
    for_root-Resolves default_token m v drivers fresh empty idle =
        let booted =
          on_module_init base (build_connector_registrations base m built_in_connectors) in
        let (config, handles) = build-kept base m built_in_connectors in
        let serving = boot-IsServing base lawful m v drivers fresh idle in
        let declared = ((validate_iff m.config).0 v).declared in
        let rows = own_rows m.config.connections in
        All-imp (factory-Resolves m.config booted config (handles ∙ empty) serving)
          (for_root default_token m.config)
          (
            declared,
            All-append _ _ _ (map-IsApt m.config _ m.config.connections (λ entry h. h) rows) (
              (refl, declared),
              map-IsApt m.config _ m.config.connections (λ entry h. (refl, h)) rows,
            ),
          )
