-- ===== src/Loader/Handlers.antt =====
-- The handlers of sync connections after a bootstrap.
use ts_queue.Errors.{Result, ok}
use ts_queue.Loader.{
  LoaderState, Provider, ProcessorMetadata, Target, Method, OnJobEvent, Emitter, subscribe,
  subscribe_entries, subscribe_methods, register_event_listeners, register_processor, bootstrap,
  set_handler,
}
use ts_queue.Prelude.{
  ℕ, String, true, List, [], ◌∷◌, some, or_default, ◌≡◌, ◌∙◌, refl, ap, arith, Option-cases, inl,
  inr, same_refl,
}
use ts_queue.Prelude.Maps.{lookup, insert, lookup-insert}

module _ {E : Type 0} (emitter : Emitter E) where
  subscribe-handlers :
      (s : LoaderState E) (host : ℕ) (method : String) (b : OnJobEvent)
      → (subscribe emitter s host method b).sync_handlers ≡ s.sync_handlers
  unfolding subscribe
  subscribe-handlers s host method b = elim (Option-cases s.events) [
    | inl e ↦ simp (e, subscribe) refl
    | inr (x, e) ↦ simp (e, subscribe) refl
  ]

  entries-handlers :
      (s : LoaderState E) (host : ℕ) (method : String) (bs : List OnJobEvent)
      → (subscribe_entries emitter s host method bs).sync_handlers ≡ s.sync_handlers
  unfolding subscribe_entries
  entries-handlers s host method [] = refl
  entries-handlers s host method (b ∷ bs) =
      entries-handlers (subscribe emitter s host method b) host method bs
      ∙ subscribe-handlers s host method b

  methods-handlers :
      (s : LoaderState E) (host : ℕ) (ms : List Method)
      → (subscribe_methods emitter s host ms).sync_handlers ≡ s.sync_handlers
  unfolding subscribe_methods
  methods-handlers s host [] = refl
  methods-handlers s host (m ∷ ms) =
      methods-handlers (subscribe_entries emitter s host m.key m.entries) host ms
      ∙ entries-handlers s host m.key m.entries

  -- The providers of a bootstrap whose last one is a worker host on a sync connection.
  module _ (connect : String → Result Target) (default_name : String) where
    -- A worker host on a sync connection becomes the handler of that connection.
    takes_over :
        (s : LoaderState E) (p : Provider) (meta : ProcessorMetadata) (t : Target)
        → p.metadata ≡ some meta
        → p.is_worker_host ≡ true
        → connect (or_default meta.connection default_name) ≡ ok t
        → t.is_sync ≡ true
        → (s' : LoaderState E) × (lookup t.name s'.sync_handlers ≡ some p.number)
          × ((ps : List Provider)
              → bootstrap emitter connect default_name s (p ∷ ps)
                ≡ bootstrap emitter connect default_name s' ps)
    unfolding bootstrap register_processor register_event_listeners
    takes_over s p meta t m h a y =
        let s' = set_handler s t.name p.number in
        let registered : register_processor emitter connect default_name s p meta ≡ (s', ok tt) =
          simp (h, a, y) refl in
        (
          register_event_listeners emitter s' p,
          ap (lookup t.name) (methods-handlers s' p.number p.methods) ∙ stored,
          λ ps. simp (m, registered) refl,
        )
      where
        stored : lookup t.name (insert t.name p.number s.sync_handlers) ≡ some p.number
        stored =
            ground (arith, lookup-insert t.name t.name p.number s.sync_handlers, same_refl t.name)

    -- Two processors on one sync connection, whatever the queues they are declared for: after the
    -- bootstrap the later one is the handler of that connection, so it gets every job of it.
    pub later_processor_wins :
        (s : LoaderState E) (p q : Provider) (meta other : ProcessorMetadata) (t : Target)
        → p.metadata ≡ some meta
        → q.metadata ≡ some other
        → p.is_worker_host ≡ true
        → q.is_worker_host ≡ true
        → connect (or_default meta.connection default_name) ≡ ok t
        → connect (or_default other.connection default_name) ≡ ok t
        → t.is_sync ≡ true
        → lookup t.name (bootstrap emitter connect default_name s (p ∷ q ∷ [])).0.sync_handlers
          ≡ some q.number
    unfolding bootstrap
    later_processor_wins s p q meta other t m n h k a b y =
        let (s', first, next) = takes_over s p meta t m h a y in
        let (s'', last, done) = takes_over s' q other t n k b y in
        ap (λ r. lookup t.name r.0.sync_handlers) (next (q ∷ []) ∙ done []) ∙ last
