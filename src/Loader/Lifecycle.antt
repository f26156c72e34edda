-- ===== src/Loader/Lifecycle.antt =====
-- A bootstrap and the shutdown after it.
use ts_queue.Errors.{Result, ok, err}
use ts_queue.Loader.{
  LoaderState, Provider, ProcessorMetadata, Target, Spawned, Emitter, register_processor,
  register_event_listeners, bootstrap, off_each, shutdown, stop_each, events_off,
  after_registration,
}
use ts_queue.Loader.Listeners.{
  IsLawful, IsFresh, IsTracked, register_event_listeners-IsTracked, listening-off_all, noted,
}
use ts_queue.Loader.Spawn.{
  Registered, register_processor-Registered, not_a_host, unresolved, inline, polled,
}
use ts_queue.Prelude.{
  ℕ, String, false, List, [], ◌∷◌, some, ◌≡◌, refl, arith, All, Option-cases, inl, inr, length, ap,
  suc,
}
use ts_queue.Worker.Loop
use ts_queue.Worker.Loop.{Loop}

stop_idle : (l : Loop) → (Loop.stop l).running ≡ false
unfolding Loop.stop
stop_idle l = ground arith

module _ {E : Type 0} (emitter : Emitter E) (lawful : IsLawful emitter) where
  -- Registering a processor leaves the event manager and the listeners alone.
  Registered-IsTracked :
      (first : E) {s : LoaderState E} {p : Provider} {meta : ProcessorMetadata}
      {answer : Result Target} {s' : LoaderState E} {r : Result (Unit {0})}
      → Registered s p meta answer s' r
      → IsTracked emitter lawful first s
      → IsTracked emitter lawful first s'
  Registered-IsTracked first (not_a_host e h) t = t
  Registered-IsTracked first (unresolved e h) t = t
  Registered-IsTracked first (inline u hs h a y z) t = record {
    current = t.current;
    wired = t.wired;
    listening = t.listening;
    added = t.added;
    fresh = t.fresh;
  }
  Registered-IsTracked first (polled u ws h a y z o) t = record {
    current = t.current;
    wired = t.wired;
    listening = t.listening;
    added = t.added;
    fresh = t.fresh;
  }

  module _ (connect : String → Result Target) (default_name : String) where
    bootstrap-IsTracked :
        (first : E) (s : LoaderState E) (ps : List Provider)
        → IsTracked emitter lawful first s
        → IsTracked emitter lawful first (bootstrap emitter connect default_name s ps).0
    unfolding bootstrap
    bootstrap-IsTracked first s [] t = t
    bootstrap-IsTracked first s (p ∷ ps) t = elim (Option-cases p.metadata) [
      | inl e ↦ simp (e, bootstrap) (bootstrap-IsTracked first s ps t)
      | inr (meta, e) ↦
          simp (e, bootstrap)
            (after (λ s' t'. bootstrap-IsTracked first s' ps t')
              (register_processor emitter connect default_name s p meta)
              (Registered-IsTracked first
                (register_processor-Registered emitter connect default_name s p meta) t))
    ]
      where
        after :
            (others : (s' : LoaderState E)
              → IsTracked emitter lawful first s'
              → IsTracked emitter lawful first (bootstrap emitter connect default_name s' ps).0)
            (r : LoaderState E × Result (Unit {0}))
            → IsTracked emitter lawful first r.0
            → IsTracked emitter lawful first
                (after_registration emitter
                  (λ s'.
                    bootstrap emitter connect default_name
                      (register_event_listeners emitter s' p)
                      ps)
                  r).0
        after others (s', err e) t' = t'
        after others (s', ok u) t' =
            others (register_event_listeners emitter s' p)
              (register_event_listeners-IsTracked emitter lawful first s' p t')

    stop_each_idle :
        (ws : List Spawned)
        → (length (stop_each emitter ws) ≡ length ws)
          × All (λ w. w.loop.running ≡ false) (stop_each emitter ws)
    stop_each_idle [] = (refl, tt)
    stop_each_idle (w ∷ ws) =
        let (n, idle) = stop_each_idle ws in (ap suc n, (stop_idle w.loop, idle))

    -- For a loader that has no listener yet, on a lawful event manager where no listener has a
    -- number that the loader will give out: after a bootstrap over any providers, ended by an error
    -- or not, the shutdown stops every worker that the bootstrap started, keeps no worker and no
    -- listener, and leaves the event manager with exactly the listeners that it had at first.
    pub shutdown-bootstrap :
        (first : E) (s : LoaderState E) (ps : List Provider)
        → s.events ≡ some first
        → s.listeners ≡ []
        → IsFresh emitter lawful first s.next_number
        → let booted = (bootstrap emitter connect default_name s ps).0 in
          let (after, stopped) = shutdown emitter booted in
          (length stopped ≡ length booted.workers)
          × All (λ w. w.loop.running ≡ false) stopped
          × (after.workers ≡ [])
          × (after.listeners ≡ [])
          × ((e : E) × (after.events ≡ some e)
              × ((event : String) (n : ℕ)
                  → emitter.listening e event n ≡ emitter.listening first event n))
    unfolding shutdown noted
    shutdown-bootstrap first s ps wired none_yet fresh =
        let t = bootstrap-IsTracked first s ps (record {
          current = first;
          wired = wired;
          listening = λ event n. rw (none_yet, noted) refl;
          added = λ event n h. absurd (ground (arith, none_yet, h));
          fresh = fresh;
        }) in
        let booted = (bootstrap emitter connect default_name s ps).0 in
        let (n, idle) = stop_each_idle booted.workers in
        (
          n,
          idle,
          refl,
          refl,
          (
            off_each emitter t.current booted.listeners,
            ap (events_off emitter booted.listeners) t.wired,
            λ event k. listening-off_all emitter lawful first booted t event k,
          ),
        )
