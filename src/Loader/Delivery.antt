-- ===== src/Loader/Delivery.antt =====
-- Which methods an event of the queue reaches, once the loader has subscribed them.
use mathlib.Core.List.{append-nil, append_assoc}
use ts_queue.Errors.{Result, ok, err}
use ts_queue.Loader.{
  LoaderState, Provider, ProcessorMetadata, Target, Method, Listener, OnJobEvent, Emitter, passes,
  subscribe, subscribe_entries, subscribe_methods, register_event_listeners, register_processor,
  bootstrap, after_registration,
}
use ts_queue.Loader.Called.{
  MethodCall, called, asked_of_entries, asked_of_methods, asked, called-added, Below, called-Below,
  Below-added, in_scope, passes-in_scope,
}
use ts_queue.Loader.Listeners.{IsLawful, IsFresh}
use ts_queue.Loader.Spawn.{
  Registered, register_processor-Registered, not_a_host, unresolved, inline, polled,
}
use ts_queue.Prelude.{
  ℕ, ◌≤◌, ◌==◌, ◌&&◌, String, Bool, true, false, List, [], ◌∷◌, ◌++◌, Option, some, ◌≡◌, ◌≢◌, ◌∙◌,
  sym, ap, subst, refl, arith, same, if◌then◌else◌, Bool-cases, Option-cases, inl, inr,
}

module _ {E : Type 0} (emitter : Emitter E) (lawful : IsLawful emitter) (event : String)
    (connection : Option String) (named : connection ≢ some "") where
  -- The listeners that were added so far make these calls, and every number to come is new.
  pub record Delivers (s : LoaderState E) (calls : List MethodCall) : Type 0 where
    pub current : E
    pub wired : s.events ≡ some current
    pub calling : called (emitter.listening current event) connection s.listeners ≡ calls
    pub below : Below s.next_number s.listeners
    pub fresh : (k : ℕ) → s.next_number ≤ k → emitter.listening current event k ≡ false

  subscribe-Delivers :
      (s : LoaderState E) (host : ℕ) (method : String) (b : OnJobEvent) {calls : List MethodCall}
      → Delivers s calls
      → Delivers
          (subscribe emitter s host method b)
          (calls ++ asked_of_entries event connection host method (b ∷ []))
  unfolding subscribe called asked_of_entries
  subscribe-Delivers s host method b {calls} t =
      rw (t.wired, subscribe)
        (record {
          current = emitter.on t.current b.event s.next_number;
          wired = refl;
          calling =
              called-added hears connection s.listeners added
              ∙ ap (λ l. l ++ called hears connection (added ∷ [])) old
              ∙ ap
                  (λ (h : Bool).
                    calls ++ (if h && passes b connection then (host, method) ∷ [] else []))
                  new
              ∙ ap
                  (λ (h : Bool).
                    calls ++ (if same b.event event && h then (host, method) ∷ [] else []))
                  (passes-in_scope connection b named);
          below = Below-added s.next_number s.listeners added refl t.below;
          fresh = λ k l. ground (arith, hearing k, t.fresh k (omega (arith, l)), l);
        })
    where
      added : Listener
      added = record { number = s.next_number; host = host; method = method; binding = b }

      hears : ℕ → Bool
      hears = emitter.listening (emitter.on t.current b.event s.next_number) event

      hearing :
          (k : ℕ)
          → hears k ≡ (
              if same b.event event && (s.next_number == k)
              then true
              else emitter.listening t.current event k)
      hearing k = lawful.listening-on t.current b.event event s.next_number k

      old : called hears connection s.listeners ≡ calls
      old =
          called-Below hears (emitter.listening t.current event) connection s.next_number
            s.listeners (λ k l. ground (arith, hearing k, l)) t.below
          ∙ t.calling

      new : hears s.next_number ≡ same b.event event
      new = ground (arith, hearing s.next_number, t.fresh s.next_number (omega arith))

  asked-first :
      (host : ℕ) (method : String) (b : OnJobEvent) (bs : List OnJobEvent)
      → asked_of_entries event connection host method (b ∷ [])
          ++ asked_of_entries event connection host method bs
        ≡ asked_of_entries event connection host method (b ∷ bs)
  unfolding asked_of_entries
  asked-first host method b bs = elim (Bool-cases (same b.event event && in_scope connection b)) [
    | inl e ↦ rw e refl
    | inr e ↦ rw e refl
  ]

  entries-Delivers :
      (s : LoaderState E) (host : ℕ) (method : String) (bs : List OnJobEvent)
      {calls : List MethodCall}
      → Delivers s calls
      → Delivers
          (subscribe_entries emitter s host method bs)
          (calls ++ asked_of_entries event connection host method bs)
  unfolding subscribe_entries asked_of_entries
  entries-Delivers s host method [] {calls} t = subst (Delivers s) (sym (append-nil calls)) t
  entries-Delivers s host method (b ∷ bs) {calls} t =
      subst (Delivers _)
        (append_assoc calls _ _ ∙ ap (λ l. calls ++ l) (asked-first host method b bs))
        (entries-Delivers (subscribe emitter s host method b) host method bs
          (subscribe-Delivers s host method b t))

  methods-Delivers :
      (s : LoaderState E) (host : ℕ) (ms : List Method) {calls : List MethodCall}
      → Delivers s calls
      → Delivers
          (subscribe_methods emitter s host ms)
          (calls ++ asked_of_methods event connection host ms)
  unfolding subscribe_methods asked_of_methods
  methods-Delivers s host [] {calls} t = subst (Delivers s) (sym (append-nil calls)) t
  methods-Delivers s host (m ∷ ms) {calls} t = subst (Delivers _) (append_assoc calls _ _) (
      methods-Delivers (subscribe_entries emitter s host m.key m.entries) host ms
        (entries-Delivers s host m.key m.entries t))

  Registered-Delivers :
      {s : LoaderState E} {p : Provider} {meta : ProcessorMetadata} {answer : Result Target}
      {s' : LoaderState E} {r : Result (Unit {0})} {calls : List MethodCall}
      → Registered s p meta answer s' r
      → Delivers s calls
      → Delivers s' calls
  Registered-Delivers (not_a_host e h) t = t
  Registered-Delivers (unresolved e h) t = t
  Registered-Delivers (inline u hs h a y z) t = record {
    current = t.current;
    wired = t.wired;
    calling = t.calling;
    below = t.below;
    fresh = t.fresh;
  }
  Registered-Delivers (polled u ws h a y z o) t = record {
    current = t.current;
    wired = t.wired;
    calling = t.calling;
    below = t.below;
    fresh = t.fresh;
  }

  module _ (connect : String → Result Target) (default_name : String) where
    -- What a run of the rest makes, if it is without an error.
    abbrev Ends : LoaderState E × Result (Unit {0}) → List MethodCall → Type 0
    Ends r calls = r.1 ≡ ok tt → Delivers r.0 calls

    bootstrap-Delivers :
        (s : LoaderState E) (ps : List Provider) {calls : List MethodCall}
        → Delivers s calls
        → Ends (bootstrap emitter connect default_name s ps) (calls ++ asked event connection ps)
    unfolding bootstrap asked register_event_listeners
    bootstrap-Delivers s [] {calls} t = λ h. subst (Delivers s) (sym (append-nil calls)) t
    bootstrap-Delivers s (p ∷ ps) {calls} t = elim (Option-cases p.metadata) [
      | inl e ↦ simp (e, bootstrap, asked) (bootstrap-Delivers s ps t)
      | inr (meta, e) ↦
          simp (e, bootstrap, asked)
            (after (λ s' c t'. bootstrap-Delivers s' ps t')
              (register_processor emitter connect default_name s p meta)
              (Registered-Delivers
                (register_processor-Registered emitter connect default_name s p meta) t))
    ]
      where
        after :
            (others : (s' : LoaderState E) (c : List MethodCall)
              → Delivers s' c
              → Ends
                  (bootstrap emitter connect default_name s' ps)
                  (c ++ asked event connection ps))
            (r : LoaderState E × Result (Unit {0}))
            → Delivers r.0 calls
            → Ends
                (after_registration emitter
                  (λ s'.
                    bootstrap emitter connect default_name
                      (register_event_listeners emitter s' p)
                      ps)
                  r)
                (calls
                  ++ (asked_of_methods event connection p.number p.methods
                      ++ asked event connection ps))
        after others (s', err e) t' h = absurd (ground (arith, h))
        after others (s', ok u) t' h = subst (Delivers _) (append_assoc calls _ _) (
            others (register_event_listeners emitter s' p) _
              (methods-Delivers s' p.number p.methods t') h)

    -- On a lawful event manager where no listener has a number that the loader will give out, after a bootstrap without
    -- an error of a loader that has no listener yet, and for an event that carries no job, or a job whose connection has
    -- a name: the closures that the event manager runs call exactly the methods with an `@OnJobEvent` for the event that
    -- is meant to hear it, once for each such entry, in the order of providers, methods and entries. For a job, that is
    -- an entry without a connection or with the job's; for an event that carries no job, it is every entry, also one
    -- with a connection.
    pub bootstrap-asked :
        (first : E) (s : LoaderState E) (ps : List Provider)
        → s.events ≡ some first
        → s.listeners ≡ []
        → IsFresh emitter lawful first s.next_number
        → (bootstrap emitter connect default_name s ps).1 ≡ ok tt
        → let booted = (bootstrap emitter connect default_name s ps).0 in
          (e : E) × (booted.events ≡ some e)
          × (called (emitter.listening e event) connection booted.listeners
              ≡ asked event connection ps)
    unfolding called
    bootstrap-asked first s ps w none_yet f h =
        let d = bootstrap-Delivers s ps start h in (d.current, d.wired, d.calling)
      where
        start : Delivers s []
        start = record {
          current = first;
          wired = w;
          calling = ap (called (emitter.listening first event) connection) none_yet;
          below = subst (Below s.next_number) (sym none_yet) tt;
          fresh = λ k l. f event k l;
        }
