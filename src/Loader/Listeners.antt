-- ===== src/Loader/Listeners.antt =====
-- The listeners that the loader adds to the event manager, and their removal.
use ts_queue.Loader.{
  LoaderState, Provider, Method, Listener, OnJobEvent, Emitter, subscribe, subscribe_entries,
  subscribe_methods, register_event_listeners, off_each,
}
use ts_queue.Prelude.{
  ℕ, ◌≤◌, ◌==◌, ◌&&◌, String, Bool, true, false, List, [], ◌∷◌, ◌++◌, some, ◌≡◌, refl, arith, same,
  if◌then◌else◌,
}

-- `on` adds one listener to one event, `off` takes it away, and neither touches another one.
pub record IsLawful {E : Type 0} (emitter : Emitter E) : Type 0 where
  pub listening-on :
      (e : E) (event other : String) (n k : ℕ)
      → emitter.listening (emitter.on e event n) other k
        ≡ (if same event other && (n == k) then true else emitter.listening e other k)
  pub listening-off :
      (e : E) (event other : String) (n k : ℕ)
      → emitter.listening (emitter.off e event n) other k
        ≡ (if same event other && (n == k) then false else emitter.listening e other k)

-- The loader remembers this listener for this event.
unfoldable pub noted : List Listener → String → ℕ → Bool
noted [] event n = false
noted (l ∷ ls) event n =
    if same l.binding.event event && (l.number == n) then true else noted ls event n

module _ {E : Type 0} (emitter : Emitter E) (lawful : IsLawful emitter) where
  -- No listener has a number from `n` on.
  abbrev pub IsFresh : E → ℕ → Type 0
  IsFresh e n = (event : String) (k : ℕ) → n ≤ k → emitter.listening e event k ≡ false

  noted-added :
      (xs : List Listener) (l : Listener) (event : String) (n : ℕ)
      → noted (xs ++ l ∷ []) event n
        ≡ (if same l.binding.event event && (l.number == n) then true else noted xs event n)
  unfolding noted
  noted-added [] l event n = refl
  noted-added (x ∷ xs) l event n = ground (arith, noted-added xs l event n)

  pub listening-off_each :
      (ls : List Listener) (e : E) (event : String) (n : ℕ)
      → emitter.listening (off_each emitter e ls) event n
        ≡ (if noted ls event n then false else emitter.listening e event n)
  unfolding off_each noted
  listening-off_each [] e event n = refl
  listening-off_each (l ∷ ls) e event n = ground (
    arith,
    listening-off_each ls (emitter.off e l.binding.event l.number) event n,
    lawful.listening-off e l.binding.event event l.number n,
  )

  -- Beside the listeners that were there at first, the event manager has those that the loader
  -- remembers, and these are new ones.
  pub record IsTracked (first : E) (s : LoaderState E) : Type 0 where
    pub current : E
    pub wired : s.events ≡ some current
    pub listening :
        (event : String) (n : ℕ)
        → emitter.listening current event n
          ≡ (if noted s.listeners event n then true else emitter.listening first event n)
    pub added :
        (event : String) (n : ℕ)
        → noted s.listeners event n ≡ true
        → emitter.listening first event n ≡ false
    pub fresh : IsFresh first s.next_number

  subscribe-IsTracked :
      (first : E) (s : LoaderState E) (host : ℕ) (method : String) (binding : OnJobEvent)
      → IsTracked first s
      → IsTracked first (subscribe emitter s host method binding)
  unfolding subscribe
  subscribe-IsTracked first s host method binding t =
      rw (t.wired, subscribe)
        (record {
          current = emitter.on t.current binding.event s.next_number;
          wired = refl;
          listening = λ event n. ground (
            arith,
            noted-added s.listeners added_one event n,
            lawful.listening-on t.current binding.event event s.next_number n,
            t.listening event n,
          );
          added = λ event n h. ground (
            arith,
            noted-added s.listeners added_one event n,
            t.added event n,
            t.fresh event n,
            h,
          );
          fresh = λ event k l. t.fresh event k (omega (arith, l));
        })
    where
      added_one : Listener
      added_one = record { number = s.next_number; host = host; method = method; binding = binding }

  entries-IsTracked :
      (first : E) (s : LoaderState E) (host : ℕ) (method : String) (entries : List OnJobEvent)
      → IsTracked first s
      → IsTracked first (subscribe_entries emitter s host method entries)
  unfolding subscribe_entries
  entries-IsTracked first s host method [] t = t
  entries-IsTracked first s host method (b ∷ rest) t =
      entries-IsTracked first (subscribe emitter s host method b) host method rest
        (subscribe-IsTracked first s host method b t)

  methods-IsTracked :
      (first : E) (s : LoaderState E) (host : ℕ) (ms : List Method)
      → IsTracked first s
      → IsTracked first (subscribe_methods emitter s host ms)
  unfolding subscribe_methods
  methods-IsTracked first s host [] t = t
  methods-IsTracked first s host (m ∷ ms) t =
      methods-IsTracked first (subscribe_entries emitter s host m.key m.entries) host ms
        (entries-IsTracked first s host m.key m.entries t)

  pub register_event_listeners-IsTracked :
      (first : E) (s : LoaderState E) (p : Provider)
      → IsTracked first s
      → IsTracked first (register_event_listeners emitter s p)
  unfolding register_event_listeners
  register_event_listeners-IsTracked first s p t = methods-IsTracked first s p.number p.methods t

  -- Once every remembered listener is off again, the event manager has those of the beginning.
  pub listening-off_all :
      (first : E) (s : LoaderState E) (t : IsTracked first s) (event : String) (n : ℕ)
      → emitter.listening (off_each emitter t.current s.listeners) event n
        ≡ emitter.listening first event n
  listening-off_all first s t event n = ground (
    arith,
    listening-off_each s.listeners t.current event n,
    t.listening event n,
    t.added event n,
  )
