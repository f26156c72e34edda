-- ===== src/Loader.antt =====
-- src/loaders/processor-subscribers.loader.ts. The container's providers, with their metadata, are
-- a list. The manager's `connection` and the event manager are other parts: `connect` answers for a
-- name, and `emitter` keeps the listeners. A listener is a closure of its own, told apart by a
-- number; a processor is told apart by its place among the providers.
pub mod Spawn
pub mod Listeners
pub mod Lifecycle
pub mod Handlers
pub mod Collect
pub mod Called
pub mod Delivery
use ts_queue.Errors.{Error, queue_driver_error, Result, ok, err}
use ts_queue.Prelude.{
  ℕ, zero, suc, ◌+◌, max, String, Bool, true, false, List, [], ◌∷◌, ◌++◌, Option, none, some,
  or_default, same, if◌then◌else◌, ◌+++◌,
}
use ts_queue.Prelude.Maps.{insert}
use ts_queue.Worker.Loop
use ts_queue.Worker.Loop.{Loop}

-- `@OnJobEvent(event, connection)`
pub record OnJobEvent : Type 0 where
  pub event : String
  pub connection : Option String

-- `@Processor({ queue, connection, concurrency })`
pub record ProcessorMetadata : Type 0 where
  pub queue : String
  pub connection : Option String
  pub concurrency : Option ℕ

-- A property of the prototype: its key, and what `@OnJobEvent` left on the method. A property that
-- is no function, and the constructor, carry no entries.
pub record Method : Type 0 where
  pub key : String
  pub entries : List OnJobEvent

pub record Provider : Type 0 where
  pub number : ℕ
  pub class_name : String
  pub is_worker_host : Bool  -- instanceof WorkerHost
  pub metadata : Option ProcessorMetadata
  pub methods : List Method

-- A connection, as far as the loader looks at it.
pub record Target : Type 0 where
  pub name : String
  pub is_sync : Bool  -- instanceof SyncConnection

pub record Spawned : Type 0 where
  pub loop : Loop
  pub host : ℕ

pub record Listener : Type 0 where
  pub number : ℕ
  pub host : ℕ
  pub method : String
  pub binding : OnJobEvent

-- What the loader uses of an event manager: who listens to which event.
pub record Emitter (E : Type 0) : Type 0 where
  pub on : E → String → ℕ → E
  pub off : E → String → ℕ → E
  pub listening : E → String → ℕ → Bool

pub record LoaderState (E : Type 0) : Type 0 where
  pub workers : List Spawned
  pub listeners : List Listener
  pub sync_handlers : List (String × ℕ)  -- connection, and the processor that its handler calls
  pub events : Option E
  pub next_number : ℕ

-- `setHandler` on the connection.
abbrev pub set_handler : {E : Type 0} → LoaderState E → String → ℕ → LoaderState E
set_handler s name host = record s { sync_handlers = insert name host s.sync_handlers }

-- The loop that starts the workers.
unfoldable pub spawn : ℕ → String → String → ℕ → List Spawned
unfolding Loop.start
spawn zero connection queue host = []
spawn (suc n) connection queue host =
    record { loop = Loop.start (Loop.new connection queue); host = host }
    ∷ spawn n connection queue host

-- `meta.connection` set: an event that carries a job of another connection is skipped. An empty
-- connection is falsy.
unfoldable pub passes : OnJobEvent → Option String → Bool
passes binding job_connection = elim binding.connection [
  | none ↦ true
  | some c ↦ elim job_connection [
    | none ↦ true
    | some d ↦ if same c "" then true else if same d "" then true else same d c
  ]
]

module _ {E : Type 0} (emitter : Emitter E) where
  unfoldable pub subscribe : LoaderState E → ℕ → String → OnJobEvent → LoaderState E
  subscribe s host method binding = elim s.events [
    | none ↦ s
    | some e ↦ record s {
      events = some (emitter.on e binding.event s.next_number);
      listeners =
          s.listeners
          ++ record { number = s.next_number; host = host; method = method; binding = binding }
            ∷ [];
      next_number = s.next_number + 1;
    }
  ]

  unfoldable pub subscribe_entries : LoaderState E → ℕ → String → List OnJobEvent → LoaderState E
  unfolding subscribe
  subscribe_entries s host method [] = s
  subscribe_entries s host method (binding ∷ rest) =
      subscribe_entries (subscribe s host method binding) host method rest

  unfoldable pub subscribe_methods : LoaderState E → ℕ → List Method → LoaderState E
  unfolding subscribe_entries
  subscribe_methods s host [] = s
  subscribe_methods s host (m ∷ ms) =
      subscribe_methods (subscribe_entries s host m.key m.entries) host ms

  unfoldable pub register_event_listeners : LoaderState E → Provider → LoaderState E
  unfolding subscribe_methods
  register_event_listeners s p = subscribe_methods s p.number p.methods

  abbrev on_connection :
      LoaderState E
      → Provider
      → ProcessorMetadata
      → Result Target
      → LoaderState E × Result (Unit {0})
  on_connection s p meta (err e) = (s, err e)
  on_connection s p meta (ok target) =
      if target.is_sync then (set_handler s target.name p.number, ok tt) else (
        record s {
          workers =
              s.workers
              ++ spawn (max 1 (or_default meta.concurrency 1)) target.name meta.queue p.number;
        },
        ok tt,
      )

  unfoldable pub register_processor :
      (String → Result Target)
      → String
      → LoaderState E
      → Provider
      → ProcessorMetadata
      → LoaderState E × Result (Unit {0})
  unfolding spawn insert
  register_processor connect default_name s p meta =
      if p.is_worker_host
      then on_connection s p meta (connect (or_default meta.connection default_name))
      else (
        s,
        err (
            queue_driver_error
              ("[QueueLoader] Processor class '" +++ p.class_name +++ "' must extend WorkerHost.")),
      )

  abbrev after_registration :
      (LoaderState E → LoaderState E × Result (Unit {0}))
      → LoaderState E × Result (Unit {0})
      → LoaderState E × Result (Unit {0})
  after_registration rest (s, ok _) = rest s
  after_registration rest (s, err e) = (s, err e)

  -- The loop over the providers; an error ends it.
  unfoldable pub bootstrap :
      (String → Result Target)
      → String
      → LoaderState E
      → List Provider
      → LoaderState E × Result (Unit {0})
  unfolding register_processor register_event_listeners
  bootstrap connect default_name s [] = (s, ok tt)
  bootstrap connect default_name s (p ∷ ps) = elim p.metadata [
    | none ↦ bootstrap connect default_name s ps
    | some meta ↦
        after_registration (λ s'. bootstrap connect default_name (register_event_listeners s' p) ps)
          (register_processor connect default_name s p meta)
  ]

  abbrev stop_each : List Spawned → List Spawned
  stop_each [] = []
  stop_each (w ∷ ws) = record w { loop = Loop.stop w.loop } ∷ stop_each ws

  unfoldable pub off_each : E → List Listener → E
  off_each e [] = e
  off_each e (l ∷ ls) = off_each (emitter.off e l.binding.event l.number) ls

  abbrev events_off : List Listener → Option E → Option E
  events_off ls none = none
  events_off ls (some e) = some (off_each e ls)

  -- The state after `onApplicationShutdown`, and the workers as it leaves them.
  unfoldable pub shutdown : LoaderState E → LoaderState E × List Spawned
  unfolding off_each Loop.stop
  shutdown s = (
    record s { workers = []; listeners = []; events = events_off s.listeners s.events },
    stop_each s.workers,
  )
