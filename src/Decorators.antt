-- ===== src/Decorators.antt =====
-- src/decorators/ and src/accessors/processor-metadata.accessor.ts. The metadata package is a store of values under a
-- key and a target, which is told apart by a number; `Injectable`, which the container reads, is left out. `J` are the
-- options of `@Job`, a type of another package.
pub mod Recorded
use ts_queue.Errors.{Result, ok, err, thrown}
use ts_queue.Loader.{OnJobEvent, ProcessorMetadata, Method, Provider}
use ts_queue.Prelude.{
  ℕ, String, Bool, true, false, List, [], ◌∷◌, ◌++◌, map, Option, none, some, or_default, same,
  if◌then◌else◌,
}
use ts_queue.Tokens.{get_queue_token, get_queue_connection_token}

-- The keys of src/constants/tokens.constant.ts.
pub data Key : Type 0 where
  processor_metadata : Key
  on_job_event_metadata : Key
  job_metadata : Key

abbrev pub key_text : Key → String
key_text processor_metadata = "QUEUE_PROCESSOR_METADATA"
key_text on_job_event_metadata = "QUEUE_ON_JOB_EVENT_METADATA"
key_text job_metadata = "QUEUE_JOB_METADATA"

-- One entry, or an array of them.
pub data Entries : Type 0 where
  one : OnJobEvent → Entries
  many : List OnJobEvent → Entries

abbrev pub Stored : Type 0 → Key → Type 0
Stored J processor_metadata = ProcessorMetadata
Stored J on_job_event_metadata = Entries
Stored J job_metadata = J

-- `getMetadata`, `defineMetadata` and `updateMetadata`, whose callback may throw.
pub record Metadata (J M : Type 0) : Type 0 where
  pub get : (k : Key) → M → ℕ → Option (Stored J k)
  pub define : (k : Key) → M → Stored J k → ℕ → M
  pub update : (k : Key) → M → Stored J k → (Stored J k → Result (Stored J k)) → ℕ → Result M

-- What an accessor is asked about.
pub data Subject : Type 0 where
  callable : ℕ → Subject
  plain : ℕ → Subject  -- an object that is no function
  other : Subject

-- A queue name, or the options.
pub data ProcessorArg : Type 0 where
  queue_name : String → ProcessorArg
  options : ProcessorMetadata → ProcessorArg

abbrev pub options_of : ProcessorArg → ProcessorMetadata
options_of (queue_name queue) = record { queue = queue; connection = none; concurrency = none }
options_of (options o) = o

-- `[...items, entry]`: what is no array cannot be spread.
abbrev pub spread : OnJobEvent → Entries → Result Entries
spread entry (many items) = ok (many (items ++ entry ∷ []))
spread entry (one item) = err (thrown "items is not iterable")

abbrev pub as_array : Option Entries → Option (List OnJobEvent)
as_array none = none
as_array (some (many items)) = some items
as_array (some (one item)) = some (item ∷ [])

module _ {J M : Type 0} (meta : Metadata J M) where
  unfoldable pub processor : ProcessorArg → M → ℕ → M
  processor arg m target = meta.define processor_metadata m (options_of arg) target

  unfoldable pub job : J → M → ℕ → M
  job o m target = meta.define job_metadata m o target

  unfoldable pub on_job_event : OnJobEvent → M → ℕ → Result M
  on_job_event entry m method = meta.update on_job_event_metadata m (many []) (spread entry) method

  unfoldable pub get_processor_metadata : M → Subject → Option ProcessorMetadata
  get_processor_metadata m (callable n) = meta.get processor_metadata m n
  get_processor_metadata m (plain n) = none
  get_processor_metadata m other = none

  unfoldable pub get_on_job_event_metadata : M → Subject → Option (List OnJobEvent)
  get_on_job_event_metadata m (callable n) = as_array (meta.get on_job_event_metadata m n)
  get_on_job_event_metadata m (plain n) = as_array (meta.get on_job_event_metadata m n)
  get_on_job_event_metadata m other = none

  -- The decorators of one method, in the order in which they are applied.
  unfoldable pub on_job_events : List OnJobEvent → M → ℕ → Result M
  unfolding on_job_event
  on_job_events [] m method = ok m
  on_job_events (entry ∷ rest) m method = elim (on_job_event entry m method) [
    | ok m' ↦ on_job_events rest m' method
    | err e ↦ err e
  ]

  -- A property of the prototype, as the loader looks at it.
  abbrev entries_of : M → String → Subject → List OnJobEvent
  entries_of m key (callable n) =
      if same key "constructor"
      then []
      else or_default (get_on_job_event_metadata m (callable n)) []
  entries_of m key (plain n) = []
  entries_of m key other = []

  -- An instance with what the loader reads of its class and methods.
  unfoldable pub provider_of : M → ℕ → String → Bool → ℕ → List (String × Subject) → Provider
  unfolding get_processor_metadata get_on_job_event_metadata
  provider_of m number class_name is_worker_host class properties = record {
    number = number;
    class_name = class_name;
    is_worker_host = is_worker_host;
    metadata = get_processor_metadata m (callable class);
    methods = map (λ p. record { key = p.0; entries = entries_of m p.0 p.1 }) properties;
  }

-- The token that `@InjectQueue` asks for.
unfoldable pub inject_queue : Option String → Option String → String
unfolding get_queue_token
inject_queue queue connection = get_queue_token queue connection

-- The token that `@InjectQueueConnection` asks for; an empty name is falsy.
unfoldable pub inject_queue_connection : String → Option String → String
unfolding get_queue_connection_token
inject_queue_connection default_token none = default_token
inject_queue_connection default_token (some name) =
    if same name "" then default_token else get_queue_connection_token (some name)
