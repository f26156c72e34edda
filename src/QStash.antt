-- ===== src/QStash.antt =====
-- src/connections/qstash.connection.ts. What the network and the SDK answer is the argument
-- `world`; a call returns the new state, the requests that it sent, and its result.
pub mod Publish
use ts_queue.Errors.{Error, queue_driver_error, decimal, Result, ok, err}
use ts_queue.Job.{Job, JobOptions, Dispatch}
use ts_queue.Payload.{Value}
use ts_queue.Prelude.{
  ℕ, ◌/◌, String, Bool, true, false, List, [], ◌∷◌, Option, none, some, or_default, same, ◌+++◌,
  if◌then◌else◌,
}

pub record QStashConfig : Type 0 where
  pub mode : Option String
  pub token : Option String
  pub proxy_url : Option String
  pub default_destination : Option String
  pub base_url : Option String

pub record QStashConnection : Type 0 where
  pub name : String
  pub config : QStashConfig
  pub direct_client : Bool  -- whether the client is loaded

-- The body of a request to the proxy.
pub record ProxyPublishRequest : Type 0 where
  pub name : String
  pub payload : Value
  pub destination : Option String
  pub delay_sec : Option ℕ
  pub retries : Option ℕ
  pub deduplication_id : Option String
  pub tags : Option (List String)

pub data Request : Type 0 where
  -- fetch(url, …) with this body
  post : String → ProxyPublishRequest → Request
  -- publishJSON, with url, job name and payload, retries, delay and deduplication id
  publish_json : String → String → Value → Option ℕ → Option ℕ → Option String → Request

-- How `fetch` ends: it rejects, or there is a response with its status, its text, and its JSON
-- with the two ids, unless that does not parse.
pub data Reply : Type 0 where
  rejected : Error → Reply
  response : Bool → ℕ → String → Result (Option String × Option String) → Reply

pub record World : Type 0 where
  pub reply : Reply
  pub sdk_loads : Bool  -- the import and the constructor of the client
  pub published : Result String

-- A text that is present and not empty.
abbrev pub present : Option String → Option String
present none = none
present (some String.[]) = none
present (some (String.◌∷◌ c s)) = some (String.◌∷◌ c s)

-- `first ?? second`
abbrev pub or_else : Option String → Option String → Option String
or_else none second = second
or_else (some s) second = some s

abbrev tag : QStashConnection → String
tag c = "[QStashConnection:" +++ c.name +++ "] "

-- `Math.floor(delayMs / 1000)`, if there is a delay.
abbrev pub delay_sec : JobOptions → Option ℕ
delay_sec options = elim options.delay_ms [ none ↦ none | some d ↦ some (d / 1000) ]

-- What a call leaves.
abbrev pub Outcome : Type 0
Outcome = QStashConnection × List Request × Result String

abbrev pub message_id : Option String × Option String → String
message_id (m, s) = or_default m (or_default s "")

abbrev pub read_reply : QStashConnection → Reply → Result String
read_reply c (rejected e) = err e
read_reply c (response false status text body) =
    err (queue_driver_error (tag c +++ "Proxy returned HTTP " +++ decimal status +++ ": " +++ text))
read_reply c (response true status text (err e)) = err e
read_reply c (response true status text (ok ids)) = ok (message_id ids)

abbrev pub proxy_body : Dispatch → String → ProxyPublishRequest
proxy_body args destination = record {
  name = args.name;
  payload = args.payload;
  destination = some destination;
  delay_sec = delay_sec args.options;
  retries = args.options.tries;
  deduplication_id = args.options.unique_id;
  tags = args.options.tags;
}

unfoldable pub push_proxy : QStashConnection → World → Dispatch → String → Outcome
unfolding decimal
push_proxy c world args destination = elim (present c.config.proxy_url) [
  | none ↦
      (c, [], err (queue_driver_error (tag c +++ "mode: 'proxy' requires 'proxyUrl' in config.")))
  | some url ↦ (c, post url (proxy_body args destination) ∷ [], read_reply c world.reply)
]

abbrev pub sdk_missing : QStashConnection → String
sdk_missing c =
    tag c
    +++ "mode: 'direct' requires '@upstash/qstash' to be installed. Run 'pnpm add @upstash/qstash' or switch to 'mode: proxy'."

-- A client is loaded once.
unfoldable pub get_direct_client : QStashConnection → World → QStashConnection × Result (Unit {0})
get_direct_client c world =
    if c.direct_client
    then (c, ok tt)
    else if world.sdk_loads
    then (record c { direct_client = true }, ok tt)
    else (c, err (queue_driver_error (sdk_missing c)))

abbrev pub send_direct : QStashConnection × Result (Unit {0}) → World → Dispatch → String → Outcome
send_direct (c, err e) world args destination = (c, [], err e)
send_direct (c, ok _) world args destination = (
  c,
  publish_json destination args.name args.payload args.options.tries (delay_sec args.options)
        args.options.unique_id
      ∷ [],
  world.published,
)

unfoldable pub push_direct : QStashConnection → World → Dispatch → String → Outcome
unfolding get_direct_client
push_direct c world args destination = elim (present c.config.token) [
  | none ↦ (
    c,
    [],
    err (
        queue_driver_error (
          tag c
          +++ "mode: 'direct' requires 'token' in config. Do NOT ship this token in a public client — prefer 'mode: proxy' instead.")),
  )
  | some token ↦ send_direct (get_direct_client c world) world args destination
]

-- The destination of a call.
abbrev pub destination_of : QStashConnection → JobOptions → Option String
destination_of c options = present (or_else options.destination c.config.default_destination)

abbrev pub is_direct : QStashConnection → Bool
is_direct c = same (or_default c.config.mode "proxy") "direct"

unfoldable pub push : QStashConnection → World → Dispatch → Outcome
unfolding push_proxy push_direct
push c world args = elim (destination_of c args.options) [
  | none ↦ (
    c,
    [],
    err (
        queue_driver_error (
          tag c
          +++ "push() requires a destination. Pass 'defaultDestination' in config or 'driverOptions.destination' at push time.")),
  )
  | some destination ↦
      if is_direct c
      then push_direct c world args destination
      else push_proxy c world args destination
]

unfoldable pub later : ℕ → QStashConnection → World → Dispatch → Outcome
unfolding push
later delay_ms c world args =
    push c world (record args { options = record (args.options) { delay_ms = some delay_ms } })

unfoldable pub pop : QStashConnection → QStashConnection × Option Job
pop c = (c, none)

-- `size`, `pendingSize`, `delayedSize` and `reservedSize`.
unfoldable pub size : QStashConnection → ℕ
size c = 0

-- `remove`, `release` and `fail`.
unfoldable pub nothing : QStashConnection → QStashConnection
nothing c = c

unfoldable pub clear : QStashConnection → QStashConnection × Result (Unit {0})
clear c = (
  c,
  err (
      queue_driver_error (
        tag c
        +++ "clear() is not supported. Use the QStash console or API from your backend to clear messages.")),
)

unfoldable pub close : QStashConnection → QStashConnection
close c = record c { direct_client = false }
