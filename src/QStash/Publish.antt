-- ===== src/QStash/Publish.antt =====
-- What a dispatch sends to QStash.
use ts_queue.Errors.{queue_driver_error, ok, err}
use ts_queue.Job.{JobOptions, Dispatch}
use ts_queue.Prelude.{
  ℕ, ◌+◌, ◌*◌, ◌≤◌, ◌<◌, String, Bool, true, false, [], ◌∷◌, Option, none, some, ◌≡◌, refl, sym,
  subst, arith, Option-cases, Bool-cases, inl, inr, ◌⊎◌, if◌then◌else◌,
}
use ts_queue.QStash.{
  QStashConnection, World, Outcome, Request, post, publish_json, push, push_proxy, push_direct,
  get_direct_client, send_direct, present, destination_of, is_direct, delay_sec, proxy_body,
  read_reply, sdk_missing,
}

-- The delay in whole seconds: it is there exactly if the dispatch has one, never longer, and less
-- than a second shorter.
abbrev pub KeepsDelay : JobOptions → Option ℕ → Type 0
KeepsDelay options none = options.delay_ms ≡ none
KeepsDelay options (some s) =
    (d : ℕ) × (options.delay_ms ≡ some d) × (s * 1000 ≤ d) × (d < s * 1000 + 1000)

-- A request carries the dispatch.
abbrev pub Carries : Dispatch → String → Request → Type 0
Carries args destination (post url body) =
    (body.name ≡ args.name)
    × (body.payload ≡ args.payload)
    × (body.destination ≡ some destination)
    × KeepsDelay args.options body.delay_sec
    × (body.retries ≡ args.options.tries)
    × (body.deduplication_id ≡ args.options.unique_id)
    × (body.tags ≡ args.options.tags)
Carries args destination (publish_json url name payload retries delay deduplication_id) =
    (name ≡ args.name)
    × (payload ≡ args.payload)
    × (url ≡ destination)
    × KeepsDelay args.options delay
    × (retries ≡ args.options.tries)
    × (deduplication_id ≡ args.options.unique_id)

-- What can go wrong before anything is sent.
pub data Misconfigured (c : QStashConnection) (world : World) (args : Dispatch) : Type 0 where
  no_destination : destination_of c args.options ≡ none → Misconfigured c world args
  no_proxy_url :
      is_direct c ≡ false → present c.config.proxy_url ≡ none → Misconfigured c world args
  no_token : is_direct c ≡ true → present c.config.token ≡ none → Misconfigured c world args
  no_sdk :
      is_direct c ≡ true
      → c.direct_client ≡ false
      → world.sdk_loads ≡ false
      → Misconfigured c world args

-- Nothing is sent, and the promise rejects with an error of the driver.
pub record Refuses (c : QStashConnection) (world : World) (args : Dispatch) (o : Outcome)
    : Type 0 where
  pub reason : Misconfigured c world args
  pub untouched : o.0 ≡ c
  pub silent : o.1 ≡ []
  pub message : String
  pub error : o.2 ≡ err (queue_driver_error message)

pub record Sends (c : QStashConnection) (world : World) (args : Dispatch) (o : Outcome)
    : Type 0 where
  pub destination : String
  pub chosen : destination_of c args.options ≡ some destination
  pub request : Request
  pub sent : o.1 ≡ request ∷ []
  pub carries : Carries args destination request
  pub result : o.2 ≡ (if is_direct c then world.published else read_reply c world.reply)

delay-KeepsDelay : (options : JobOptions) → KeepsDelay options (delay_sec options)
delay-KeepsDelay options = elim (Option-cases options.delay_ms) [
  | inl e ↦ rw e refl
  | inr (d, e) ↦ rw e (d, refl, omega arith, omega arith)
]

module _ (c : QStashConnection) (world : World) (args : Dispatch) where
  proxy-cases :
      (destination : String)
      → destination_of c args.options ≡ some destination
      → is_direct c ≡ false
      → Refuses c world args (push_proxy c world args destination)
        ⊎ Sends c world args (push_proxy c world args destination)
  unfolding push_proxy
  proxy-cases destination chosen mode = elim (Option-cases (present c.config.proxy_url)) [
    | inl e ↦ inl (
        rw (e, push_proxy)
          (record {
            reason = no_proxy_url mode e;
            untouched = refl;
            silent = refl;
            message = _;
            error = refl;
          }))
    | inr (url, e) ↦ inr (
        rw (e, push_proxy)
          (record {
            destination = destination;
            chosen = chosen;
            request = post url (proxy_body args destination);
            sent = refl;
            carries = (refl, refl, refl, delay-KeepsDelay args.options, refl, refl, refl);
            result = rw mode refl;
          }))
  ]

  direct_sent :
      (destination : String) (loaded : Bool)
      → destination_of c args.options ≡ some destination
      → is_direct c ≡ true
      → Sends c world args
          (send_direct (record c { direct_client = loaded }, ok tt) world args destination)
  direct_sent destination loaded chosen mode = record {
    destination = destination;
    chosen = chosen;
    request =
        publish_json destination args.name args.payload args.options.tries (delay_sec args.options)
          args.options.unique_id;
    sent = refl;
    carries = (refl, refl, refl, delay-KeepsDelay args.options, refl, refl);
    result = rw mode refl;
  }

  client_loads :
      c.direct_client ≡ false
      → world.sdk_loads ≡ true
      → get_direct_client c world ≡ (record c { direct_client = true }, ok tt)
  unfolding get_direct_client
  client_loads d l = ground (arith, d, l)

  client_missing :
      c.direct_client ≡ false
      → world.sdk_loads ≡ false
      → get_direct_client c world ≡ (c, err (queue_driver_error (sdk_missing c)))
  unfolding get_direct_client
  client_missing d l = ground (arith, d, l)

  direct-cases :
      (destination : String)
      → destination_of c args.options ≡ some destination
      → is_direct c ≡ true
      → Refuses c world args (push_direct c world args destination)
        ⊎ Sends c world args (push_direct c world args destination)
  unfolding push_direct get_direct_client
  direct-cases destination chosen mode = elim (Option-cases (present c.config.token)) [
    | inl e ↦ inl (
        rw (e, push_direct)
          (record {
            reason = no_token mode e;
            untouched = refl;
            silent = refl;
            message = _;
            error = refl;
          }))
    | inr (token, e) ↦ elim (Bool-cases c.direct_client) [
      | inl d ↦
          inr
            (rw (e, d, push_direct) (rw d at (direct_sent destination c.direct_client chosen mode)))
      | inr d ↦ elim (Bool-cases world.sdk_loads) [
        | inl l ↦ inr (
            rw (e, push_direct)
              (subst (λ r. Sends c world args (send_direct r world args destination))
                (sym (client_loads d l)) (direct_sent destination true chosen mode)))
        | inr l ↦ inl (
            rw (e, push_direct)
              (subst (λ r. Refuses c world args (send_direct r world args destination))
                (sym (client_missing d l))
                (record {
                  reason = no_sdk mode d l;
                  untouched = refl;
                  silent = refl;
                  message = sdk_missing c;
                  error = refl;
                })))
      ]
    ]
  ]

  -- A dispatch either sends nothing, since the connection lacks a destination, the proxy's URL, the
  -- token or the SDK, and rejects with an error of the driver; or it sends one request, to the
  -- destination of the options or else of the configuration, that carries the dispatch and its
  -- delay in whole seconds, and its result is what the network or the SDK answers.
  pub push-cases : Refuses c world args (push c world args) ⊎ Sends c world args (push c world args)
  unfolding push
  push-cases = elim (Option-cases (destination_of c args.options)) [
    | inl e ↦ inl (
        rw (e, push)
          (record {
            reason = no_destination e;
            untouched = refl;
            silent = refl;
            message = _;
            error = refl;
          }))
    | inr (destination, e) ↦ elim (Bool-cases (is_direct c)) [
      | inl m ↦ rw (e, m, push) (direct-cases destination e m)
      | inr m ↦ rw (e, m, push) (proxy-cases destination e m)
    ]
  ]
