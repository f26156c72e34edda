-- ===== src/Tokens.antt =====
-- src/utils/get-queue-token.util.ts and get-queue-connection-token.util.ts: the descriptions of the
-- symbols, by which `Symbol.for` tells them apart.
use text.Mathlib.TextLemmas.{append_cancel_left}
use ts_queue.Manager.{key_of}
use ts_queue.Manager.Keys.{has_colon, key_of-eq}
use ts_queue.Prelude.{String, false, Option, some, or_default, ◌≡◌, ◌↔◌, ◌+++◌}

unfoldable pub get_queue_token : Option String → Option String → String
get_queue_token name connection =
    "QUEUE_" +++ or_default connection "default" +++ ":" +++ or_default name "default"

unfoldable pub get_queue_connection_token : Option String → String
get_queue_connection_token name = "QUEUE_CONNECTION_" +++ or_default name "default"

-- Two pairs of connections without a colon in their names and any queues have the same token exactly
-- if they are the same pair.
pub get_queue_token_iff :
    (queue connection queue' connection' : String)
    → has_colon connection ≡ false
    → has_colon connection' ≡ false
    → (get_queue_token (some queue) (some connection)
        ≡ get_queue_token (some queue') (some connection'))
      ↔ ((connection ≡ connection') × (queue ≡ queue'))
unfolding get_queue_token
get_queue_token_iff q c q' c' h h' = (
  (λ e. key_of-eq c q c' q' h h' (append_cancel_left "QUEUE_" (key_of c q) (key_of c' q') e)),
  λ (e : (c ≡ c') × (q ≡ q')). let (p, r) = e in cc,
)
