-- ===== src/Tests/Managers.antt =====
-- The theorems on the queue manager and on QStash.
use ts_queue.Errors.{thrown, ok, err}
use ts_queue.Manager.{Handle, QueueManager, key_of, queue, disconnect_all}
use ts_queue.Manager.Bound.{disconnect_all_lem}
use ts_queue.Manager.Calls.{ManagerCall, queues, disconnects, inits, run}
use ts_queue.Manager.Keys.{has_colon}
use ts_queue.Manager.Mixups.{colon_mixup}
use ts_queue.Manager.Names.{queue_lem}
use ts_queue.Manager.Sound.{IsSound, run-IsSound}
use ts_queue.Prelude.{
  ℕ, String, true, false, List, [], ◌∷◌, none, some, ◌≡◌, refl, text_discrete, ◌⊎◌,
}
use ts_queue.Prelude.Maps.{lookup}
use ts_queue.QStash.{QStashConnection, World, push, response}
use ts_queue.QStash.Publish.{Refuses, Sends, push-cases}
use ts_queue.Tests.{again_k}
use ts_queue.Tests.Instances.{listed, listed-IsLawful, nothing_listed, memory_row}

-- Two connections of one driver, and nothing done yet.
abbrev manager : QueueManager (List (String × ℕ)) ℕ
manager = record {
  config = record {
    default = "a";
    connections = ("a", memory_row) ∷ ("b", memory_row) ∷ [];
    worker = none;
  };
  connectors = ("memory", λ config. ok 7) ∷ [];
  handles = [];
  instances = [];
  next_number = 0;
}

abbrev history : List (ManagerCall ℕ)
history = inits ∷ queues "mail" none ∷ queues "mail" (some "b") ∷ disconnects (some "a") ∷ []

run-IsSound_example : IsSound listed listed-IsLawful (run listed manager history)
unfolding has_colon
run-IsSound_example =
    run-IsSound listed listed-IsLawful manager history (refl, (refl, tt)) refl nothing_listed

abbrev bound_manager : QueueManager (List (String × ℕ)) ℕ
bound_manager = run listed manager history

disconnect_all_lem_example :
    ((disconnect_all listed bound_manager).handles ≡ [])
    × ((n : String) → lookup n (disconnect_all listed bound_manager).instances ≡ none)
disconnect_all_lem_example =
    disconnect_all_lem listed listed-IsLawful bound_manager run-IsSound_example.bound

abbrev mail_handle : Handle ℕ
mail_handle = record { number = 0; connection = 7; queue = "mail" }

mail_on_a : (queue listed manager "mail" (some "a")).1 ≡ ok mail_handle
unfolding queue text_discrete
mail_on_a = refl

queue_lem_example :
    let m' = (queue listed manager "mail" (some "a")).0 in
    (mail_handle.queue ≡ "mail")
    × (lookup "a" m'.instances ≡ some mail_handle.connection)
    × (queue listed m' "mail" (some "a") ≡ (m', ok mail_handle))
unfolding has_colon
queue_lem_example =
    queue_lem listed listed-IsLawful manager "mail" "a"
      (record {
        bound = tt;
        declared = (refl, (refl, tt));
        active = λ n c h. absurd (cc (nothing_listed n));
      })
      refl mail_on_a

-- A queue with a colon in its name, on the connection `a`.
abbrev colon_handle : Handle ℕ
colon_handle = record { number = 0; connection = 7; queue = "b:mail" }

colon_on_a : (queue listed manager (key_of "b" "mail") (some "a")).1 ≡ ok colon_handle
unfolding queue text_discrete
colon_on_a = refl

colon_mixup_example :
    let m' = (queue listed manager (key_of "b" "mail") (some "a")).0 in
    queue listed m' "mail" (some (key_of "a" "b")) ≡ (m', ok colon_handle)
colon_mixup_example = colon_mixup listed manager "a" "b" "mail" colon_on_a

-- A connection to QStash through a proxy.
abbrev proxied : QStashConnection
proxied = record {
  name = "qstash";
  config = record {
    mode = none;
    token = none;
    proxy_url = some "/api/queue";
    default_destination = some "https://example.com/jobs";
    base_url = none;
  };
  direct_client = false;
}

abbrev network : World
network = record {
  reply = response true 200 "" (ok (some "msg", none));
  sdk_loads = false;
  published = err (thrown "no SDK");
}

push-cases_example :
    Refuses proxied network again_k (push proxied network again_k)
    ⊎ Sends proxied network again_k (push proxied network again_k)
push-cases_example = push-cases proxied network again_k
