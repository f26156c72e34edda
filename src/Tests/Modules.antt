-- ===== src/Tests/Modules.antt =====
-- The theorems on the module's options and providers, on tokens, and on printed numbers.
use ts_queue.Connectors.{Connected}
use ts_queue.Errors.{ok}
use ts_queue.Hooks
use ts_queue.Hooks.{Signal, renders, new, settle, settled}
use ts_queue.Hooks.Stale.{settle-run}
use ts_queue.Manager.{QueueManager, ModuleOptions, on_module_init}
use ts_queue.Manager.Keys.{has_colon}
use ts_queue.Module.{validate, built_in_connectors, build_connector_registrations, for_root}
use ts_queue.Module.Options.{IsUsable, validate_iff}
use ts_queue.Module.Provided.{Resolves, for_root-Resolves}
use ts_queue.Payload.{null, boolean}
use ts_queue.Prelude.{
  ℕ, String, true, List, [], ◌∷◌, none, some, is_some, ◌≡◌, ◌↔◌, refl, All, text_discrete, same,
  ◌==◌, ◌&&◌, if◌then◌else◌,
}
use ts_queue.Prelude.Maps.{lookup}
use ts_queue.Tests.Instances.{listed, listed-IsLawful, nothing_listed, memory_row}
use ts_queue.Tokens.{get_queue_token, get_queue_token_iff}
use ts_queue.UniqueId.{compute_unique_id}
use ts_queue.UniqueId.Hex.{hash_of, compute_unique_id_iff}

abbrev options : ModuleOptions
options = record {
  default = "main";
  connections = ("main", memory_row) ∷ ("inline", record memory_row { driver = "sync" }) ∷ [];
  worker = none;
}

-- A manager before anything is registered.
abbrev new_manager : QueueManager (List (String × Connected)) Connected
new_manager = record {
  config = options;
  connectors = [];
  handles = [];
  instances = [];
  next_number = 0;
}

validate_iff_example : (validate (some options) ≡ ok tt) ↔ IsUsable options
validate_iff_example = validate_iff options

valid : validate (some options) ≡ ok tt
unfolding validate text_discrete
valid = refl

have_drivers :
    All (λ e. is_some (lookup (e.1).driver built_in_connectors) ≡ true) options.connections
unfolding lookup text_discrete
have_drivers = (refl, (refl, tt))

for_root-Resolves_example :
    All
      (Resolves listed options (
        on_module_init listed
          (build_connector_registrations listed new_manager built_in_connectors)))
      (for_root "DEFAULT" options)
for_root-Resolves_example =
    for_root-Resolves listed listed-IsLawful "DEFAULT" new_manager valid have_drivers refl refl
      nothing_listed

get_queue_token_iff_example :
    (get_queue_token (some "mail") (some "main") ≡ get_queue_token (some "main") (some "mail"))
    ↔ ((◌≡◌ {A = String} "main" "mail") × (◌≡◌ {A = String} "mail" "main"))
unfolding has_colon
get_queue_token_iff_example = get_queue_token_iff "mail" "main" "main" "mail" refl refl

compute_unique_id_iff_example :
    (compute_unique_id "mail" null ≡ compute_unique_id "report" (boolean true))
    ↔ (hash_of "mail" null ≡ hash_of "report" (boolean true))
compute_unique_id_iff_example = compute_unique_id_iff "mail" "report" null (boolean true)

-- A hook whose queue changes before the first handle arrives.
abbrev renders_twice : List (Signal String ℕ)
renders_twice = renders "mail" ∷ renders "reports" ∷ []

settle-run_example :
    let h = Hooks.run same new renders_twice in
    settle same 1 (ok 7) h
    ≡ (if is_some h.key && (1 == h.active) then record h { state = settled (ok 7) } else h)
settle-run_example = settle-run same renders_twice 1 (ok 7)
