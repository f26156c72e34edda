-- ===== src/Loader/Collect.antt =====
-- `collectProviderInstances` and `onApplicationBootstrap`: which instances of the application the loader looks at.
use ts_queue.Errors.{Result, ok, err}
use ts_queue.Loader.{LoaderState, Provider, Target, Emitter, bootstrap}
use ts_queue.Prelude.{String, Bool, List, [], ◌∷◌, ◌++◌, Option, none, some, if◌then◌else◌}

-- An entry of a module's providers.
pub record Wrapper : Type 0 where
  pub instance_of : Option Provider
  pub is_alias : Bool

unfoldable pub instances : List Wrapper → List Provider
instances [] = []
instances (w ∷ ws) =
    let rest = instances ws in
    elim w.instance_of [ none ↦ rest | some p ↦ if w.is_alias then rest else p ∷ rest ]

unfoldable pub of_modules : List (List Wrapper) → List Provider
unfolding instances
of_modules [] = []
of_modules (m ∷ ms) = instances m ++ of_modules ms

-- The modules of the global application, if there is one; an error on the way to them is logged.
unfoldable pub collect_provider_instances :
    Result (Option (List (List Wrapper))) → Option (List Provider)
unfolding of_modules
collect_provider_instances (ok none) = none
collect_provider_instances (ok (some modules)) = some (of_modules modules)
collect_provider_instances (err e) = none

module _ {E : Type 0} (emitter : Emitter E) where
  unfoldable pub on_application_bootstrap :
      (String → Result Target)
      → String
      → LoaderState E
      → Result (Option (List (List Wrapper)))
      → LoaderState E × Result (Unit {0})
  unfolding bootstrap collect_provider_instances
  on_application_bootstrap connect default_name s app = elim (collect_provider_instances app) [
    | none ↦ (s, ok tt)
    | some providers ↦ bootstrap emitter connect default_name s providers
  ]
