-- ===== src/Module/Async.antt =====
-- A manager that is set up by `forRootAsync`.
use ts_queue.Connectors.{Connected}
use ts_queue.Errors.{ok}
use ts_queue.Manager.{
  InstanceManager, QueueManager, ConnectionConfig, ModuleOptions, on_module_init,
}
use ts_queue.Manager.Bound.{IsLawful}
use ts_queue.Module.{validate, built_in_connectors, for_root_async}
use ts_queue.Module.Boot.{IsServing, boot-IsServing}
use ts_queue.Prelude.{String, true, [], none, some, is_some, ◌≡◌, All}
use ts_queue.Prelude.Maps.{lookup}

module _ {I : Type 0} (base : InstanceManager I Connected) (lawful : IsLawful base) where
  -- `forRootAsync` does not validate the options that its factory answers. If they would pass the validation and name
  -- built-in drivers only, the manager serves them like that of `forRoot`.
  pub for_root_async-IsServing :
      (m : QueueManager I Connected) (config : ModuleOptions)
      → validate (some config) ≡ ok tt
      → All
          (λ (e : String × ConnectionConfig).
            is_some (lookup (e.1).driver built_in_connectors) ≡ true)
          config.connections
      → m.connectors ≡ []
      → ((n : String) → base.instance_of m.instances n ≡ none)
      → IsServing base lawful config (on_module_init base (for_root_async base m (some config)))
  unfolding for_root_async
  for_root_async-IsServing m config v drivers fresh idle =
      boot-IsServing base lawful (record m { config = config }) v drivers fresh idle
