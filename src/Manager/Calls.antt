-- ===== src/Manager/Calls.antt =====
-- Histories of the manager's calls, each of which runs to its end before the next one begins, and
-- what `queue` hands out along them.
use ts_queue.Errors.{Result}
use ts_queue.Manager.{
  InstanceManager, QueueManager, ConnectionConfig, ModuleOptions, connection, queue, disconnect,
  disconnect_all, on_module_destroy, on_module_init, register_connector, set_default_instance,
}
use ts_queue.Manager.Bound.{
  IsLawful, IsBound, connection-IsBound, queue-IsBound, disconnect-IsBound, disconnect_all_lem,
}
use ts_queue.Manager.Keys.{has_colon}
use ts_queue.Prelude.{
  String, false, List, [], ◌∷◌, Option, none, is_some, ◌≡◌, All, same, Bool-cases, inl, inr,
}
use ts_queue.Prelude.Maps.{lookup}

pub data ManagerCall (C : Type 0) : Type 0 where
  connects : Option String → ManagerCall C
  queues : String → Option String → ManagerCall C
  disconnects : Option String → ManagerCall C
  disconnects_all : ManagerCall C
  inits : ManagerCall C
  destroys : ManagerCall C
  registers : String → (ConnectionConfig → Result C) → ManagerCall C
  sets_default : String → ManagerCall C

-- The connections of the configuration have no colon in their names.
abbrev pub HasPlainNames : ModuleOptions → Type 0
HasPlainNames config = All (λ e. has_colon e.0 ≡ false) config.connections

module _ {I C : Type 0} (base : InstanceManager I C) where
  unfoldable pub step : QueueManager I C → ManagerCall C → QueueManager I C
  unfolding connection queue disconnect disconnect_all on_module_init on_module_destroy
      register_connector set_default_instance
  step m (connects name) = (connection base m name).0
  step m (queues q name) = (queue base m q name).0
  step m (disconnects name) = disconnect base m name
  step m disconnects_all = disconnect_all base m
  step m inits = on_module_init base m
  step m destroys = on_module_destroy base m
  step m (registers driver connector) = register_connector base m driver connector
  step m (sets_default name) = set_default_instance base m name

  unfoldable pub run : QueueManager I C → List (ManagerCall C) → QueueManager I C
  unfolding step
  run m [] = m
  run m (call ∷ calls) = run (step m call) calls

module _ {I C : Type 0} (base : InstanceManager I C) (lawful : IsLawful base) where
  on_module_init-IsBound :
      (m : QueueManager I C) → IsBound base lawful m → IsBound base lawful (on_module_init base m)
  unfolding on_module_init
  on_module_init-IsBound m b = elim (Bool-cases (same m.config.default "")) [
    | inl e ↦ rw (e, on_module_init) b
    | inr e ↦ elim (Bool-cases (is_some (lookup m.config.default m.config.connections))) [
      | inl f ↦ rw (e, f, on_module_init) (connection-IsBound base lawful m none b)
      | inr f ↦ rw (e, f, on_module_init) b
    ]
  ]

  pub step-IsBound :
      (m : QueueManager I C) (call : ManagerCall C)
      → IsBound base lawful m
      → IsBound base lawful (step base m call)
  unfolding step register_connector set_default_instance
  step-IsBound m (connects name) b = connection-IsBound base lawful m name b
  step-IsBound m (queues q name) b = queue-IsBound base lawful m q name b
  step-IsBound m (disconnects name) b = disconnect-IsBound base lawful m name b
  step-IsBound m disconnects_all b = rw (disconnect_all_lem base lawful m b).0 tt
  step-IsBound m inits b = on_module_init-IsBound m b
  step-IsBound m destroys b = tt
  step-IsBound m (registers driver connector) b = b
  step-IsBound m (sets_default name) b = b
