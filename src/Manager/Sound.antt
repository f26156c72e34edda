-- ===== src/Manager/Sound.antt =====
-- Histories of the manager's calls keep the handles bound and the names plain.
use ts_queue.Errors.{Result, ok, err}
use ts_queue.Manager.{
  InstanceManager, QueueManager, ConnectionConfig, make, connection, cached, after_connection,
  queue, disconnect, disconnect_each, disconnect_all, on_module_destroy, on_module_init,
  register_connector, set_default_instance, get_instance_config,
}
use ts_queue.Manager.Bound.{
  IsLawful, IsBound, connection-IsBound, queue-IsBound, disconnect-IsBound, disconnect_all_lem,
  disconnect-instance_of, resolved,
}
use ts_queue.Manager.Calls.{
  ManagerCall, connects, queues, disconnects, disconnects_all, inits, destroys, registers,
  sets_default, HasPlainNames, step, run,
}
use ts_queue.Manager.Keys.{has_colon}
use ts_queue.Prelude.{
  String, false, List, [], ◌∷◌, Option, none, some, or_default, is_some, ◌≡◌, refl, subst, arith,
  same, Bool-cases, Option-cases, inl, inr,
}
use ts_queue.Prelude.Maps.{lookup, All-lookup}

module _ {I C : Type 0} (base : InstanceManager I C) (lawful : IsLawful base) where
  -- Handles are bound, and active connections and those of the configuration have plain names.
  pub record IsSound (m : QueueManager I C) : Type 0 where
    pub bound : IsBound base lawful m
    pub declared : HasPlainNames m.config
    pub active :
        (n : String) (c : C) → base.instance_of m.instances n ≡ some c → has_colon n ≡ false

  made_plain :
      (m : QueueManager I C) (n : String) {c : C}
      → HasPlainNames m.config
      → make base m n ≡ ok c
      → has_colon n ≡ false
  unfolding make get_instance_config
  made_plain m n d h = elim (Option-cases (lookup n m.config.connections)) [
    | inl e ↦ absurd (ground (arith, e))
    | inr (raw, e) ↦
        All-lookup (λ (x : String × ConnectionConfig). has_colon x.0 ≡ false) n m.config.connections
          d e
  ]

  connection-IsSound :
      (m : QueueManager I C) (name : Option String) → IsSound m → IsSound (connection base m name).0
  unfolding connection
  connection-IsSound m name s = record {
    bound = connection-IsBound base lawful m name s.bound;
    declared = s.declared;
    active = λ k c h. elim (Bool-cases (same n k)) [
      | inr e ↦ s.active k c (ground (arith, lawful.async_instance (make base m) m.instances n k))
      | inl e ↦
          let p : n ≡ k = ground arith in
          subst (λ x. has_colon x ≡ false) p
            (first c (ground (arith, lawful.async_instance (make base m) m.instances n k)))
    ];
  }
    where
      n : String
      n = or_default name m.config.default

      first :
          (c : C)
          → resolved (base.instance_of m.instances n) (make base m n) ≡ some c
          → has_colon n ≡ false
      first c h = elim (Option-cases (base.instance_of m.instances n)) [
        | inr (d, e) ↦ s.active n d e
        | inl e ↦ made_plain m n {c = c} s.declared (new (make base m n) refl (rw e at h))
      ]
        where
          new : (r : Result C) → make base m n ≡ r → resolved none r ≡ some c → make base m n ≡ ok c
          new (ok d) q g = cc
          new (err x) q g = absurd (cc)

  queue-IsSound :
      (m : QueueManager I C) (q : String) (name : Option String)
      → IsSound m
      → IsSound (queue base m q name).0
  unfolding queue
  queue-IsSound m q name s = elim (Option-cases (cached base m n q)) [
    | inr (h, e) ↦ rw (e, queue) s
    | inl e ↦ record {
      bound = queue-IsBound base lawful m q name s.bound;
      declared =
          rw (e, queue) (after (connection base m (some n)) (connection-IsSound m (some n) s)).0;
      active =
          rw (e, queue) (after (connection base m (some n)) (connection-IsSound m (some n) s)).1;
    }
  ]
    where
      n : String
      n = or_default name m.config.default

      after :
          (r : QueueManager I C × Result C)
          → IsSound r.0
          → HasPlainNames (after_connection base n q r).0.config
            × ((k : String) (c : C)
                → base.instance_of (after_connection base n q r).0.instances k ≡ some c
                → has_colon k ≡ false)
      after (m', ok c) t = (t.declared, t.active)
      after (m', err e) t = (t.declared, t.active)

  disconnect-IsSound :
      (m : QueueManager I C) (name : Option String) → IsSound m → IsSound (disconnect base m name)
  unfolding disconnect
  disconnect-IsSound m name s = record {
    bound = disconnect-IsBound base lawful m name s.bound;
    declared = elim (Bool-cases (is_some (base.instance_of m.instances n))) [
      | inl e ↦ rw (e, disconnect) s.declared
      | inr e ↦ rw (e, disconnect) s.declared
    ];
    active = λ k c h. s.active k c (ground (arith, disconnect-instance_of base lawful m n k));
  }
    where
      n : String
      n = or_default name m.config.default

  disconnect_each-IsSound :
      (m : QueueManager I C) (ns : List String) → IsSound m → IsSound (disconnect_each base m ns)
  unfolding disconnect_each
  disconnect_each-IsSound m [] s = s
  disconnect_each-IsSound m (n ∷ ns) s =
      disconnect_each-IsSound (disconnect base m (some n)) ns (disconnect-IsSound m (some n) s)

  disconnect_all-IsSound : (m : QueueManager I C) → IsSound m → IsSound (disconnect_all base m)
  unfolding disconnect_all
  disconnect_all-IsSound m s =
      let s' = disconnect_each-IsSound m (base.get_resolved_instances m.instances) s in
      let (empty, idle) = disconnect_all_lem base lawful m s.bound in
      record { bound = rw empty tt; declared = s'.declared; active = λ k c h. absurd (cc (idle k)) }

  on_module_init-IsSound : (m : QueueManager I C) → IsSound m → IsSound (on_module_init base m)
  unfolding on_module_init
  on_module_init-IsSound m s = elim (Bool-cases (same m.config.default "")) [
    | inl e ↦ rw (e, on_module_init) s
    | inr e ↦ elim (Bool-cases (is_some (lookup m.config.default m.config.connections))) [
      | inl f ↦ rw (e, f, on_module_init) (connection-IsSound m none s)
      | inr f ↦ rw (e, f, on_module_init) s
    ]
  ]

  on_module_destroy-IsSound :
      (m : QueueManager I C) → IsSound m → IsSound (on_module_destroy base m)
  unfolding on_module_destroy
  on_module_destroy-IsSound m s =
      let s' = disconnect_all-IsSound m s in
      record { bound = tt; declared = s'.declared; active = s'.active }

  step-IsSound :
      (m : QueueManager I C) (call : ManagerCall C) → IsSound m → IsSound (step base m call)
  unfolding step register_connector set_default_instance
  step-IsSound m (connects name) s = connection-IsSound m name s
  step-IsSound m (queues q name) s = queue-IsSound m q name s
  step-IsSound m (disconnects name) s = disconnect-IsSound m name s
  step-IsSound m disconnects_all s = disconnect_all-IsSound m s
  step-IsSound m inits s = on_module_init-IsSound m s
  step-IsSound m destroys s = on_module_destroy-IsSound m s
  step-IsSound m (registers driver connector) s = record {
    bound = s.bound;
    declared = s.declared;
    active = s.active;
  }
  step-IsSound m (sets_default name) s = record {
    bound = s.bound;
    declared = s.declared;
    active = s.active;
  }

  run-IsSound_from :
      (m : QueueManager I C) (calls : List (ManagerCall C)) → IsSound m → IsSound (run base m calls)
  unfolding run
  run-IsSound_from m [] s = s
  run-IsSound_from m (call ∷ calls) s =
      run-IsSound_from (step base m call) calls (step-IsSound m call s)

  -- After every history of calls, which run one after the other and each to its end before the next
  -- one begins, of a manager that starts with no handle and no active connection,
  -- and whose configuration has no colon in a connection's name: each cached handle is bound to the
  -- active connection of the name in its key, and no active connection has a colon in its name.
  pub run-IsSound :
      (m : QueueManager I C) (calls : List (ManagerCall C))
      → HasPlainNames m.config
      → m.handles ≡ []
      → ((n : String) → base.instance_of m.instances n ≡ none)
      → IsSound (run base m calls)
  run-IsSound m calls d e idle =
      run-IsSound_from m calls
        (record { bound = rw e tt; declared = d; active = λ n c h. absurd (cc (idle n)) })
