-- ===== src/Manager/Bound.antt =====
-- Every cached handle is bound to a connection that is active.
use text.Mathlib.Text.{starts_with}
use ts_queue.Base.{has}
use ts_queue.Errors.{Result, ok, err}
use ts_queue.Manager.{
  InstanceManager, Handle, QueueManager, key_of, make, connection, cached, after_connection, queue,
  disconnect, disconnect_each, disconnect_all,
}
use ts_queue.Manager.Keys.{starts_with-key_of}
use ts_queue.Prelude.{
  String, true, false, not, List, [], ◌∷◌, Option, none, some, or_default, is_some, ◌≡◌, refl, sym,
  ◌∙◌, subst, ap, arith, All, All-imp, keep, same, Bool-cases, Option-cases, inl, inr,
  if◌then◌else◌, ◌+++◌,
}
use ts_queue.Prelude.Maps.{All-insert}

-- Lazy resolution and caching, as the base class documents them: a name that has an instance keeps
-- it, another one gets what `make` answers, and an error leaves no instance behind.
module _ {C : Type 0} where
  abbrev pub resolved : Option C → Result C → Option C
  resolved (some c) r = some c
  resolved none (ok c) = some c
  resolved none (err e) = none

  abbrev pub answer : Option C → Result C → Result C
  answer (some c) r = ok c
  answer none r = r

pub record IsLawful {I : Type 0} {C : Type 0} (base : InstanceManager I C) : Type 0 where
  pub async_instance :
      (f : String → Result C) (i : I) (n m : String)
      → base.instance_of (base.instance_async f i n).0 m
        ≡ (if same n m then resolved (base.instance_of i n) (f n) else base.instance_of i m)
  pub async_answer :
      (f : String → Result C) (i : I) (n : String)
      → (base.instance_async f i n).1 ≡ answer (base.instance_of i n) (f n)
  pub forgotten :
      (i : I) (n m : String)
      → base.instance_of (base.forget_instance i n) m
        ≡ (if same n m then none else base.instance_of i m)
  pub all_resolved :
      (i : I) (n : String) → has n (base.get_resolved_instances i) ≡ is_some (base.instance_of i n)
  pub purged : (i : I) (n : String) → base.instance_of (base.purge i) n ≡ none

module _ {I C : Type 0} (base : InstanceManager I C) (lawful : IsLawful base) where
  -- The entry of a handle whose connection is the active one of the name in its key.
  abbrev pub IsActive : I → String × Handle C → Type 0
  IsActive i (k, h) =
      (n : String) × (k ≡ key_of n h.queue) × (base.instance_of i n ≡ some h.connection)

  abbrev pub IsBound : QueueManager I C → Type 0
  IsBound m = All (IsActive m.instances) m.handles

  -- What has an instance keeps it.
  grows :
      (f : String → Result C) (i : I) (n : String) (e : String × Handle C)
      → IsActive i e
      → IsActive (base.instance_async f i n).0 e
  grows f i n e (name, k, a) = (name, k, ground (arith, lawful.async_instance f i n name))

  pub connection-IsBound :
      (m : QueueManager I C) (name : Option String) → IsBound m → IsBound (connection base m name).0
  unfolding connection
  connection-IsBound m name b =
      All-imp (grows (make base m) m.instances (or_default name m.config.default)) m.handles b

  -- A connection that was handed out is active.
  pub connection_active :
      (m : QueueManager I C) (name : String) {c : C}
      → (connection base m (some name)).1 ≡ ok c
      → base.instance_of (connection base m (some name)).0.instances name ≡ some c
  unfolding connection
  connection_active m name h = elim (Option-cases (base.instance_of m.instances name)) [
    | inl e ↦ ground (
      arith,
      lawful.async_answer (make base m) m.instances name,
      lawful.async_instance (make base m) m.instances name name,
    )
    | inr (c, e) ↦ ground (
      arith,
      lawful.async_answer (make base m) m.instances name,
      lawful.async_instance (make base m) m.instances name name,
    )
  ]

  pub queue-IsBound :
      (m : QueueManager I C) (q : String) (name : Option String)
      → IsBound m
      → IsBound (queue base m q name).0
  unfolding queue
  queue-IsBound m q name b = elim (Option-cases (cached base m n q)) [
    | inr (h, e) ↦ rw (e, queue) b
    | inl e ↦ rw (e, queue) (after (connection base m (some n)) refl)
  ]
    where
      n : String
      n = or_default name m.config.default

      after :
          (r : QueueManager I C × Result C)
          → connection base m (some n) ≡ r
          → IsBound (after_connection base n q r).0
      after (m', err e) p =
          subst (λ (r : QueueManager I C × Result C). IsBound r.0) p
            (connection-IsBound m (some n) b)
      after (m', ok c) p =
          let active =
            subst (λ (r : QueueManager I C × Result C). base.instance_of r.0.instances n ≡ some c) p
              (connection_active m n (ap (λ (r : QueueManager I C × Result C). r.1) p)) in
          let bound =
            subst (λ (r : QueueManager I C × Result C). IsBound r.0) p
              (connection-IsBound m (some n) b) in
          All-insert (IsActive m'.instances) (key_of n q) _ m'.handles (n, refl, active) bound

  -- `disconnect` forgets one instance and the handles under its prefix.
  kept :
      (i : I) (n : String) (handles : List (String × Handle C))
      → All (IsActive i) handles
      → All
          (IsActive (base.forget_instance i n))
          (keep (λ e. not (starts_with e.0 (n +++ ":"))) handles)
  kept i n [] b = tt
  kept i n ((k, h) ∷ handles) b = elim (Bool-cases (starts_with k (n +++ ":"))) [
    | inl e ↦ rw e (kept i n handles b.1)
    | inr e ↦
        let (name, key, active) = b.0 in
        let other : same n name ≡ false = elim (Bool-cases (same n name)) [
          | inr d ↦ d
          | inl d ↦
              let p : n ≡ name = ground arith in
              let q : starts_with k (n +++ ":") ≡ true =
                subst (λ s. starts_with s (n +++ ":") ≡ true)
                  (subst (λ x. key_of n h.queue ≡ key_of x h.queue) p refl ∙ sym key)
                  (starts_with-key_of n h.queue) in
              absurd (cc)
        ] in
        rw e ((name, key, ground (arith, lawful.forgotten i n name)), kept i n handles b.1)
  ]

  pub disconnect-IsBound :
      (m : QueueManager I C) (name : Option String) → IsBound m → IsBound (disconnect base m name)
  unfolding disconnect
  disconnect-IsBound m name b = elim (Bool-cases (is_some (base.instance_of m.instances n))) [
    | inl e ↦ rw (e, disconnect) (kept m.instances n m.handles b)
    | inr e ↦ rw (e, disconnect) b
  ]
    where
      n : String
      n = or_default name m.config.default

  disconnect_each-IsBound :
      (m : QueueManager I C) (ns : List String) → IsBound m → IsBound (disconnect_each base m ns)
  unfolding disconnect_each
  disconnect_each-IsBound m [] b = b
  disconnect_each-IsBound m (n ∷ ns) b =
      disconnect_each-IsBound (disconnect base m (some n)) ns (disconnect-IsBound m (some n) b)

  -- The instances that are left.
  pub disconnect-instance_of :
      (m : QueueManager I C) (n k : String)
      → base.instance_of (disconnect base m (some n)).instances k
        ≡ (if same n k then none else base.instance_of m.instances k)
  unfolding disconnect
  disconnect-instance_of m n k = elim (Option-cases (base.instance_of m.instances n)) [
    | inl e ↦ rw (e, disconnect) (ground (arith, e))
    | inr (c, e) ↦ rw (e, disconnect) (lawful.forgotten m.instances n k)
  ]

  disconnect_each-instance_of :
      (m : QueueManager I C) (ns : List String) (k : String)
      → base.instance_of (disconnect_each base m ns).instances k
        ≡ (if has k ns then none else base.instance_of m.instances k)
  unfolding disconnect_each has
  disconnect_each-instance_of m [] k = refl
  disconnect_each-instance_of m (n ∷ ns) k = ground (
    arith,
    disconnect_each-instance_of (disconnect base m (some n)) ns k,
    disconnect-instance_of m n k,
  )

  -- With no active connection left there is no bound handle.
  no_handles :
      (i : I) (handles : List (String × Handle C))
      → ((n : String) → base.instance_of i n ≡ none)
      → All (IsActive i) handles
      → handles ≡ []
  no_handles i [] idle b = refl
  no_handles i ((k, h) ∷ handles) idle b = let (name, key, active) = b.0 in absurd (cc (idle name))

  -- From a manager whose cached handles are bound to active connections, `disconnectAll` leaves no
  -- active connection and no cached handle.
  pub disconnect_all_lem :
      (m : QueueManager I C)
      → IsBound m
      → ((disconnect_all base m).handles ≡ [])
        × ((n : String) → base.instance_of (disconnect_all base m).instances n ≡ none)
  unfolding disconnect_all
  disconnect_all_lem m b =
      let names = base.get_resolved_instances m.instances in
      let m' = disconnect_each base m names in
      let idle : (n : String) → base.instance_of m'.instances n ≡ none = λ n.
        ground (arith, disconnect_each-instance_of m names n, lawful.all_resolved m.instances n) in
      (
        no_handles m'.instances m'.handles idle (disconnect_each-IsBound m names b),
        λ n. lawful.purged m'.instances n,
      )
