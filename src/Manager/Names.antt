-- ===== src/Manager/Names.antt =====
-- `queue` hands out the handle that was asked for, if no connection has a colon in its name.
use ts_queue.Errors.{Result, ok, err}
use ts_queue.Manager.{
  InstanceManager, Handle, QueueManager, key_of, connection, cached, keep_handle, after_connection,
  queue,
}
use ts_queue.Manager.Bound.{IsLawful, IsActive, connection_active}
use ts_queue.Manager.Cache.{again, missed, keep-cached}
use ts_queue.Manager.Keys.{has_colon, key_of-eq}
use ts_queue.Prelude.{String, false, some, ◌≡◌, refl, sym, ◌∙◌, ap, subst, Option-cases, inl, inr}
use ts_queue.Prelude.Maps.{All-lookup}
use ts_queue.Manager.Sound.{IsSound}

module _ {I C : Type 0} (base : InstanceManager I C) (lawful : IsLawful base) where
  -- The entry under a key is the handle of that queue on that connection.
  cached-Handle :
      (m : QueueManager I C) (n q : String) {h : Handle C}
      → IsSound base lawful m
      → has_colon n ≡ false
      → cached base m n q ≡ some h
      → (h.queue ≡ q) × (base.instance_of m.instances n ≡ some h.connection)
  unfolding cached
  cached-Handle m n q {h} s plain e =
      let (n', key, active) =
        All-lookup (IsActive base lawful m.instances) (key_of n q) m.handles s.bound e in
      let (p, p') = key_of-eq n q n' h.queue plain (s.active n' h.connection active) key in
      (sym p', rw p active)

  abbrev IsServed : String → String → Handle C → QueueManager I C → Type 0
  IsServed q n h m =
      (h.queue ≡ q)
      × (base.instance_of m.instances n ≡ some h.connection)
      × (queue base m q (some n) ≡ (m, ok h))

  fresh :
      (m : QueueManager I C) (n q : String) (r : QueueManager I C × Result C) {h : Handle C}
      → connection base m (some n) ≡ r
      → (after_connection base n q r).1 ≡ ok h
      → IsServed q n h (after_connection base n q r).0
  unfolding keep_handle
  fresh m n q (m', err x) p g = absurd (cc)
  fresh m n q (m', ok c) {h} p g =
      let same_handle : (keep_handle base m' n q c).1 ≡ h = cc in
      let active =
        subst (λ (r : QueueManager I C × Result C). base.instance_of r.0.instances n ≡ some c) p
          (connection_active base lawful m n (ap (λ (r : QueueManager I C × Result C). r.1) p)) in
      (
        sym (ap (λ (k : Handle C). k.queue) same_handle),
        active ∙ ap (λ (k : Handle C). some k.connection) same_handle,
        again base (keep_handle base m' n q c).0 n q
            (keep-cached base m' n q c ∙ ap some same_handle),
      )

  -- On a manager that is sound in the sense of `run-IsSound`, `queue` for a connection without a
  -- colon in its name, if it succeeds, hands out a handle of the queue that was asked for on the
  -- connection that is then active under the name, and asking again hands out the same handle and
  -- changes nothing.
  pub queue_lem :
      (m : QueueManager I C) (q n : String) {h : Handle C}
      → IsSound base lawful m
      → has_colon n ≡ false
      → (queue base m q (some n)).1 ≡ ok h
      → let m' = (queue base m q (some n)).0 in
        (h.queue ≡ q)
        × (base.instance_of m'.instances n ≡ some h.connection)
        × (queue base m' q (some n) ≡ (m', ok h))
  queue_lem m q n {h} s plain e = elim (Option-cases (cached base m n q)) [
    | inr (k, f) ↦
        let p : k ≡ h =
          cc (ap (λ (r : QueueManager I C × Result (Handle C)). r.1) (again base m n q f)) in
        let (a, b) = cached-Handle m n q {h = h} s plain (rw (← p) f) in
        subst (IsServed q n h)
          (sym (ap (λ (r : QueueManager I C × Result (Handle C)). r.0) (again base m n q f)))
          (a, b, again base m n q (rw (← p) f))
    | inl f ↦
        let r = connection base m (some n) in
        subst (IsServed q n h)
          (sym (ap (λ (r : QueueManager I C × Result (Handle C)). r.0) (missed base m n q f)))
          (fresh m n q r refl (
            sym (ap (λ (r : QueueManager I C × Result (Handle C)). r.1) (missed base m n q f)) ∙ e))
  ]
