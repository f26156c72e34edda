-- ===== src/Manager/Mixups.antt =====
-- Where the handle cache does not keep to one handle for each pair.
use ts_queue.Errors.{Result, ok, err}
use ts_queue.Manager.{
  InstanceManager, Handle, QueueManager, key_of, connection, cached, keep_handle, after_connection,
  queue,
}
use ts_queue.Manager.Keys.{key_of_moved}
use ts_queue.Manager.Cache.{again, missed, keep-cached}
use ts_queue.Prelude.Maps.{lookup}
use ts_queue.Prelude.{String, some, ◌≡◌, ◌≢◌, sym, ◌∙◌, subst, arith, Option-cases, inl, inr}

module _ {I C : Type 0} (base : InstanceManager I C) where
  -- What `queue` handed out is in the cache.
  after-cached :
      (r : QueueManager I C × Result C) (n q : String) {h : Handle C}
      → (after_connection base n q r).1 ≡ ok h
      → cached base (after_connection base n q r).0 n q ≡ some h
  after-cached (m, err e) n q g = absurd (cc)
  after-cached (m, ok c) n q g = keep-cached base m n q c ∙ cc

  queue-cached :
      (m : QueueManager I C) (q n : String) {h : Handle C}
      → (queue base m q (some n)).1 ≡ ok h
      → cached base (queue base m q (some n)).0 n q ≡ some h
  queue-cached m q n {h} e = elim (Option-cases (cached base m n q)) [
    | inr (k, f) ↦
        let p = again base m n q f in
        subst
          (λ (r : QueueManager I C × Result (Handle C)). r.1 ≡ ok h → cached base r.0 n q ≡ some h)
          (sym p) (λ (g : ok k ≡ ok h). f ∙ cc) e
    | inl f ↦
        subst
          (λ (r : QueueManager I C × Result (Handle C)). r.1 ≡ ok h → cached base r.0 n q ≡ some h)
          (sym (missed base m n q f)) (after-cached (connection base m (some n)) n q) e
  ]

  moved :
      (m : QueueManager I C) (a b c : String) {h : Handle C}
      → cached base m a (key_of b c) ≡ some h
      → cached base m (key_of a b) c ≡ some h
  unfolding cached
  moved m a b c {h} f = subst (λ k. lookup k m.handles ≡ some h) (sym (key_of_moved a b c)) f

  -- Once a handle of the queue `b:c` was handed out on the connection `a`, the queue `c` of a
  -- connection `a:b` gets that handle, whether or not there is such a connection.
  pub colon_mixup :
      (m : QueueManager I C) (a b c : String) {h : Handle C}
      → (queue base m (key_of b c) (some a)).1 ≡ ok h
      → let m' = (queue base m (key_of b c) (some a)).0 in
        queue base m' c (some (key_of a b)) ≡ (m', ok h)
  colon_mixup m a b c {h} e =
      let m' = (queue base m (key_of b c) (some a)).0 in
      again base m' (key_of a b) c (moved m' a b c (queue-cached m (key_of b c) a e))

  -- If two calls of `queue` for one pair both wait for the connection before either writes to the
  -- cache, they hand out two different handles, and the cache keeps the later one.
  pub overlapping_queues :
      (m : QueueManager I C) (n q : String) (c d : C)
      → let (m', first) = keep_handle base m n q c in
        let (m'', second) = keep_handle base m' n q d in
        (first.number ≢ second.number) × (cached base m'' n q ≡ some second)
  unfolding keep_handle
  overlapping_queues m n q c d =
      ((λ e. absurd (omega (arith, e))), keep-cached base (keep_handle base m n q c).0 n q d)
