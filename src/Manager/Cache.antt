-- ===== src/Manager/Cache.antt =====
-- `queue` on a cached pair and on another one.
use ts_queue.Errors.{ok}
use ts_queue.Manager.{
  InstanceManager, Handle, QueueManager, key_of, connection, cached, keep_handle, after_connection,
  queue,
}
use ts_queue.Prelude.{String, none, some, ◌≡◌, refl, arith}
use ts_queue.Prelude.Maps.{lookup-insert}

module _ {I C : Type 0} (base : InstanceManager I C) where
  -- A cached handle is handed out as it is.
  pub again :
      (m : QueueManager I C) (n q : String) {h : Handle C}
      → cached base m n q ≡ some h
      → queue base m q (some n) ≡ (m, ok h)
  unfolding queue
  again m n q e = rw (e, queue) refl

  pub keep-cached :
      (m : QueueManager I C) (n q : String) (c : C)
      → cached base (keep_handle base m n q c).0 n q ≡ some (keep_handle base m n q c).1
  unfolding cached keep_handle
  keep-cached m n q c =
      ground (arith, lookup-insert (key_of n q) (key_of n q) (keep_handle base m n q c).1 m.handles)

  pub missed :
      (m : QueueManager I C) (n q : String)
      → cached base m n q ≡ none
      → queue base m q (some n) ≡ after_connection base n q (connection base m (some n))
  unfolding queue
  missed m n q e = rw (e, queue) refl
