-- ===== src/Null.antt =====
-- src/connections/null.connection.ts: nothing is stored, and the pause flags of the base
-- connection have no effect.
use ts_queue.Job.{Job, Dispatch}
use ts_queue.Prelude.{ℕ, String, List, Option, none}

pub record NullConnection : Type 0 where
  pub name : String
  pub paused_queues : List String

unfoldable pub push : NullConnection → Dispatch → NullConnection × String
push c args = (c, args.fresh_id)

unfoldable pub pop : NullConnection → String → ℕ → NullConnection × Option Job
pop c queue now = (c, none)

-- `size`, `pendingSize`, `delayedSize` and `reservedSize`.
unfoldable pub size : NullConnection → String → ℕ
size c queue = 0

-- `remove`, `release`, `fail`, `clear` and `close`.
unfoldable pub nothing : NullConnection → NullConnection
nothing c = c
