-- ===== src/Handle.antt =====
-- src/services/queue-handle.service.ts: one queue of one connection. The connection is the part of
-- the driver interface that a handle calls.
pub mod Isolation
use ts_queue.Base
use ts_queue.Job.{Dispatch}
use ts_queue.Memory
use ts_queue.Memory.{MemoryConnection}
use ts_queue.Prelude.{ℕ, String, Bool, List, some, map}

pub record Connection {ℓ} (S : Type ℓ) : Type ℓ where
  pub push : S → Dispatch → S × String
  pub later : ℕ → S → Dispatch → S × String
  pub bulk : S → List Dispatch → S × List String
  pub size : S → String → ℕ
  pub pending_size : S → String → ℕ
  pub delayed_size : S → String → ℕ
  pub reserved_size : S → String → ℕ
  pub clear : S → String → S
  pub pause : S → String → S
  pub resume : S → String → S
  pub is_paused : S → String → Bool

-- The memory driver, with what it inherits.
abbrev pub memory : Connection MemoryConnection
memory = record {
  push = Memory.push;
  later = Base.later Memory.push;
  bulk = Base.bulk Memory.push;
  size = Memory.size;
  pending_size = Memory.pending_size;
  delayed_size = Memory.delayed_size;
  reserved_size = Memory.reserved_size;
  clear = Memory.clear;
  pause = Memory.pause;
  resume = Memory.resume;
  is_paused = Memory.is_paused;
}

-- `{ ...options, queue: this.queue }`
abbrev pub on_queue : String → Dispatch → Dispatch
on_queue queue args = record args { options = record (args.options) { queue = some queue } }

module _ {ℓ} {S : Type ℓ} (connection : Connection S) (queue : String) where
  unfoldable pub push : S → Dispatch → S × String
  push s args = connection.push s (on_queue queue args)

  unfoldable pub later : ℕ → S → Dispatch → S × String
  later delay_ms s args = connection.later delay_ms s (on_queue queue args)

  unfoldable pub bulk : S → List Dispatch → S × List String
  bulk s jobs = connection.bulk s (map (on_queue queue) jobs)

  unfoldable pub size : S → ℕ
  size s = connection.size s queue

  unfoldable pub pending_size : S → ℕ
  pending_size s = connection.pending_size s queue

  unfoldable pub delayed_size : S → ℕ
  delayed_size s = connection.delayed_size s queue

  unfoldable pub reserved_size : S → ℕ
  reserved_size s = connection.reserved_size s queue

  unfoldable pub clear : S → S
  clear s = connection.clear s queue

  unfoldable pub pause : S → S
  pause s = connection.pause s queue

  unfoldable pub resume : S → S
  resume s = connection.resume s queue

  unfoldable pub is_paused : S → Bool
  is_paused s = connection.is_paused s queue
