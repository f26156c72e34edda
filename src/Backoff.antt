-- ===== src/Backoff.antt =====
-- src/utils/compute-backoff.util.ts. Delays are whole milliseconds.
pub mod Laws
use ts_queue.Prelude.{ℕ, ◌-◌, ◌*◌, ◌^◌, min, leb, if◌then◌else◌}

unfoldable pub compute_backoff : ℕ → ℕ → ℕ → ℕ
compute_backoff attempt base_ms max_ms =
    if leb attempt 1 then base_ms else min (base_ms * 2 ^ (attempt - 1)) max_ms
