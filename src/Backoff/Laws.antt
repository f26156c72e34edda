-- ===== src/Backoff/Laws.antt =====
-- The retry delays grow, stay under the cap from the first retry on, and then stay at the cap.
use ts_queue.Backoff.{compute_backoff}
use ts_queue.Prelude.{ℕ, zero, suc, ◌-◌, ◌*◌, ◌^◌, ◌≤◌, ◌<◌, min, ◌≡◌, arith}
use native.Mathlib.Nat.{pow-suc}

-- Doubling once more.
double : (base n : ℕ) → base * 2 ^ suc n ≡ 2 * (base * 2 ^ n)
double base n = rw pow-suc (grind arith)

pow_pos : (n : ℕ) → 1 ≤ 2 ^ n
pow_pos zero = omega arith
pow_pos (suc n) = rw pow-suc (omega (arith, pow_pos n))

lt_pow : (n : ℕ) → n < 2 ^ n
lt_pow zero = omega arith
lt_pow (suc n) = rw pow-suc (omega (arith, lt_pow n))

-- The closed form at a retry.
retry_delay :
    (n base_ms max_ms : ℕ)
    → compute_backoff (suc (suc n)) base_ms max_ms ≡ min (base_ms * 2 ^ suc n) max_ms
unfolding compute_backoff
retry_delay n base_ms max_ms = let e : suc (suc n) - 1 ≡ suc n = omega arith in rw e (ground arith)

-- From the first attempt on, one more attempt doubles the delay, up to the cap.
pub backoff_doubles :
    (attempt base_ms max_ms : ℕ)
    → 1 ≤ attempt
    → compute_backoff (suc attempt) base_ms max_ms
      ≡ min (2 * compute_backoff attempt base_ms max_ms) max_ms
unfolding compute_backoff
backoff_doubles zero base_ms max_ms h = absurd (omega arith)
backoff_doubles (suc zero) base_ms max_ms h = ground arith
backoff_doubles (suc (suc n)) base_ms max_ms h = omega (
  arith,
  retry_delay (suc n) base_ms max_ms,
  retry_delay n base_ms max_ms,
  double base_ms (suc n),
)

-- A delay for a retry (attempt 2 and up) is never over the cap.
pub backoff-le_max :
    (attempt base_ms max_ms : ℕ) → 2 ≤ attempt → compute_backoff attempt base_ms max_ms ≤ max_ms
unfolding compute_backoff
backoff-le_max attempt base_ms max_ms h = ground arith

past_cap :
    (n base_ms max_ms : ℕ) → 1 ≤ base_ms → max_ms < suc (suc n) → max_ms ≤ base_ms * 2 ^ suc n
past_cap n base_ms max_ms hb h = grind (arith, lt_pow (suc n))

-- With a positive base the delay is the cap from some attempt on: here, once the attempt number
-- exceeds the cap.
pub backoff_saturates :
    (attempt base_ms max_ms : ℕ)
    → 1 ≤ base_ms
    → max_ms < attempt
    → 2 ≤ attempt
    → compute_backoff attempt base_ms max_ms ≡ max_ms
backoff_saturates zero base_ms max_ms hb h h2 = absurd (omega arith)
backoff_saturates (suc zero) base_ms max_ms hb h h2 = absurd (omega arith)
backoff_saturates (suc (suc n)) base_ms max_ms hb h h2 =
    omega (arith, retry_delay n base_ms max_ms, past_cap n base_ms max_ms hb h)
