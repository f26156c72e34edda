-- ===== src/Errors/Messages.antt =====
-- The numbers in the messages of errors.
use ts_queue.Errors.{decimal}
use ts_queue.Prelude.{ℕ, zero, suc, ◌^◌, ◌<◌, ◌≡◌, arith}
use ts_queue.Prelude.Numerals.{read_from, read-numeral, ten-IsBase}

below_power : (n : ℕ) → n < 10 ^ suc n
below_power zero = omega arith
below_power (suc n) = omega (arith, below_power n)

-- Every number is read back from its decimal text, so `n + 1` digits are enough for `n`.
pub read-decimal : (n : ℕ) → read_from 10 0 (decimal n) ≡ n
unfolding decimal
read-decimal n = read-numeral ten-IsBase (suc n) n (below_power n)
