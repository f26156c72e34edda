-- ===== src/Ids.antt =====
-- src/utils/generate-job-id.util.ts. The platform is three arguments: what `crypto.randomUUID` answers where there is
-- one, the clock, and the text of `Math.random().toString(36)`.
pub mod Fallback
use ts_queue.Prelude.Numerals.{numeral}
use ts_queue.Prelude.{ℕ, zero, suc, ◌-◌, String, Option, none, some, ◌+++◌}

-- `text.slice(n)`
unfoldable pub skip : ℕ → String → String
skip zero s = s
skip (suc n) String.[] = ""
skip (suc n) (String.◌∷◌ c s) = skip n s

-- The first `n` characters.
unfoldable pub take : ℕ → String → String
take zero s = ""
take (suc n) String.[] = ""
take (suc n) (String.◌∷◌ c s) = String.◌∷◌ c (take n s)

-- `text.slice(start, end)`
unfoldable pub slice : ℕ → ℕ → String → String
unfolding skip take
slice first last s = take (last - first) (skip first s)

-- `n.toString(36)`. `n` has at most `n + 1` digits.
unfoldable pub base36 : ℕ → String
unfolding numeral
base36 n = numeral 36 (suc n) n

unfoldable pub generate_job_id : Option String → ℕ → String → String
unfolding base36 slice
generate_job_id (some uuid) now random = uuid
generate_job_id none now random = "job_" +++ base36 now +++ "_" +++ slice 2 11 random
