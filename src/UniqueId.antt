-- ===== src/UniqueId.antt =====
-- src/utils/compute-unique-id.util.ts: the hash of a job's name and payload.
pub mod Laws
pub mod Hex
use Prim.Native.Nat.{bit_xor}
use ts_queue.Payload.{Text, Value, units, stable_stringify}
use ts_queue.Prelude.{
  ℕ, zero, suc, ◌+◌, ◌-◌, ◌*◌, ◌/◌, ◌%◌, ◌^◌, String, List, [], ◌∷◌, ◌++◌, ltb, ◌==◌, ◌+++◌,
  if◌then◌else◌,
}
use ts_queue.Prelude.Numerals.{numeral}

abbrev pub fnv_prime : ℕ
fnv_prime = 0x01000193

abbrev pub fnv_offset : ℕ
fnv_offset = 0x811c9dc5

-- `p` rounded to a multiple of `unit`, ties to the even multiple.
unfoldable pub round_to : ℕ → ℕ → ℕ
round_to unit p =
    let q = p / unit in
    if ltb (2 * (p % unit)) unit
    then q * unit
    else if ltb unit (2 * (p % unit))
    then (q + 1) * unit
    else if q % 2 == 0
    then q * unit
    else (q + 1) * unit

-- The double that a product of integers below 2 ^ 56 is stored as: 53 bits are kept.
unfoldable pub as_double : ℕ → ℕ
unfolding round_to
as_double p =
    if ltb p (2 ^ 53)
    then p
    else if ltb p (2 ^ 54)
    then round_to 2 p
    else if ltb p (2 ^ 55)
    then round_to 4 p
    else round_to 8 p

-- The size of the signed 32-bit integer with the bits of `x`.
unfoldable pub magnitude : ℕ → ℕ
magnitude x = if ltb x (2 ^ 31) then x else 2 ^ 32 - x

-- `(hash * 0x01000193) >>> 0` for the signed 32-bit `hash` with the bits of `x`: a product of
-- doubles, then the wrap to 32 bits.
unfoldable pub hash_mul : ℕ → ℕ
unfolding as_double magnitude
hash_mul x =
    let r = as_double (magnitude x * fnv_prime) in
    if ltb x (2 ^ 31) then r % 2 ^ 32 else (2 ^ 32 - r % 2 ^ 32) % 2 ^ 32

unfoldable pub fnv1a_from : ℕ → Text → ℕ
unfolding hash_mul
fnv1a_from hash [] = hash
fnv1a_from hash (u ∷ s) = fnv1a_from (hash_mul (bit_xor hash u)) s

unfoldable pub fnv1a : Text → ℕ
unfolding fnv1a_from
fnv1a input = fnv1a_from fnv_offset input

-- A 32-bit number has eight digits at most.
unfoldable pub to_hex : ℕ → String
unfolding numeral
to_hex n = numeral 16 8 n

unfoldable pub compute_unique_id : String → Value → String
unfolding fnv1a to_hex units stable_stringify
compute_unique_id name payload =
    "u_" +++ to_hex (fnv1a (units name ++ (b':' ∷ stable_stringify payload)))
