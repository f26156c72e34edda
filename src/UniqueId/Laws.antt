-- ===== src/UniqueId/Laws.antt =====
-- The range of the hash, and the payloads that share a deduplication id.
use Prim.Native.Nat.{bit_xor}
use text.Mathlib.TextLemmas.{cons-append}
use ts_queue.Job.{truthy}
use ts_queue.Payload.{Text, Value}
use ts_queue.Payload.Reordered.{Reordered, stringify-same}
use ts_queue.Prelude.{
  ◌*◌, ◌≤◌, ◌%◌, ◌-◌, ltb, true, Bool-cases, inl, inr, ℕ, ◌^◌, ◌<◌, String, [], ◌∷◌, some, ◌≡◌,
  refl, arith,
}
use ts_queue.UniqueId.{
  magnitude, as_double, fnv_prime, fnv1a, fnv1a_from, hash_mul, fnv_offset, compute_unique_id,
}

hash_mul_lt : (x : ℕ) → hash_mul x < 2 ^ 32
unfolding hash_mul
hash_mul_lt x = ground arith

from_lt : (hash : ℕ) (s : Text) → hash < 2 ^ 32 → fnv1a_from hash s < 2 ^ 32
unfolding fnv1a_from
from_lt hash [] h = h
from_lt hash (u ∷ s) h = from_lt (hash_mul (bit_xor hash u)) s (hash_mul_lt (bit_xor hash u))

-- The hash is a 32-bit number, for every text.
pub fnv1a_lt : (s : Text) → fnv1a s < 2 ^ 32
unfolding fnv1a
fnv1a_lt s = from_lt fnv_offset s (omega arith)

-- The deduplication id of a payload does not depend on the order of its properties, at any depth.
pub compute_unique_id-Reordered :
    (name : String) (a b : Value)
    → Reordered a b
    → compute_unique_id name a ≡ compute_unique_id name b
unfolding compute_unique_id
compute_unique_id-Reordered name a b r = rw (stringify-same a b r) refl

-- It is never empty.
pub truthy-computed :
    (name : String) (v : Value)
    → truthy (some (compute_unique_id name v)) ≡ some (compute_unique_id name v)
unfolding compute_unique_id
truthy-computed name v = rw cons-append refl

wrap_neg :
    (x : ℕ)
    → 2 ^ 31 ≤ x
    → x < 2 ^ 32
    → (2 ^ 32 - (2 ^ 32 - x) * fnv_prime % 2 ^ 32) % 2 ^ 32 ≡ x * fnv_prime % 2 ^ 32
wrap_neg x h k = omega arith

as_double_small : (p : ℕ) → p < 2 ^ 53 → as_double p ≡ p
unfolding as_double
as_double_small p h = let small : ltb p (2 ^ 53) ≡ true = ground arith in rw small refl

-- The multiplication of the hash is that of FNV-1a, modulo 2 ^ 32, where the product of the absolute
-- value of the signed hash with the prime is below 2 ^ 53.
pub hash_mul_exact :
    (x : ℕ) → x < 2 ^ 32 → magnitude x * fnv_prime < 2 ^ 53 → hash_mul x ≡ x * fnv_prime % 2 ^ 32
unfolding hash_mul magnitude
hash_mul_exact x h k = elim (Bool-cases (ltb x (2 ^ 31))) [
  | inl e ↦ rw (e, as_double_small (x * fnv_prime) (rw e at k)) refl
  | inr e ↦
      rw (e, as_double_small ((2 ^ 32 - x) * fnv_prime) (rw e at k))
        (wrap_neg x (ground (arith, e)) h)
]
