-- ===== src/UniqueId/Hex.antt =====
-- The hexadecimal hash in a deduplication id.
use text.Mathlib.TextLemmas.{append_cancel_left}
use ts_queue.Payload.{Value, units, stable_stringify}
use ts_queue.Prelude.{ℕ, ◌^◌, ◌<◌, String, ◌∷◌, ◌++◌, ◌≡◌, ◌↔◌, ◌∙◌, sym, ap, arith, ◌+++◌}
use ts_queue.Prelude.Numerals.{read_from, read-numeral, sixteen-IsBase}
use ts_queue.UniqueId.{to_hex, fnv1a, compute_unique_id}
use ts_queue.UniqueId.Laws.{fnv1a_lt}

-- A 32-bit number is read back from its hexadecimal text, so eight digits are enough.
pub read-to_hex : (n : ℕ) → n < 2 ^ 32 → read_from 16 0 (to_hex n) ≡ n
unfolding to_hex
read-to_hex n h = read-numeral sixteen-IsBase 8 n (omega (arith, h))

-- The hash of a job.
abbrev pub hash_of : String → Value → ℕ
hash_of name payload = fnv1a (units name ++ (b':' ∷ stable_stringify payload))

-- Two jobs get the same computed deduplication id exactly if their hashes are equal.
pub compute_unique_id_iff :
    (name other : String) (a b : Value)
    → (compute_unique_id name a ≡ compute_unique_id other b) ↔ (hash_of name a ≡ hash_of other b)
unfolding compute_unique_id
compute_unique_id_iff name other a b = (
  (λ e.
      sym (read-to_hex (hash_of name a) (fnv1a_lt (units name ++ (b':' ∷ stable_stringify a))))
      ∙ ap (read_from 16 0) (append_cancel_left "u_" _ _ e)
      ∙ read-to_hex (hash_of other b) (fnv1a_lt (units other ++ (b':' ∷ stable_stringify b)))),
  λ e. ap (λ h. "u_" +++ to_hex h) e,
)
