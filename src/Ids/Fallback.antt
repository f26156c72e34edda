-- ===== src/Ids/Fallback.antt =====
-- The ids that are generated without `randomUUID`.
use Prim.Native.Char.{code}
use text.Mathlib.TextLemmas.{nil-append, cons-append}
use ts_queue.Ids.{generate_job_id, base36, slice, skip}
use ts_queue.Prelude.Numerals.{
  numeral, numeral_onto, reader-numeral_onto, thirty_six-IsBase, digits, nth, digit_value,
  digit_value-nth,
}
use ts_queue.Prelude.{
  ℕ, zero, suc, ◌+◌, ◌*◌, ◌/◌, ◌%◌, ◌^◌, ◌<◌, String, Bool, true, false, ◌==◌, none, ◌≡◌, ◌↔◌, ◌∙◌,
  refl, sym, ap, arith, ◌+++◌, if◌then◌else◌, Bool-cases, inl, inr,
}

-- The number up to the next underscore, when `n` was read so far, and what follows it.
unfoldable pub read_part : ℕ → String → ℕ × String
read_part n String.[] = (n, "")
read_part n (String.◌∷◌ c s) =
    let rest = read_part (n * 36 + digit_value c) s in if code c == 95 then (n, s) else rest

-- What an id was made of.
unfoldable pub read_id : String → ℕ × String
unfolding skip read_part
read_id id = read_part 0 (skip 4 id)

-- No digit below `k` is an underscore.
abbrev no_underscore : ℕ → Bool
no_underscore zero = true
no_underscore (suc k) = if code (nth digits k) == 95 then false else no_underscore k

no_underscore-below :
    (k n : ℕ) → no_underscore k ≡ true → n < k → (code (nth digits n) == 95) ≡ false
no_underscore-below zero n e h = absurd (omega (arith, h))
no_underscore-below (suc k) n e h = elim (Bool-cases (n == k)) [
  | inl d ↦ let p : n ≡ k = ground (arith, d) in rw p (ground (arith, e))
  | inr d ↦ no_underscore-below k n (ground (arith, e)) (ground (arith, d, h))
]

read_part-digit :
    (m n : ℕ) (s : String)
    → n < 36
    → read_part m (String.◌∷◌ (nth digits n) s) ≡ read_part (m * 36 + n) s
unfolding read_part
read_part-digit m n s l =
    rw (no_underscore-below 36 n refl l) (ap (λ v. read_part (m * 36 + v) s) (digit_value-nth n l))

numeral_onto-append :
    (base fuel n : ℕ) (acc s : String)
    → numeral_onto base fuel n acc +++ s ≡ numeral_onto base fuel n (acc +++ s)
unfolding numeral_onto
numeral_onto-append base zero n acc s = refl
numeral_onto-append base (suc fuel) n acc s = elim (Bool-cases (n / base == 0)) [
  | inl e ↦ rw (e, numeral_onto) (cons-append (nth digits (n % base)) acc s)
  | inr e ↦
      rw (e, numeral_onto)
        (numeral_onto-append base fuel (n / base) (String.◌∷◌ (nth digits (n % base)) acc) s
          ∙ ap (numeral_onto base fuel (n / base)) (cons-append (nth digits (n % base)) acc s))
]

below_power : (n : ℕ) → n < 36 ^ suc n
below_power zero = omega arith
below_power (suc n) = omega (arith, below_power n)

-- The prefix is skipped.
skip-append : (t : String) → skip 4 ("job_" +++ t) ≡ t
unfolding skip
skip-append t =
    ap (skip 4) (cons-append "j" "ob_" t)
    ∙ ap (skip 3) (cons-append "o" "b_" t)
    ∙ ap (skip 2) (cons-append "b" "_" t)
    ∙ ap (skip 1) (cons-append "_" "" t)
    ∙ nil-append t

-- An id that is generated without `randomUUID` says when it was generated and with which random characters.
pub read_id-generate_job_id :
    (now : ℕ) (random : String)
    → read_id (generate_job_id none now random) ≡ (now, slice 2 11 random)
unfolding read_id generate_job_id base36 skip read_part numeral
read_id-generate_job_id now random =
    ap (read_part 0) (skip-append (base36 now +++ "_" +++ slice 2 11 random))
    ∙ ap (read_part 0) (numeral_onto-append 36 (suc now) now "" ("_" +++ slice 2 11 random))
    ∙ ap (λ t. read_part 0 (numeral_onto 36 (suc now) now t))
        (nil-append ("_" +++ slice 2 11 random) ∙ underscore)
    ∙ reader-numeral_onto thirty_six-IsBase read_part read_part-digit (suc now) now
        (String.◌∷◌ "_" (slice 2 11 random)) (below_power now)
  where
    underscore : "_" +++ slice 2 11 random ≡ String.◌∷◌ "_" (slice 2 11 random)
    underscore =
        cons-append "_" "" (slice 2 11 random)
        ∙ ap (String.◌∷◌ "_") (nil-append (slice 2 11 random))

-- Two such ids are equal exactly if both the time and the random characters are.
pub generate_job_id_iff :
    (now later : ℕ) (random other : String)
    → (generate_job_id none now random ≡ generate_job_id none later other)
      ↔ ((now ≡ later) × (slice 2 11 random ≡ slice 2 11 other))
unfolding generate_job_id
generate_job_id_iff now later random other = (
  (λ e.
      let p =
        sym (read_id-generate_job_id now random)
        ∙ ap read_id e
        ∙ read_id-generate_job_id later other in
      (ap (λ r. r.0) p, ap (λ r. r.1) p)),
  λ (h : (now ≡ later) × (slice 2 11 random ≡ slice 2 11 other)). rw (h.0, h.1) refl,
)
