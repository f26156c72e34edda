-- ===== src/Prelude/Numerals.antt =====
-- `n.toString(base)`, for the bases that the program uses, and reading a numeral back.
use Prim.Native.Char.{Char, code}
use Prim.Native.Nat.{ℕ, zero, suc, ◌+◌, ◌-◌, ◌*◌, ◌/◌, ◌%◌, ◌^◌, ◌<◌}
use Prim.Native.String.{String}
use mathlib.Core.Bool.{Bool, true, false}
use mathlib.Core.List.{List, [], ◌∷◌}
use mathlib.Core.Logic.{inl, inr}
use mathlib.Core.Path.{◌≡◌, refl, ap, ◌∙◌}
use native.Mathlib.Numerals.{unary_clauses}
use native.Mathlib.Omega.{arith}
use ts_queue.Prelude.Tests.{ltb, ◌==◌, if◌then◌else◌, Bool-cases}

abbrev pub digits : List Char
digits =
    "0" ∷ "1" ∷ "2" ∷ "3" ∷ "4" ∷ "5" ∷ "6" ∷ "7" ∷ "8" ∷ "9" ∷ "a" ∷ "b" ∷ "c" ∷ "d" ∷ "e" ∷ "f"
    ∷ "g" ∷ "h" ∷ "i" ∷ "j" ∷ "k" ∷ "l" ∷ "m" ∷ "n" ∷ "o" ∷ "p" ∷ "q" ∷ "r" ∷ "s" ∷ "t" ∷ "u" ∷ "v"
    ∷ "w" ∷ "x" ∷ "y" ∷ "z" ∷ []

abbrev pub nth : List Char → ℕ → Char
nth [] n = "0"
nth (c ∷ cs) zero = c
nth (c ∷ cs) (suc n) = nth cs n

-- The digits of `n`, put before `acc`; `fuel` bounds their number.
unfoldable pub numeral_onto : ℕ → ℕ → ℕ → String → String
numeral_onto base zero n acc = acc
numeral_onto base (suc fuel) n acc =
    let out = String.◌∷◌ (nth digits (n % base)) acc in
    let more = numeral_onto base fuel (n / base) out in if n / base == 0 then out else more

unfoldable pub numeral : ℕ → ℕ → ℕ → String
unfolding numeral_onto
numeral base fuel n = numeral_onto base fuel n ""

abbrev pub digit_value : Char → ℕ
digit_value c = if ltb (code c) 58 then code c - 48 else code c - 87

-- The number that a numeral stands for, when `n` was read so far.
unfoldable pub read_from : ℕ → ℕ → String → ℕ
read_from base n String.[] = n
read_from base n (String.◌∷◌ c s) = read_from base (n * base + digit_value c) s

-- The digits below `k` have their values.
abbrev in_order : ℕ → Bool
in_order zero = true
in_order (suc k) = if digit_value (nth digits k) == k then in_order k else false

in_order-below : (k n : ℕ) → in_order k ≡ true → n < k → digit_value (nth digits n) ≡ n
in_order-below zero n e h = absurd (omega (arith, h))
in_order-below (suc k) n e h = elim (Bool-cases (n == k)) [
  | inl d ↦ let p : n ≡ k = ground (arith, d) in rw p (ground (arith, e))
  | inr d ↦ in_order-below k n (ground (arith, e)) (ground (arith, d, h))
]

pub digit_value-nth : (n : ℕ) → n < 36 → digit_value (nth digits n) ≡ n
digit_value-nth n h = in_order-below 36 n refl h

-- Division by a base, as far as the digits need it.
pub record IsBase (base : ℕ) : Type 0 where
  pub small : (n : ℕ) → n % base < 36
  pub splits : (n : ℕ) → n / base * base + n % base ≡ n
  pub shrinks : (n fuel : ℕ) → n < base ^ suc fuel → n / base < base ^ fuel

pub ten-IsBase : IsBase 10
ten-IsBase = record {
  small = λ n. omega arith;
  splits = λ n. omega arith;
  shrinks = λ n fuel h. omega arith;
}

pub sixteen-IsBase : IsBase 16
sixteen-IsBase = record {
  small = λ n. omega arith;
  splits = λ n. omega arith;
  shrinks = λ n fuel h. omega arith;
}

pub thirty_six-IsBase : IsBase 36
thirty_six-IsBase = record {
  small = λ n. omega arith;
  splits = λ n. omega arith;
  shrinks = λ n fuel h. omega arith;
}

-- What reads a text digit by digit reads the digits of a number as the number. `n` bounds the digits.
pub reader-numeral_onto {ℓ} :
    {base : ℕ} {X : Type ℓ}
    → IsBase base
    → (reader : ℕ → String → X)
    → ((m n : ℕ) (s : String)
        → n < 36
        → reader m (String.◌∷◌ (nth digits n) s) ≡ reader (m * base + n) s)
    → (fuel n : ℕ) (acc : String) → n < base ^ fuel
    → reader 0 (numeral_onto base fuel n acc) ≡ reader n acc
unfolding numeral_onto
reader-numeral_onto {base} b reader reads zero n acc h =
    let one : base ^ 0 ≡ 1 = simp unary_clauses refl in
    ap (λ k. reader k acc) (omega (arith, one, h))
reader-numeral_onto {base} b reader reads (suc fuel) n acc h = elim (Bool-cases (n / base == 0)) [
  | inl e ↦
      rw (e, numeral_onto)
        (reads 0 (n % base) acc (b.small n) ∙ ap (λ k. reader k acc) (first (ground (arith, e))))
  | inr e ↦
      let out = String.◌∷◌ (nth digits (n % base)) acc in
      rw (e, numeral_onto)
        (reader-numeral_onto b reader reads fuel (n / base) out (b.shrinks n fuel h)
          ∙ reads (n / base) (n % base) acc (b.small n)
          ∙ ap (λ k. reader k acc) (b.splits n))
]
  where
    first : n / base ≡ 0 → 0 * base + n % base ≡ n
    first z = omega (arith, z, b.splits n, ap (λ q. q * base) z)

-- A number that has at most `fuel` digits is read back from its numeral.
pub read-numeral :
    {base : ℕ}
    → IsBase base
    → (fuel n : ℕ) → n < base ^ fuel
    → read_from base 0 (numeral base fuel n) ≡ n
unfolding numeral read_from
read-numeral {base} b fuel n h =
    reader-numeral_onto b (read_from base)
      (λ m d s l. ap (λ v. read_from base (m * base + v) s) (digit_value-nth d l)) fuel n "" h
