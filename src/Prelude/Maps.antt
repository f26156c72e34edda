-- ===== src/Prelude/Maps.antt =====
-- `Map<string, V>` as an association list in insertion order.
use Prim.Native.String.{String}
use mathlib.Core.Bool.{Bool}
use mathlib.Core.List.{List, [], ◌∷◌}
use mathlib.Core.Option.{Option, none, some}
use mathlib.Core.Path.{◌≡◌, refl}
use native.Mathlib.Omega.{arith}
use ts_queue.Prelude.Lists.{All, keep}
use ts_queue.Prelude.Tests.{if◌then◌else◌, same, Bool-cases}
use mathlib.Core.Logic.{inl, inr}

module _ {ℓ} {V : Type ℓ} where
  -- `map.set(key, value)`: a known key keeps its place.
  unfoldable pub insert : (key : String) (value : V) → List (String × V) → List (String × V)
  insert key value [] = (key, value) ∷ []
  insert key value (entry ∷ rest) =
      let later = insert key value rest in
      if same entry.0 key then (key, value) ∷ rest else entry ∷ later

  -- `map.get(key)`
  unfoldable pub lookup : (key : String) → List (String × V) → Option V
  lookup key [] = none
  lookup key (entry ∷ rest) = if same entry.0 key then some entry.1 else lookup key rest

  pub lookup-insert :
      (key other : String) (value : V) (m : List (String × V))
      → lookup other (insert key value m) ≡ (if same key other then some value else lookup other m)
  unfolding insert lookup
  lookup-insert key other value [] = refl
  lookup-insert key other value (entry ∷ rest) = ground (arith, lookup-insert key other value rest)

  -- What every entry satisfies.
  pub All-lookup {κ} :
      (P : String × V → Type κ) (k : String) (m : List (String × V)) {v : V}
      → All P m
      → lookup k m ≡ some v
      → P (k, v)
  unfolding lookup
  All-lookup P k [] a h = absurd (cc)
  All-lookup P k ((j, w) ∷ m) {v} a h = elim (Bool-cases (same j k)) [
    | inl e ↦ ground (arith, a.0)
    | inr e ↦ All-lookup P k m {v = v} a.1 (ground arith)
  ]

  pub All-insert {κ} :
      (P : String × V → Type κ) (key : String) (value : V) (m : List (String × V))
      → P (key, value)
      → All P m
      → All P (insert key value m)
  unfolding insert
  All-insert P key value [] p a = (p, tt)
  All-insert P key value (entry ∷ rest) p a = ground (arith, All-insert P key value rest p a.1)

pub All-keep {ℓ κ} :
    {A : Type ℓ} (P : A → Type κ) (p : A → Bool) (xs : List A) → All P xs → All P (keep p xs)
All-keep P p [] a = tt
All-keep P p (x ∷ xs) a = ground (arith, All-keep P p xs a.1)
