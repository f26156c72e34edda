-- ===== src/Worker/Weights.antt =====
-- The attempts that the waiting jobs of a queue have left, as a number that falls with every attempt.
use ts_queue.Job.{Job, is_waiting}
use ts_queue.Jobs.{get, modify, in_queue, has_id}
use ts_queue.Jobs.Ids.{IdsDistinct}
use ts_queue.Prelude.{
  ℕ, ◌+◌, ◌-◌, ◌≤◌, max, String, Bool, ◌&&◌, List, [], ◌∷◌, none, some, ◌≡◌, sym, subst, refl,
  arith, keep, Bool-cases, inl, inr, if◌then◌else◌,
}

-- `tries`, and at least the one attempt that every job gets.
abbrev pub allowance : Job → ℕ
allowance j = max 1 j.max_attempts

-- The attempts that a job has left.
abbrev pub spare : Job → ℕ
spare j = allowance j - j.attempts

abbrev pub weight : String → Job → ℕ
weight queue j = if in_queue queue j && is_waiting j.status then spare j else 0

unfoldable pub weight_all : String → List Job → ℕ
weight_all queue [] = 0
weight_all queue (j ∷ js) = weight queue j + weight_all queue js

pub weight-modify :
    (queue i : String) (f : Job → Job) (jobs : List Job) {n : Job}
    → get i jobs ≡ some n
    → weight_all queue (modify i f jobs) + weight queue n
      ≡ weight_all queue jobs + weight queue (f n)
unfolding weight_all modify
weight-modify queue i f [] {n} e = absurd (ground (arith, e))
weight-modify queue i f (j ∷ js) {n} e = elim (Bool-cases (has_id i j)) [
  | inl h ↦ let q : j ≡ n = ground (arith, e, h) in rw (h, modify) (rw q (omega arith))
  | inr h ↦
      rw (h, modify) (omega (arith, weight-modify queue i f js {n = n} (ground (arith, e, h))))
]

pub weight-keep :
    (queue : String) (p : Job → Bool) (jobs : List Job)
    → weight_all queue (keep p jobs) ≤ weight_all queue jobs
unfolding weight_all
weight-keep queue p [] = omega arith
weight-keep queue p (j ∷ js) = elim (Bool-cases (p j)) [
  | inl e ↦ rw e (omega (arith, weight-keep queue p js))
  | inr e ↦ rw e (omega (arith, weight-keep queue p js))
]

-- If every job that can be found has no weight, there is none.
pub weight_all-zero :
    (queue : String) (jobs : List Job)
    → IdsDistinct jobs
    → ((i : String) (j : Job) → get i jobs ≡ some j → weight queue j ≡ 0)
    → weight_all queue jobs ≡ 0
unfolding weight_all
weight_all-zero queue [] d z = refl
weight_all-zero queue (k ∷ ks) d z =
    let first : weight queue k ≡ 0 = z k.id k (ground arith) in
    let rest = weight_all-zero queue ks d.1 (λ i j e. z i j (later i j e)) in
    omega (arith, first, rest)
  where
    later : (i : String) (j : Job) → get i ks ≡ some j → get i (k ∷ ks) ≡ some j
    later i j e = elim (Bool-cases (has_id i k)) [
      | inl h ↦
          let q : k.id ≡ i = ground (arith, h) in
          absurd (ground (arith, e, subst (λ x. get x ks ≡ none) q d.0))
      | inr h ↦ ground (arith, h, e)
    ]

pub weight-zero :
    (queue i : String) (jobs : List Job) {j : Job}
    → weight_all queue jobs ≡ 0
    → get i jobs ≡ some j
    → weight queue j ≡ 0
unfolding weight_all
weight-zero queue i [] z e = absurd (ground (arith, e))
weight-zero queue i (k ∷ ks) {j} z e = elim (Bool-cases (has_id i k)) [
  | inl h ↦ let q : k ≡ j = ground (arith, e, h) in rw (sym q) (omega (arith, z))
  | inr h ↦ weight-zero queue i ks {j = j} (omega (arith, z)) (ground (arith, e, h))
]
