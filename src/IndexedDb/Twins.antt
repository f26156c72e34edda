-- ===== src/IndexedDb/Twins.antt =====
-- The two scans for a job in flight with one deduplication id: the cursor of the IndexedDB driver
-- keeps the last one, the memory driver's `find` the first one.
use ts_queue.IndexedDb.{last_duplicate}
use ts_queue.Job.{Job, truthy}
use ts_queue.Jobs.Views.{All-get}
use ts_queue.Jobs.{get, is_duplicate, has_id}
use ts_queue.Jobs.Ids.{IdsDistinct, get-has_id}
use ts_queue.Jobs.Unique.{NoClash, UniqueInFlight}
use ts_queue.Memory.Push.{duplicate_parts}
use ts_queue.Prelude.{
  String, true, false, List, [], ◌∷◌, Option, some, ◌≡◌, ◌⊎◌, ◌∙◌, ap, refl, arith, All, find,
  Bool-cases, inl, inr, if◌then◌else◌,
}

-- A stored job in flight under the key.
pub record Twin (u : String) (jobs : List Job) (k : Job) : Type 0 where
  pub stored : get k.id jobs ≡ some k
  pub twin : is_duplicate u k ≡ true

pub last_duplicate-cases :
    (u : String) (found : Option String) (jobs : List Job)
    → IdsDistinct jobs
    → ((last_duplicate u found jobs ≡ found) × All (λ k. is_duplicate u k ≡ false) jobs)
      ⊎ ((k : Job) × (last_duplicate u found jobs ≡ some k.id) × Twin u jobs k)
unfolding last_duplicate
last_duplicate-cases u found [] d = inl (refl, tt)
last_duplicate-cases u found (x ∷ xs) d =
    elim (last_duplicate-cases u (if is_duplicate u x then some x.id else found) xs d.1) [
      | inr (k, e, t) ↦ inr (
        k,
        e,
        record {
          stored = ground (arith, t.stored, d.0, get-has_id k.id xs t.stored);
          twin = t.twin;
        },
      )
      | inl (e, a) ↦ elim (Bool-cases (is_duplicate u x)) [
        | inl p ↦ inr (
          x,
          e ∙ ap (λ b. if b then some x.id else found) p,
          record { stored = ground arith; twin = p },
        )
        | inr p ↦ inl (e ∙ ap (λ b. if b then some x.id else found) p, (p, a))
      ]
    ]

-- With unique ids in flight, a job that is stored under the key is the one that `find` returns.
pub find-Twin :
    (u : String) (i : String) (jobs : List Job) {j k : Job}
    → truthy (some u) ≡ some u
    → UniqueInFlight jobs
    → find (is_duplicate u) jobs ≡ some j
    → get i jobs ≡ some k
    → is_duplicate u k ≡ true
    → j ≡ k
find-Twin u i [] t f h g p = absurd (cc)
find-Twin u i (x ∷ xs) {j} {k} t f h g p = elim (Bool-cases (is_duplicate u x)) [
  | inl e ↦ elim (Bool-cases (has_id i x)) [
    | inl q ↦ ground (arith, e, q, h, g)
    | inr q ↦
        let apart = All-get (NoClash x) i xs {k = k} f.0 (ground (arith, q, g)) in
        let (key, flight) = duplicate_parts u x e in
        let (key', flight') = duplicate_parts u k p in
        absurd (apart u flight flight' (ap truthy key ∙ t) key')
  ]
  | inr e ↦ elim (Bool-cases (has_id i x)) [
    | inl q ↦ absurd (ground (arith, e, q, g, p))
    | inr q ↦ find-Twin u i xs {j = j} {k = k} t f.1 (ground (arith, e, h)) (ground (arith, q, g)) p
  ]
]
