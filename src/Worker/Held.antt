-- ===== src/Worker/Held.antt =====
-- Jobs that were handed out, against those that are stored.
use ts_queue.Job.{Job, is_waiting, reserved}
use ts_queue.Jobs.{get, without, reserve}
use ts_queue.Jobs.Ids.{IdsDistinct, keep-IdsDistinct}
use ts_queue.Jobs.Views.{get-without}
use ts_queue.Prelude.{
  ℕ, ◌≤◌, ◌<◌, String, true, List, [], ◌∷◌, Option, none, some, ◌≡◌, ◌≢◌, subst, arith, Bool-cases,
  Option-cases, inl, inr, same, if◌then◌else◌,
}
use ts_queue.Worker.Weights.{allowance}

-- A job within its allowance; one that waits has an attempt left.
abbrev pub IsWithin : Job → Type 0
IsWithin j = (j.attempts ≤ allowance j) × (is_waiting j.status ≡ true → j.attempts < allowance j)

-- The jobs that are stored and those that are held, each found by its id.
pub record IsOrdered (jobs held : List Job) : Type 0 where
  pub held_distinct : IdsDistinct held
  pub held_reserved : (i : String) (h : Job) → get i held ≡ some h → h.status ≡ reserved
  pub backed : (i : String) (h j : Job) → get i held ≡ some h → get i jobs ≡ some j → j ≡ h
  pub owned :
      (i : String) (j : Job) → get i jobs ≡ some j → j.status ≡ reserved → get i held ≡ some j
  pub within : (i : String) (j : Job) → get i jobs ≡ some j → IsWithin j

pub none-IsOrdered : IsOrdered [] []
none-IsOrdered = record {
  held_distinct = tt;
  held_reserved = λ i h e. absurd (cc);
  backed = λ i h j g e. absurd (cc);
  owned = λ i j e r. absurd (cc);
  within = λ i j e. absurd (cc);
}

-- Fewer jobs are stored.
pub shrink-IsOrdered :
    (jobs held after : List Job)
    → ((i : String) (j : Job) → get i after ≡ some j → get i jobs ≡ some j)
    → IsOrdered jobs held
    → IsOrdered after held
shrink-IsOrdered jobs held after sub o = record {
  held_distinct = o.held_distinct;
  held_reserved = o.held_reserved;
  backed = λ i h j g e. o.backed i h j g (sub i j e);
  owned = λ i j e r. o.owned i j (sub i j e) r;
  within = λ i j e. o.within i j (sub i j e);
}

-- One more job is stored, which waits and is not held.
pub store-IsOrdered :
    (jobs held after : List Job) (job : Job)
    → ((i : String) → get i after ≡ (if same job.id i then some job else get i jobs))
    → get job.id held ≡ none
    → is_waiting job.status ≡ true
    → job.attempts ≡ 0
    → IsOrdered jobs held
    → IsOrdered after held
store-IsOrdered jobs held after job view free w z o = record {
  held_distinct = o.held_distinct;
  held_reserved = o.held_reserved;
  backed = λ i h j g e'. ground (arith, view i, g, e', o.backed i h j, free);
  owned = λ i j e' r. ground (arith, view i, e', r, o.owned i j, w);
  within = λ i j e'. elim (Bool-cases (same job.id i)) [
    | inl p ↦
        let q : job ≡ j = ground (arith, view i, e', p) in
        subst IsWithin q (omega (arith, z), λ x. omega (arith, z))
    | inr p ↦ o.within i j (ground (arith, view i, e', p))
  ];
}

-- A stored job that waits is not held.
pub waiting-free :
    (jobs held : List Job) (n : Job)
    → get n.id jobs ≡ some n
    → is_waiting n.status ≡ true
    → IsOrdered jobs held
    → get n.id held ≡ none
waiting-free jobs held n g w o = elim (Option-cases (get n.id held)) [
  | inl f ↦ f
  | inr (h, f) ↦
      let q = o.backed n.id h n f g in
      let r = o.held_reserved n.id h f in absurd (ground (arith, q, r, w))
]

-- A job is stored as reserved and handed out, which nobody holds.
pub take_free-IsOrdered :
    (jobs held after : List Job) (n : Job) (now : ℕ)
    → ((i : String) → get i after ≡ (if same n.id i then some (reserve now n) else get i jobs))
    → get n.id held ≡ none
    → n.attempts < allowance n
    → IsOrdered jobs held
    → IsOrdered after (reserve now n ∷ held)
take_free-IsOrdered jobs held after n now view free room o = record {
  held_distinct = (free, o.held_distinct);
  held_reserved = λ i h e'. ground (arith, e', o.held_reserved i h);
  backed = λ i h j e' k. ground (arith, view i, e', k, o.backed i h j);
  owned = λ i j e' r. ground (arith, view i, e', r, o.owned i j);
  within = λ i j e'. elim (Bool-cases (same n.id i)) [
    | inl p ↦
        let q : reserve now n ≡ j = ground (arith, view i, e', p) in
        subst IsWithin q (omega (arith, room), λ x. absurd (cc))
    | inr p ↦ o.within i j (ground (arith, view i, e', p))
  ];
}

-- A waiting job is popped.
pub take-IsOrdered :
    (jobs held after : List Job) (n : Job) (now : ℕ)
    → ((i : String) → get i after ≡ (if same n.id i then some (reserve now n) else get i jobs))
    → get n.id jobs ≡ some n
    → is_waiting n.status ≡ true
    → IsOrdered jobs held
    → IsOrdered after (reserve now n ∷ held)
take-IsOrdered jobs held after n now view g w o =
    take_free-IsOrdered jobs held after n now view (waiting-free jobs held n g w o)
      ((o.within n.id n g).1 w) o

-- A held job is settled: what is left under its id waits or is done.
pub settle-IsOrdered :
    (jobs held after : List Job) (h : Job) (left : Option Job)
    → ((i : String) → get i after ≡ (if same h.id i then left else get i jobs))
    → ((j : Job) → left ≡ some j → (j.status ≢ reserved) × IsWithin j)
    → IsOrdered jobs held
    → IsOrdered after (without h.id held)
settle-IsOrdered jobs held after h left view settled o = record {
  held_distinct = keep-IdsDistinct _ held o.held_distinct;
  held_reserved = λ i k g. ground (arith, get-without h.id held i, g, o.held_reserved i k);
  backed = λ i k j g e. ground (arith, get-without h.id held i, view i, g, e, o.backed i k j);
  owned = λ i j e r. elim (Bool-cases (same h.id i)) [
    | inl p ↦ absurd ((settled j (ground (arith, view i, e, p))).0 r)
    | inr p ↦
        ground (arith, get-without h.id held i, p, o.owned i j (ground (arith, view i, e, p)) r)
  ];
  within = λ i j e. elim (Bool-cases (same h.id i)) [
    | inl p ↦ (settled j (ground (arith, view i, e, p))).1
    | inr p ↦ o.within i j (ground (arith, view i, e, p))
  ];
}
