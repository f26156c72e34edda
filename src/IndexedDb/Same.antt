-- ===== src/IndexedDb/Same.antt =====
-- Two lists of the same jobs in different orders: the calls and the scan of `pop` on both.
use ts_queue.IndexedDb.Pushes.{SameRecords}
use ts_queue.Jobs.Views.{All-get}
use ts_queue.Job.{Job}
use ts_queue.Jobs.{get}
use ts_queue.Jobs.Ids.{IdsDistinct}
use ts_queue.Jobs.Oldest.{Scanned, oldest-Scanned, whole}
use ts_queue.Memory.{choose, is_eligible}
use ts_queue.Memory.Pop.{get-choose, choose-IsOldest}
use ts_queue.Prelude.{
  ℕ, String, true, false, List, none, some, ◌≤◌, ◌≡◌, ◌∙◌, sym, ap, subst, arith, Option-cases, inl,
  inr,
}

-- No two jobs were created at one time.
abbrev pub TimesDistinct : List Job → Type 0
TimesDistinct jobs =
    (i k : String) (j j' : Job)
    → get i jobs ≡ some j
    → get k jobs ≡ some j'
    → j.created_at ≡ j'.created_at
    → i ≡ k

module _ (queue : String) (now : ℕ) where
  -- An eligible job is not older than the chosen one.
  chosen_first :
      (jobs : List Job) {n k : Job}
      → choose queue now jobs ≡ some n
      → get k.id jobs ≡ some k
      → is_eligible queue now k ≡ true
      → n.created_at ≤ k.created_at
  chosen_first jobs {n} {k} e g p =
      All-get (λ x. is_eligible queue now x ≡ true → n.created_at ≤ x.created_at) k.id jobs {k = k}
        (whole (is_eligible queue now) n jobs (choose-IsOldest queue now jobs e)) g p

  -- Something is chosen if a job is eligible.
  none_chosen :
      (jobs : List Job) {k : Job}
      → choose queue now jobs ≡ none
      → get k.id jobs ≡ some k
      → is_eligible queue now k ≡ false
  none_chosen jobs {k} e g =
      All-get (λ x. is_eligible queue now x ≡ false) k.id jobs {k = k}
        (subst (Scanned (is_eligible queue now) jobs) e
          (oldest-Scanned (is_eligible queue now) jobs))
        g

  pub choose-same :
      (a b : List Job)
      → SameRecords a b
      → IdsDistinct a
      → IdsDistinct b
      → TimesDistinct b
      → choose queue now a ≡ choose queue now b
  choose-same a b s d d' apart = elim (Option-cases (choose queue now a)) [
    | inl e ↦ elim (Option-cases (choose queue now b)) [
      | inl h ↦ e ∙ sym h
      | inr (k, h) ↦
          let p = (choose-IsOldest queue now b h).is_eligible in
          let q = none_chosen a e (s k.id ∙ get-choose queue now b d' h) in absurd (cc)
    ]
    | inr (n, e) ↦
        let g : get n.id b ≡ some n = sym (s n.id) ∙ get-choose queue now a d e in
        let p = (choose-IsOldest queue now a e).is_eligible in
        elim (Option-cases (choose queue now b)) [
          | inl h ↦ let q = none_chosen b h g in absurd (cc)
          | inr (k, h) ↦
              let g' = get-choose queue now b d' h in
              let p' = (choose-IsOldest queue now b h).is_eligible in
              let le = chosen_first a e (s k.id ∙ g') p' in
              let ge = chosen_first b h g p in
              let i : n.id ≡ k.id = apart n.id k.id n k g g' (omega (arith, le, ge)) in
              let j : some n ≡ some k = sym g ∙ ap (λ x. get x b) i ∙ g' in e ∙ j ∙ sym h
        ]
  ]
