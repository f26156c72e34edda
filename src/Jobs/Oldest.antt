-- ===== src/Jobs/Oldest.antt =====
-- The job that the loop of `pop` keeps.
use mathlib.Core.List.{append_assoc, append-nil}
use ts_queue.Job.{Job}
use ts_queue.Jobs.{oldest, earlier}
use ts_queue.Prelude.{
  ◌≤◌, ◌<◌, Bool, true, false, List, [], ◌∷◌, ◌++◌, Option, none, some, ◌≡◌, refl, sym, ◌∙◌, ap,
  subst, arith, All, inl, inr, Bool-cases, All-append, ltb,
}

-- `j` is the first of the eligible jobs with the least creation time: every eligible job before
-- it was created later, and none after it earlier.
pub record IsOldest (eligible : Job → Bool) (jobs : List Job) (j : Job) : Type 0 where
  pub before : List Job
  pub after : List Job
  pub split : jobs ≡ before ++ j ∷ after
  pub is_eligible : eligible j ≡ true
  pub later_before : All (λ k. eligible k ≡ true → j.created_at < k.created_at) before
  pub not_earlier_after : All (λ k. eligible k ≡ true → j.created_at ≤ k.created_at) after

module _ (eligible : Job → Bool) where
  -- What the loop knows after the jobs in `seen`.
  abbrev pub Scanned : List Job → Option Job → Type 0
  Scanned seen none = All (λ k. eligible k ≡ false) seen
  Scanned seen (some n) = IsOldest eligible seen n

  none_later :
      (j : Job) (seen : List Job)
      → All (λ k. eligible k ≡ false) seen
      → All (λ k. eligible k ≡ true → j.created_at < k.created_at) seen
  none_later j [] a = tt
  none_later j (k ∷ ks) a = ((λ e. cc), none_later j ks a.1)

  All-later :
      (j n : Job) (seen : List Job)
      → j.created_at < n.created_at
      → All (λ k. eligible k ≡ true → n.created_at ≤ k.created_at) seen
      → All (λ k. eligible k ≡ true → j.created_at < k.created_at) seen
  All-later j n [] h a = tt
  All-later j n (k ∷ ks) h a = ((λ e. omega (arith, a.0 e)), All-later j n ks h a.1)

  weaken :
      (n : Job) (seen : List Job)
      → All (λ k. eligible k ≡ true → n.created_at < k.created_at) seen
      → All (λ k. eligible k ≡ true → n.created_at ≤ k.created_at) seen
  weaken n [] a = tt
  weaken n (k ∷ ks) a = ((λ e. omega (arith, a.0 e)), weaken n ks a.1)

  -- No eligible job is older than the one kept.
  pub whole :
      (n : Job) (seen : List Job)
      → IsOldest eligible seen n
      → All (λ k. eligible k ≡ true → n.created_at ≤ k.created_at) seen
  whole n seen s = subst (All λ k. eligible k ≡ true → n.created_at ≤ k.created_at) (sym s.split) (
      All-append _ s.before (n ∷ s.after) (weaken n s.before s.later_before)
        ((λ _. omega arith), s.not_earlier_after))

  -- One more job, not eligible.
  skip :
      (seen : List Job) (j : Job) (n : Option Job)
      → eligible j ≡ false
      → Scanned seen n
      → Scanned (seen ++ j ∷ []) n
  skip seen j none e s = All-append _ seen (j ∷ []) s (e, tt)
  skip seen j (some n) e s = record {
    before = s.before;
    after = s.after ++ j ∷ [];
    split = ap (λ l. l ++ j ∷ []) s.split ∙ append_assoc s.before (n ∷ s.after) (j ∷ []);
    is_eligible = s.is_eligible;
    later_before = s.later_before;
    not_earlier_after = All-append _ s.after (j ∷ []) s.not_earlier_after ((λ h. cc), tt);
  }

  -- The new job is older.
  replace :
      (seen : List Job) (j n : Job)
      → eligible j ≡ true
      → j.created_at < n.created_at
      → IsOldest eligible seen n
      → IsOldest eligible (seen ++ j ∷ []) j
  replace seen j n e h s = record {
    before = seen;
    after = [];
    split = refl;
    is_eligible = e;
    later_before = All-later j n seen h (whole n seen s);
    not_earlier_after = tt;
  }

  stay :
      (seen : List Job) (j n : Job)
      → n.created_at ≤ j.created_at
      → IsOldest eligible seen n
      → IsOldest eligible (seen ++ j ∷ []) n
  stay seen j n h s = record {
    before = s.before;
    after = s.after ++ j ∷ [];
    split = ap (λ l. l ++ j ∷ []) s.split ∙ append_assoc s.before (n ∷ s.after) (j ∷ []);
    is_eligible = s.is_eligible;
    later_before = s.later_before;
    not_earlier_after = All-append _ s.after (j ∷ []) s.not_earlier_after ((λ e. h), tt);
  }

  step :
      (seen : List Job) (j : Job) (n : Option Job)
      → eligible j ≡ true
      → Scanned seen n
      → Scanned (seen ++ j ∷ []) (earlier n j)
  step seen j none e s = record {
    before = seen;
    after = [];
    split = refl;
    is_eligible = e;
    later_before = none_later j seen s;
    not_earlier_after = tt;
  }
  step seen j (some n) e s = elim (Bool-cases (ltb j.created_at n.created_at)) [
    | inl h ↦ rw h (replace seen j n e (ground arith) s)
    | inr h ↦ rw h (stay seen j n (ground arith) s)
  ]

  scan :
      (seen jobs : List Job) (n : Option Job)
      → Scanned seen n
      → Scanned (seen ++ jobs) (oldest eligible n jobs)
  unfolding oldest
  scan seen [] n s = subst (λ l. Scanned l n) (sym (append-nil seen)) s
  scan seen (j ∷ js) n s = elim (Bool-cases (eligible j)) [
    | inl e ↦ rw (e) (
        subst (λ l. Scanned l (oldest eligible (earlier n j) js)) (append_assoc seen (j ∷ []) js)
          (scan (seen ++ j ∷ []) js (earlier n j) (step seen j n e s)))
    | inr e ↦ rw (e) (
        subst (λ l. Scanned l (oldest eligible n js)) (append_assoc seen (j ∷ []) js)
          (scan (seen ++ j ∷ []) js n (skip seen j n e s)))
  ]

  pub oldest-Scanned : (jobs : List Job) → Scanned jobs (oldest eligible none jobs)
  oldest-Scanned jobs = scan [] jobs none tt

  -- Jobs that are not eligible are passed over.
  pub oldest_none :
      (n : Option Job) (jobs : List Job)
      → All (λ k. eligible k ≡ false) jobs
      → oldest eligible n jobs ≡ n
  unfolding oldest
  oldest_none n [] a = refl
  oldest_none n (j ∷ js) a = rw a.0 (oldest_none n js a.1)
