-- ===== src/Jobs/Views.antt =====
-- The jobs as a map: what is under an id after each change.
use ts_queue.Job.{Job}
use ts_queue.Jobs.{get, put, modify, without, has_id}
use ts_queue.Jobs.Ids.{
  KeepsId, IdsDistinct, get-modify_self, get-modify_ne, modify_absent, get-keep-none, get-put_self,
  get-put_ne, get-without_self, get-without_ne,
}
use ts_queue.Prelude.{All}
use ts_queue.Prelude.{
  String, Bool, List, [], ◌∷◌, Option, none, some, ◌≡◌, ◌∙◌, sym, ap, subst, refl, arith, keep,
  Bool-cases, inl, inr, same, if◌then◌else◌,
}

pub get-put :
    (j : Job) (jobs : List Job) (i : String)
    → get i (put j jobs) ≡ (if same j.id i then some j else get i jobs)
get-put j jobs i = ground (arith, get-put_self j jobs, get-put_ne i j jobs)

-- `filter` on the jobs as a map.
abbrev pub passed : (Job → Bool) → Option Job → Option Job
passed p none = none
passed p (some j) = if p j then some j else none

pub get-keep :
    (p : Job → Bool) (i : String) (jobs : List Job)
    → IdsDistinct jobs
    → get i (keep p jobs) ≡ passed p (get i jobs)
get-keep p i [] d = refl
get-keep p i (j ∷ js) d = elim (Bool-cases (has_id i j)) [
  | inl e ↦
      let gone : get i (keep p js) ≡ none =
        get-keep-none p i js (subst (λ k. get k js ≡ none) (ground (arith, e)) d.0) in
      ground (arith, e, gone)
  | inr e ↦ ground (arith, e, get-keep p i js d.1)
]

-- One assignment on the jobs as a map.
abbrev pub changed : (Job → Job) → Option Job → Option Job
changed f none = none
changed f (some j) = some (f j)

pub get-modify :
    (k : String) (f : Job → Job) (jobs : List Job) (i : String)
    → KeepsId f
    → get i (modify k f jobs) ≡ (if same k i then changed f (get i jobs) else get i jobs)
get-modify k f jobs i keeps = elim (Bool-cases (same k i)) [
  | inr e ↦ rw e (get-modify_ne k f keeps i jobs (ground (arith, e)))
  | inl e ↦
      let p : k ≡ i = ground (arith, e) in
      rw e
        (subst (λ x. get x (modify k f jobs) ≡ changed f (get x jobs)) p (here (get k jobs) refl))
]
  where
    here : (o : Option Job) → get k jobs ≡ o → get k (modify k f jobs) ≡ changed f (get k jobs)
    here none h = rw (modify_absent k f keeps jobs h, h) refl
    here (some j) h = get-modify_self k f keeps jobs h ∙ sym (ap (changed f) h)

pub get-without :
    (k : String) (jobs : List Job) (i : String)
    → get i (without k jobs) ≡ (if same k i then none else get i jobs)
get-without k jobs i = ground (arith, get-without_self i jobs, get-without_ne i k jobs)

-- What holds of every job holds of the one that is found.
pub All-get {κ} :
    (P : Job → Type κ) (i : String) (jobs : List Job) {k : Job}
    → All P jobs
    → get i jobs ≡ some k
    → P k
All-get P i [] a h = absurd (cc)
All-get P i (x ∷ xs) {k} a h = elim (Bool-cases (has_id i x)) [
  | inl e ↦ let here : x ≡ k = ground arith in rw (← here) a.0
  | inr e ↦ All-get P i xs {k = k} a.1 (ground arith)
]
