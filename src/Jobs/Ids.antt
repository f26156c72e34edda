-- ===== src/Jobs/Ids.antt =====
-- What the collection's operations do to the job under an id, and distinct ids.
use ts_queue.Job.{Job}
use ts_queue.Jobs.{get, put, without, modify, has_id}
use ts_queue.Prelude.{
  String, Bool, List, [], ◌∷◌, none, some, ◌≡◌, ◌≢◌, refl, arith, keep, All, Bool-cases, inl, inr,
  find, true,
}

-- The assignments leave the id alone.
abbrev pub KeepsId : (Job → Job) → Type 0
KeepsId f = (j : Job) → (f j).id ≡ j.id

module _ (i : String) (f : Job → Job) (keeps : KeepsId f) where
  pub get-modify_self :
      (jobs : List Job) {j : Job} → get i jobs ≡ some j → get i (modify i f jobs) ≡ some (f j)
  unfolding modify
  get-modify_self [] h = ground arith
  get-modify_self (k ∷ ks) {j} h = ground (arith, keeps k, keeps j, get-modify_self ks {j = j})

  pub get-modify_ne : (k : String) (jobs : List Job) → k ≢ i → get k (modify i f jobs) ≡ get k jobs
  unfolding modify
  get-modify_ne k [] h = refl
  get-modify_ne k (j ∷ js) h = ground (arith, keeps j, get-modify_ne k js)

  -- An id that is not there changes nothing.
  pub modify_absent : (jobs : List Job) → get i jobs ≡ none → modify i f jobs ≡ jobs
  unfolding modify
  modify_absent [] h = refl
  modify_absent (j ∷ js) h = ground (arith, modify_absent js)

pub get-has_id : (i : String) (jobs : List Job) {j : Job} → get i jobs ≡ some j → j.id ≡ i
get-has_id i [] h = ground arith
get-has_id i (k ∷ ks) {j} h = ground (arith, get-has_id i ks {j = j})

pub get-put_self : (j : Job) (jobs : List Job) → get j.id (put j jobs) ≡ some j
unfolding put
get-put_self j [] = ground arith
get-put_self j (k ∷ ks) = ground (arith, get-put_self j ks)

pub get-put_ne :
    (i : String) (j : Job) (jobs : List Job) → i ≢ j.id → get i (put j jobs) ≡ get i jobs
unfolding put
get-put_ne i j [] h = ground arith
get-put_ne i j (k ∷ ks) h = ground (arith, get-put_ne i j ks)

pub get-without_self : (i : String) (jobs : List Job) → get i (without i jobs) ≡ none
get-without_self i [] = refl
get-without_self i (j ∷ js) = ground (arith, get-without_self i js)

pub get-without_ne : (i k : String) (jobs : List Job) → i ≢ k → get i (without k jobs) ≡ get i jobs
get-without_ne i k [] h = refl
get-without_ne i k (j ∷ js) h = ground (arith, get-without_ne i k js)

-- No two jobs have one id.
abbrev pub IdsDistinct : List Job → Type 0
IdsDistinct [] = Unit
IdsDistinct (j ∷ js) = (get j.id js ≡ none) × IdsDistinct js

pub get-keep-none :
    (p : Job → Bool) (i : String) (jobs : List Job) → get i jobs ≡ none → get i (keep p jobs) ≡ none
get-keep-none p i [] h = refl
get-keep-none p i (j ∷ js) h = ground (arith, get-keep-none p i js)

pub keep-IdsDistinct :
    (p : Job → Bool) (jobs : List Job) → IdsDistinct jobs → IdsDistinct (keep p jobs)
keep-IdsDistinct p [] d = tt
keep-IdsDistinct p (j ∷ js) d =
    ground (arith, keep-IdsDistinct p js d.1, get-keep-none p j.id js d.0)

pub put-IdsDistinct : (j : Job) (jobs : List Job) → IdsDistinct jobs → IdsDistinct (put j jobs)
unfolding put
put-IdsDistinct j [] d = (refl, tt)
put-IdsDistinct j (k ∷ ks) d = ground (arith, put-IdsDistinct j ks d.1, get-put_ne k.id j ks)

get-modify-none :
    (i k : String) (f : Job → Job) (jobs : List Job)
    → KeepsId f
    → get k jobs ≡ none
    → get k (modify i f jobs) ≡ none
unfolding modify
get-modify-none i k f [] keeps h = refl
get-modify-none i k f (j ∷ js) keeps h = ground (arith, keeps j, get-modify-none i k f js keeps)

pub modify-IdsDistinct :
    (i : String) (f : Job → Job) (jobs : List Job)
    → KeepsId f
    → IdsDistinct jobs
    → IdsDistinct (modify i f jobs)
unfolding modify
modify-IdsDistinct i f [] keeps d = tt
modify-IdsDistinct i f (j ∷ js) keeps d =
    ground
      (arith, keeps j, modify-IdsDistinct i f js keeps d.1, get-modify-none i j.id f js keeps d.0)

-- Properties of every job.
pub All-keep {κ} :
    (P : Job → Type κ) (p : Job → Bool) (jobs : List Job) → All P jobs → All P (keep p jobs)
All-keep P p [] a = tt
All-keep P p (j ∷ js) a = ground (arith, All-keep P p js a.1)

-- An update of the job under an id.
pub All-modify {κ} :
    (P : Job → Type κ) (i : String) (f : Job → Job) (jobs : List Job)
    → ((j : Job) → get i jobs ≡ some j → P j → P (f j))
    → All P jobs
    → All P (modify i f jobs)
unfolding modify
All-modify P i f [] h a = tt
All-modify P i f (j ∷ js) h a = elim (Bool-cases (has_id i j)) [
  | inl e ↦ rw e (h j (rw e) a.0, a.1)
  | inr e ↦ rw e (a.0, All-modify P i f js (λ k g. h k (rw e g)) a.1)
]

pub All-put {κ} :
    (P : Job → Type κ) (j : Job) (jobs : List Job) → P j → All P jobs → All P (put j jobs)
unfolding put
All-put P j [] p a = (p, tt)
All-put P j (k ∷ ks) p a = ground (arith, All-put P j ks p a.1)

-- With distinct ids, a job that a search finds is the one under its id.
pub get-find :
    (p : Job → Bool) (jobs : List Job) {j : Job}
    → IdsDistinct jobs
    → find p jobs ≡ some j
    → (get j.id jobs ≡ some j) × (p j ≡ true)
get-find p [] d h = absurd (cc)
get-find p (k ∷ ks) {j} d h = elim (Bool-cases (p k)) [
  | inl e ↦ let here : k ≡ j = ground arith in rw (← here) (ground arith, e)
  | inr e ↦
      let (there, hit) = get-find p ks {j = j} d.1 (ground arith) in
      (ground (arith, get-has_id j.id ks there), hit)
]
