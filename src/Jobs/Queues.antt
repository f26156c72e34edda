-- ===== src/Jobs/Queues.antt =====
-- The jobs of one queue: what the scans and updates of the whole collection do to them.
use ts_queue.Job.{Job, truthy}
use ts_queue.Jobs.{
  get, put, without, modify, oldest, find_duplicate, is_duplicate, in_queue, has_id,
}
use ts_queue.Jobs.Ids.{IdsDistinct, get-keep-none}
use ts_queue.Prelude.{
  String, Bool, true, false, not, ◌&&◌, List, [], ◌∷◌, ◌++◌, Option, none, some, ◌≡◌, ◌≢◌, refl,
  arith, keep, find, count, All, All-imp, Option-cases, inl, inr,
}

pub oldest-keep :
    (p due : Job → Bool) (n : Option Job) (jobs : List Job)
    → oldest (λ j. p j && due j) n jobs ≡ oldest due n (keep p jobs)
unfolding oldest
oldest-keep p due n [] = refl
oldest-keep p due n (j ∷ js) =
    ground (arith, oldest-keep p due n js, oldest-keep p due (ts_queue.Jobs.earlier n j) js)

pub count-keep :
    (p q : Job → Bool) (jobs : List Job) → count (λ j. p j && q j) jobs ≡ count q (keep p jobs)
count-keep p q [] = refl
count-keep p q (j ∷ js) = ground (arith, count-keep p q js)

pub keep-append : (p : Job → Bool) (xs ys : List Job) → keep p (xs ++ ys) ≡ keep p xs ++ keep p ys
keep-append p [] ys = refl
keep-append p (x ∷ xs) ys = ground (arith, keep-append p xs ys)

-- A new id goes to the end.
pub put_absent : (j : Job) (jobs : List Job) → get j.id jobs ≡ none → put j jobs ≡ jobs ++ j ∷ []
unfolding put
put_absent j [] h = refl
put_absent j (k ∷ ks) h = ground (arith, put_absent j ks)

module _ (p : Job → Bool) (i : String) (f : Job → Job)
    (same_queue : (j : Job) → p (f j) ≡ p j) where
  pub keep-modify_in :
      (jobs : List Job) {j : Job}
      → get i jobs ≡ some j
      → p j ≡ true
      → keep p (modify i f jobs) ≡ modify i f (keep p jobs)
  unfolding modify
  keep-modify_in [] h e = refl
  keep-modify_in (k ∷ ks) {j} h e =
      ground (arith, same_queue k, same_queue j, keep-modify_in ks {j = j})

  pub keep-modify_out :
      (jobs : List Job) {j : Job}
      → get i jobs ≡ some j
      → p j ≡ false
      → keep p (modify i f jobs) ≡ keep p jobs
  unfolding modify
  keep-modify_out [] h e = refl
  keep-modify_out (k ∷ ks) {j} h e =
      ground (arith, same_queue k, same_queue j, keep-modify_out ks {j = j})

pub keep-without :
    (p : Job → Bool) (i : String) (jobs : List Job)
    → keep p (without i jobs) ≡ without i (keep p jobs)
keep-without p i [] = refl
keep-without p i (j ∷ js) = ground (arith, keep-without p i js)

pub without_absent : (i : String) (jobs : List Job) → get i jobs ≡ none → without i jobs ≡ jobs
without_absent i [] h = refl
without_absent i (j ∷ js) h = ground (arith, without_absent i js)

pub get-keep_in :
    (p : Job → Bool) (i : String) (jobs : List Job) {j : Job}
    → get i jobs ≡ some j
    → p j ≡ true
    → get i (keep p jobs) ≡ some j
get-keep_in p i [] h e = h
get-keep_in p i (k ∷ ks) {j} h e = ground (arith, get-keep_in p i ks {j = j})

pub get-keep_out :
    (p : Job → Bool) (i : String) (jobs : List Job) {j : Job}
    → IdsDistinct jobs
    → get i jobs ≡ some j
    → p j ≡ false
    → get i (keep p jobs) ≡ none
get-keep_out p i [] d h e = refl
get-keep_out p i (k ∷ ks) {j} d h e =
    ground (arith, get-keep_out p i ks {j = j} d.1, get-keep-none p k.id ks d.0)

-- The deduplication id of the new job is not in flight on another queue.
abbrev pub OthersClear : Job → List Job → Type 0
OthersClear job jobs =
    All
      (λ k.
        in_queue job.queue k ≡ false
        → (u : String) → truthy job.unique_id ≡ some u
        → is_duplicate u k ≡ false)
      jobs

find-keep :
    (p q : Job → Bool) (jobs : List Job)
    → All (λ k. p k ≡ false → q k ≡ false) jobs
    → find q jobs ≡ find q (keep p jobs)
find-keep p q [] a = refl
find-keep p q (j ∷ js) a = ground (arith, a.0, find-keep p q js a.1)

pub find_duplicate-keep :
    (job : Job) (jobs : List Job)
    → OthersClear job jobs
    → find_duplicate job jobs ≡ find_duplicate job (keep (in_queue job.queue) jobs)
unfolding find_duplicate
find_duplicate-keep job jobs a = elim (Option-cases (truthy job.unique_id)) [
  | inl t ↦ rw (t, find_duplicate)
  | inr (u, t) ↦
      rw (t, find_duplicate)
        (find-keep (in_queue job.queue) (is_duplicate u) jobs (All-imp (λ k h e. h e u t) jobs a))
]

-- A cleared queue.
pub keep-drop_in :
    (q : String) (jobs : List Job) → keep (in_queue q) (keep (λ j. not (in_queue q j)) jobs) ≡ []
keep-drop_in q [] = refl
keep-drop_in q (j ∷ js) = ground (arith, keep-drop_in q js)

pub keep-drop_out :
    (q r : String) (jobs : List Job)
    → r ≢ q
    → keep (in_queue r) (keep (λ j. not (in_queue q j)) jobs) ≡ keep (in_queue r) jobs
keep-drop_out q r [] h = refl
keep-drop_out q r (j ∷ js) h = ground (arith, keep-drop_out q r js h)
