-- ===== src/Jobs/Unique.antt =====
-- The jobs in flight under one deduplication id.
use ts_queue.Job.{Job, is_in_flight, truthy}
use ts_queue.Jobs.{get, put, modify, has_id, find_duplicate, is_duplicate}
use ts_queue.Jobs.Ids.{All-modify, All-put, All-keep}
use ts_queue.Prelude.{
  String, Bool, true, false, List, [], ◌∷◌, Option, none, some, ◌≡◌, ◌≢◌, sym, ◌∙◌, ap, arith, keep,
  find-none-All, All-imp, All-of, All, Bool-cases, Option-cases, inl, inr,
}

-- Not both are in flight under one deduplication id.
abbrev pub NoClash : Job → Job → Type 0
NoClash j k =
    (u : String)
    → is_in_flight j.status ≡ true
    → is_in_flight k.status ≡ true
    → truthy j.unique_id ≡ some u
    → k.unique_id ≢ some u

abbrev pub UniqueInFlight : List Job → Type 0
UniqueInFlight [] = Unit
UniqueInFlight (j ∷ js) = All (NoClash j) js × UniqueInFlight js

truthy-some : (o : Option String) {u : String} → truthy o ≡ some u → o ≡ some u
truthy-some none h = cc
truthy-some (some String.[]) h = cc
truthy-some (some (String.◌∷◌ c s)) h = h

NoClash-sym : (j k : Job) → NoClash j k → NoClash k j
NoClash-sym j k h u fk fj tk ej =
    h u fj fk (ap truthy (ej ∙ sym (truthy-some k.unique_id tk)) ∙ tk) (truthy-some k.unique_id tk)

not_duplicate :
    (k : Job) (u : String)
    → is_duplicate u k ≡ false
    → is_in_flight k.status ≡ true
    → k.unique_id ≢ some u
not_duplicate k u d f = ground arith

-- The scan of `push` finds nothing only if the new job clashes with none.
pub find_duplicate-none-All :
    (j : Job) (jobs : List Job) → find_duplicate j jobs ≡ none → All (NoClash j) jobs
unfolding find_duplicate
find_duplicate-none-All j jobs h = elim (Option-cases (truthy j.unique_id)) [
  | inl t ↦ All-of (λ k u fj fk tj. cc) jobs
  | inr (v, t) ↦
      All-imp (λ k d u fj fk tj ek. absurd (not_duplicate k v d fk (ground arith))) jobs
        (find-none-All (is_duplicate v) jobs (rw (t, find_duplicate) at h))
]

-- A job that clashes with none may be stored.
pub put-UniqueInFlight :
    (j : Job) (jobs : List Job)
    → All (NoClash j) jobs
    → UniqueInFlight jobs
    → UniqueInFlight (put j jobs)
unfolding put
put-UniqueInFlight j [] a u = (tt, tt)
put-UniqueInFlight j (k ∷ ks) a u = elim (Bool-cases (has_id j.id k)) [
  | inl e ↦ rw e (a.1, u.1)
  | inr e ↦
      rw e (All-put (NoClash k) j ks (NoClash-sym j k a.0) u.0, put-UniqueInFlight j ks a.1 u.1)
]

pub keep-UniqueInFlight :
    (p : Job → Bool) (jobs : List Job) → UniqueInFlight jobs → UniqueInFlight (keep p jobs)
keep-UniqueInFlight p [] u = tt
keep-UniqueInFlight p (j ∷ js) u =
    ground (arith, keep-UniqueInFlight p js u.1, All-keep (NoClash j) p js u.0)

-- An update that keeps the deduplication id and puts no settled job back in flight.
pub modify-UniqueInFlight :
    (i : String) (f : Job → Job) (jobs : List Job)
    → ((j : Job) → (f j).unique_id ≡ j.unique_id)
    → ((j : Job)
        → get i jobs ≡ some j
        → is_in_flight (f j).status ≡ true
        → is_in_flight j.status ≡ true)
    → UniqueInFlight jobs
    → UniqueInFlight (modify i f jobs)
unfolding modify
modify-UniqueInFlight i f [] keeps drops u = tt
modify-UniqueInFlight i f (j ∷ js) keeps drops u = elim (Bool-cases (has_id i j)) [
  | inl e ↦ rw e (
    All-imp (λ k n w fj fk tj. n w (drops j (rw e) fj) fk (ap truthy (sym (keeps j)) ∙ tj)) js u.0,
    u.1,
  )
  | inr e ↦ rw e (
    All-modify (NoClash j) i f js
        (λ k g n w fj fk tj. rw (keeps k) (n w fj (drops k (rw e g) fk) tj)) u.0,
    modify-UniqueInFlight i f js keeps (λ k g. drops k (rw e g)) u.1,
  )
]
