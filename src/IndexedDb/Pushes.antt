-- ===== src/IndexedDb/Pushes.antt =====
-- `push` of the IndexedDB driver against the memory driver, whatever the order of the records.
use ts_queue.IndexedDb
use ts_queue.IndexedDb.{IndexedDbConnection, insert_record, put_record, last_duplicate}
use ts_queue.IndexedDb.Twins.{last_duplicate-cases, find-Twin}
use ts_queue.Job.{Job, Dispatch, create_queued_job, no_defaults, truthy}
use ts_queue.Jobs.{get, put, is_duplicate, find_duplicate}
use ts_queue.Jobs.Views.{get-put, All-get}
use ts_queue.Jobs.Ids.{IdsDistinct, get-find}
use ts_queue.Jobs.Unique.{UniqueInFlight}
use ts_queue.Memory
use ts_queue.Memory.{MemoryConnection}
use ts_queue.Prelude.{
  String, false, List, [], ◌∷◌, Option, none, some, ◌≡◌, ◌⊎◌, ◌∙◌, sym, ap, refl, arith, find,
  find-none-All, Option-cases, inl, inr, same, if◌then◌else◌,
}

pub get-insert_record :
    (j : Job) (jobs : List Job) (i : String)
    → get j.id jobs ≡ none
    → get i (insert_record j jobs) ≡ (if same j.id i then some j else get i jobs)
unfolding insert_record
get-insert_record j [] i h = refl
get-insert_record j (k ∷ ks) i h = ground (arith, get-insert_record j ks i, h)

pub get-put_record :
    (j : Job) (jobs : List Job) (i : String)
    → get i (put_record j jobs) ≡ (if same j.id i then some j else get i jobs)
unfolding put_record
get-put_record j jobs i = elim (Option-cases (get j.id jobs)) [
  | inl e ↦ rw (e, put_record) (get-insert_record j jobs i e)
  | inr (k, e) ↦ rw (e, put_record) (get-put j jobs i)
]

-- The records are the jobs, in any order.
abbrev pub SameRecords : List Job → List Job → Type 0
SameRecords records jobs = (i : String) → get i records ≡ get i jobs

-- The scans agree on the id.
same_twin :
    (u : String) (records jobs : List Job)
    → truthy (some u) ≡ some u
    → SameRecords records jobs
    → IdsDistinct records
    → IdsDistinct jobs
    → UniqueInFlight jobs
    → (find (is_duplicate u) jobs ≡ none) × (last_duplicate u none records ≡ none)
      ⊎ ((k : Job) × (find (is_duplicate u) jobs ≡ some k)
          × (last_duplicate u none records ≡ some k.id)
          × (get k.id jobs ≡ some k))
same_twin u records jobs t s d d' f = elim (Option-cases (find (is_duplicate u) jobs)) [
  | inl e ↦ elim (last_duplicate-cases u none records d) [
    | inl (l, a) ↦ inl (e, l)
    | inr (k, l, w) ↦
        let no : is_duplicate u k ≡ false =
          All-get (λ x. is_duplicate u x ≡ false) k.id jobs (find-none-All (is_duplicate u) jobs e)
            (sym (s k.id) ∙ w.stored) in
        absurd (ground (arith, no, w.twin))
  ]
  | inr (j, e) ↦
      let (g, p) = get-find (is_duplicate u) jobs d' e in
      elim (last_duplicate-cases u none records d) [
        | inl (l, a) ↦
            let no : is_duplicate u j ≡ false =
              All-get (λ x. is_duplicate u x ≡ false) j.id records a (s j.id ∙ g) in
            absurd (ground (arith, no, p))
        | inr (k, l, w) ↦
            let q : j ≡ k = find-Twin u k.id jobs t f e (sym (s k.id) ∙ w.stored) w.twin in
            inr (j, e, l ∙ ap (λ (x : Job). some x.id) (sym q), g)
      ]
]

-- What both pushes return, and the jobs that they leave.
abbrev pub Agrees : IndexedDbConnection × String → MemoryConnection × String → Type 0
Agrees (c, id) (m, id') = (id ≡ id') × SameRecords c.jobs m.jobs

both_insert :
    (j : Job) (c : IndexedDbConnection) (m : MemoryConnection)
    → SameRecords c.jobs m.jobs
    → Agrees
        (record c { jobs = put_record j c.jobs }, j.id)
        (record m { jobs = put j m.jobs }, j.id)
both_insert j c m s =
    (refl, λ i. ground (arith, get-put_record j c.jobs i, get-put j m.jobs i, s i))

truthy_id : (s : String) → ¬ (s ≡ "") → truthy (some s) ≡ some s
truthy_id String.[] h = absurd (h refl)
truthy_id (String.◌∷◌ x s) h = refl

truthy_key : (o : Option String) {u : String} → truthy o ≡ some u → truthy (some u) ≡ some u
truthy_key none h = absurd (cc)
truthy_key (some String.[]) h = absurd (cc)
truthy_key (some (String.◌∷◌ x s)) {u} h = ap truthy (sym h) ∙ h

-- The outcomes of a push of the database, for the job that the dispatch builds.
abbrev pub inserted : IndexedDbConnection → Job → IndexedDbConnection × String
inserted c job = (record c { jobs = put_record job c.jobs }, job.id)

pub push-unkeyed :
    (c : IndexedDbConnection) (args : Dispatch)
    → truthy (create_queued_job c.name no_defaults args).unique_id ≡ none
    → IndexedDb.push c args ≡ inserted c (create_queued_job c.name no_defaults args)
unfolding IndexedDb.push
push-unkeyed c args t = rw (t, IndexedDb.push) refl

pub push-keyed :
    (c : IndexedDbConnection) (args : Dispatch) {u : String}
    → truthy (create_queued_job c.name no_defaults args).unique_id ≡ some u
    → IndexedDb.push c args
      ≡ (elim (truthy (last_duplicate u none c.jobs)) as (λ _. IndexedDbConnection × String) [
        | none ↦ inserted c (create_queued_job c.name no_defaults args)
        | some id ↦ (c, id)
      ])
unfolding IndexedDb.push
push-keyed c args t = rw (t, IndexedDb.push) refl

find_duplicate-keyed :
    (job : Job) (jobs : List Job) {u : String}
    → truthy job.unique_id ≡ some u
    → find_duplicate job jobs ≡ find (is_duplicate u) jobs
unfolding find_duplicate
find_duplicate-keyed job jobs t = rw (t, find_duplicate) refl

find_duplicate-unkeyed :
    (job : Job) (jobs : List Job) → truthy job.unique_id ≡ none → find_duplicate job jobs ≡ none
unfolding find_duplicate
find_duplicate-unkeyed job jobs t = rw (t, find_duplicate) refl

memory_stores :
    (m : MemoryConnection) (args : Dispatch)
    → find_duplicate (create_queued_job m.name no_defaults args) m.jobs ≡ none
    → let job = create_queued_job m.name no_defaults args in
      Memory.push m args ≡ (record m { jobs = put job m.jobs }, job.id)
unfolding Memory.push
memory_stores m args e = rw (e, Memory.push) refl

memory_finds :
    (m : MemoryConnection) (args : Dispatch) {k : Job}
    → find_duplicate (create_queued_job m.name no_defaults args) m.jobs ≡ some k
    → Memory.push m args ≡ (m, k.id)
unfolding Memory.push
memory_finds m args e = rw (e, Memory.push) refl

-- A database of the same name that holds the jobs of a memory connection, in any order, where ids
-- are distinct and not empty and deduplication ids are unique in flight: a dispatch returns the same
-- id from both drivers, and leaves the same jobs in both.
pub push-agree :
    (c : IndexedDbConnection) (m : MemoryConnection) (args : Dispatch)
    → c.name ≡ m.name
    → SameRecords c.jobs m.jobs
    → IdsDistinct c.jobs
    → IdsDistinct m.jobs
    → UniqueInFlight m.jobs
    → get "" m.jobs ≡ none
    → Agrees (IndexedDb.push c args) (Memory.push m args)
push-agree c m args n s d d' f named = elim (Option-cases (truthy job.unique_id)) [
  | inl t ↦
      rw
        (
          push-unkeyed c args t,
          memory_stores m args (find_duplicate-unkeyed job' m.jobs (rw n at t)),
        )
        (rw n (both_insert job' c m s))
  | inr (u, t) ↦ elim (same_twin u c.jobs m.jobs (truthy_key job.unique_id t) s d d' f) [
    | inl (e, l) ↦
        rw
          (
            push-keyed c args t,
            l,
            memory_stores m args (find_duplicate-keyed job' m.jobs (rw n at t) ∙ e),
          )
          (rw n (both_insert job' c m s))
    | inr (k, e, l, g) ↦
        rw
          (
            push-keyed c args t,
            l,
            truthy_id k.id (λ z. absurd (ground (arith, named, g, z))),
            memory_finds m args (find_duplicate-keyed job' m.jobs (rw n at t) ∙ e),
          )
          (refl, s)
  ]
]
  where
    job : Job
    job = create_queued_job c.name no_defaults args

    job' : Job
    job' = create_queued_job m.name no_defaults args
