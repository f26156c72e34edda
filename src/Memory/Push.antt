-- ===== src/Memory/Push.antt =====
-- What `push` of the memory driver stores, and when it does not.
use ts_queue.Job.{Job, Dispatch, create_queued_job, no_defaults, is_in_flight, truthy}
use ts_queue.Jobs.{get, put, find_duplicate, is_duplicate}
use ts_queue.Jobs.Ids.{get-put_self, get-put_ne, IdsDistinct, get-find}
use ts_queue.Jobs.Unique.{NoClash, find_duplicate-none-All}
use ts_queue.Memory.{MemoryConnection, push}
use ts_queue.Prelude.{
  String, true, List, none, some, ◌≡◌, ◌≢◌, refl, arith, All, find, Option-cases, inl, inr, ◌⊎◌,
}

-- The job that a dispatch on this connection builds.
abbrev pub built : MemoryConnection → Dispatch → Job
built c args = create_queued_job c.name no_defaults args

-- The dispatch is a duplicate of the stored job `twin`.
pub record Deduplicates (c : MemoryConnection) (args : Dispatch) (r : MemoryConnection × String)
    : Type 0 where
  pub twin : Job
  pub key : String
  pub keyed : truthy (built c args).unique_id ≡ some key
  pub stored_twin : get twin.id c.jobs ≡ some twin
  pub twin_keyed : twin.unique_id ≡ some key
  pub twin_in_flight : is_in_flight twin.status ≡ true
  pub result : r ≡ (c, twin.id)

-- The dispatch stores its job.
pub record Enqueues (c : MemoryConnection) (args : Dispatch) (r : MemoryConnection × String)
    : Type 0 where
  pub id : r.1 ≡ args.fresh_id
  pub stored : get args.fresh_id r.0.jobs ≡ some (built c args)
  pub others : (i : String) → i ≢ args.fresh_id → get i r.0.jobs ≡ get i c.jobs
  pub no_twin : All (NoClash (built c args)) c.jobs
  pub paused : r.0.paused_queues ≡ c.paused_queues

find_duplicate-some :
    (job : Job) (jobs : List Job) {k : Job}
    → find_duplicate job jobs ≡ some k
    → (u : String) × (truthy job.unique_id ≡ some u) × (find (is_duplicate u) jobs ≡ some k)
unfolding find_duplicate
find_duplicate-some job jobs h = elim (Option-cases (truthy job.unique_id)) [
  | inl t ↦ absurd (cc (rw (t, find_duplicate) at h))
  | inr (u, t) ↦ (u, t, rw (t, find_duplicate) at h)
]

pub duplicate_parts :
    (u : String) (k : Job)
    → is_duplicate u k ≡ true
    → (k.unique_id ≡ some u) × (is_in_flight k.status ≡ true)
duplicate_parts u k h = ground arith

-- With distinct ids, `push` either returns the id of a job in flight with the deduplication id of the new one and
-- changes nothing, or stores the new job under its fresh id, beside all others, when no job in
-- flight has its deduplication id.
pub push_lem :
    (c : MemoryConnection) (args : Dispatch)
    → IdsDistinct c.jobs
    → Deduplicates c args (push c args) ⊎ Enqueues c args (push c args)
unfolding push
push_lem c args d = elim (Option-cases (find_duplicate (built c args) c.jobs)) [
  | inr (k, e) ↦
      let (u, t, f) = find_duplicate-some (built c args) c.jobs e in
      let (there, hit) = get-find (is_duplicate u) c.jobs d f in
      inl (record {
        twin = k;
        key = u;
        keyed = t;
        stored_twin = there;
        twin_keyed = (duplicate_parts u k hit).0;
        twin_in_flight = (duplicate_parts u k hit).1;
        result = rw (e, push);
      })
  | inl e ↦ inr (rw (e, push) (enqueues e))
]
  where
    enqueues :
        find_duplicate (built c args) c.jobs ≡ none
        → Enqueues c args (record c { jobs = put (built c args) c.jobs }, (built c args).id)
    enqueues e = record {
      id = refl;
      stored = get-put_self (built c args) c.jobs;
      others = λ i ne. get-put_ne i (built c args) c.jobs ne;
      no_twin = find_duplicate-none-All (built c args) c.jobs e;
      paused = refl;
    }
