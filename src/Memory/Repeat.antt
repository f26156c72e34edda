-- ===== src/Memory/Repeat.antt =====
-- A dispatch that is made twice.
use ts_queue.Job.{Job, Dispatch, create_queued_job, dedup_id, no_defaults}
use ts_queue.Jobs.{put, find_duplicate, is_duplicate}
use ts_queue.Memory.{MemoryConnection, push}
use ts_queue.Payload.Reordered.{Reordered}
use ts_queue.Prelude.{
  ℕ, String, true, List, [], ◌∷◌, none, some, ◌≡◌, refl, sym, arith, find, Option-cases, inl, inr,
  ◌∙◌, ap, subst,
}
use ts_queue.UniqueId.{compute_unique_id}
use ts_queue.UniqueId.Laws.{compute_unique_id-Reordered, truthy-computed}

-- The dispatch asks for deduplication and leaves the id to the library.
pub record IsDerived (args : Dispatch) : Type 0 where
  pub window : ℕ
  pub asks : args.options.unique_for ≡ some window
  pub unnamed : args.options.unique_id ≡ none

find-put :
    (u : String) (j : Job) (jobs : List Job)
    → find (is_duplicate u) jobs ≡ none
    → is_duplicate u j ≡ true
    → find (is_duplicate u) (put j jobs) ≡ some j
unfolding put
find-put u j [] h d = ground arith
find-put u j (k ∷ ks) h d = ground (arith, find-put u j ks)

abbrev key_of : Dispatch → String
key_of args = compute_unique_id args.name args.payload

dedup_id-derived :
    (args : Dispatch)
    → IsDerived args
    → dedup_id args.name args.payload args.options ≡ some (key_of args)
unfolding dedup_id
dedup_id-derived args d = rw (d.asks, d.unnamed) refl

abbrev built : MemoryConnection → Dispatch → Job
built c args = create_queued_job c.name no_defaults args

-- Such a dispatch is compared by the id that is derived.
find_duplicate-derived :
    (c : MemoryConnection) (args : Dispatch) (jobs : List Job)
    → IsDerived args
    → find_duplicate (built c args) jobs ≡ find (is_duplicate (key_of args)) jobs
unfolding find_duplicate create_queued_job
find_duplicate-derived c args jobs d =
    rw (dedup_id-derived args d, truthy-computed args.name args.payload, find_duplicate) refl

built-duplicate :
    (c : MemoryConnection) (args : Dispatch)
    → IsDerived args
    → is_duplicate (key_of args) (built c args) ≡ true
unfolding create_queued_job
built-duplicate c args d = ground (arith, dedup_id-derived args d)

push-duplicate :
    (c : MemoryConnection) (args : Dispatch) {k : Job}
    → IsDerived args
    → find (is_duplicate (key_of args)) c.jobs ≡ some k
    → push c args ≡ (c, k.id)
unfolding push
push-duplicate c args d e = rw (find_duplicate-derived c args c.jobs d ∙ e, push) refl

push-new :
    (c : MemoryConnection) (args : Dispatch)
    → find_duplicate (built c args) c.jobs ≡ none
    → push c args ≡ (record c { jobs = put (built c args) c.jobs }, (built c args).id)
unfolding push
push-new c args e = rw (e, push) refl

-- Two dispatches under one name whose payloads differ in the order of their properties only, both
-- of which ask for deduplication and leave the id to the library: right after the first one, the
-- second changes nothing and returns the id that the first one returned.
pub push-again :
    (c : MemoryConnection) (first second : Dispatch)
    → IsDerived first
    → IsDerived second
    → second.name ≡ first.name
    → Reordered first.payload second.payload
    → let (c', id) = push c first in push c' second ≡ (c', id)
push-again c first second d d' named same_data =
    elim (Option-cases (find_duplicate (built c first) c.jobs)) [
      | inr (k, e) ↦
          let hit = sym (find_duplicate-derived c first c.jobs d) ∙ e in
          subst (λ (r : MemoryConnection × String). push r.0 second ≡ r)
            (sym (push-duplicate c first d hit))
            (push-duplicate c second d' (same_key c.jobs ∙ hit))
      | inl e ↦
          let miss = sym (find_duplicate-derived c first c.jobs d) ∙ e in
          subst (λ (r : MemoryConnection × String). push r.0 second ≡ r) (sym (push-new c first e))
            (push-duplicate (record c { jobs = put (built c first) c.jobs }) second d'
              (same_key (put (built c first) c.jobs)
                ∙ find-put (key_of first) (built c first) c.jobs miss (built-duplicate c first d)))
    ]
  where
    same_key :
        (jobs : List Job)
        → find (is_duplicate (key_of second)) jobs ≡ find (is_duplicate (key_of first)) jobs
    same_key jobs =
        ap (λ u. find (is_duplicate u) jobs)
          (ap (λ n. compute_unique_id n second.payload) named
            ∙ sym (compute_unique_id-Reordered first.name first.payload second.payload same_data))
