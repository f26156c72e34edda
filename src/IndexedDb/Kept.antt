-- ===== src/IndexedDb/Kept.antt =====
-- What a `push` keeps: distinct ids, the name of the connection, and the paused queues.
use ts_queue.IndexedDb
use ts_queue.IndexedDb.{IndexedDbConnection, put_record, insert_record, last_duplicate, is_paused}
use ts_queue.IndexedDb.Pushes.{push-keyed, push-unkeyed, get-insert_record}
use ts_queue.Job.{Job, Dispatch, create_queued_job, no_defaults, truthy}
use ts_queue.Jobs.{get, find_duplicate}
use ts_queue.Jobs.Ids.{IdsDistinct, put-IdsDistinct}
use ts_queue.Memory
use ts_queue.Memory.{MemoryConnection, choose}
use ts_queue.Payload.{text_leb, units}
use ts_queue.Prelude.{
  String, List, [], ◌∷◌, none, ◌≡◌, refl, arith, Bool-cases, Option-cases, inl, inr,
}

insert_record-IdsDistinct :
    (j : Job) (jobs : List Job)
    → get j.id jobs ≡ none
    → IdsDistinct jobs
    → IdsDistinct (insert_record j jobs)
unfolding insert_record
insert_record-IdsDistinct j [] h d = (refl, tt)
insert_record-IdsDistinct j (k ∷ ks) h d = elim (Bool-cases (text_leb (units j.id) (units k.id))) [
  | inl e ↦ rw (e, insert_record) (h, d)
  | inr e ↦
      rw (e, insert_record)
        (
          ground (arith, h, d.0, get-insert_record j ks k.id),
          insert_record-IdsDistinct j ks (ground (arith, h)) d.1,
        )
]

pub put_record-IdsDistinct :
    (j : Job) (jobs : List Job) → IdsDistinct jobs → IdsDistinct (put_record j jobs)
unfolding put_record
put_record-IdsDistinct j jobs d = elim (Option-cases (get j.id jobs)) [
  | inl e ↦ rw (e, put_record) (insert_record-IdsDistinct j jobs e d)
  | inr (k, e) ↦ rw (e, put_record) (put-IdsDistinct j jobs d)
]

pub push-IdsDistinct :
    (c : IndexedDbConnection) (args : Dispatch)
    → IdsDistinct c.jobs
    → IdsDistinct (IndexedDb.push c args).0.jobs
push-IdsDistinct c args d = elim (Option-cases (truthy job.unique_id)) [
  | inl t ↦ rw (push-unkeyed c args t) (put_record-IdsDistinct job c.jobs d)
  | inr (u, t) ↦ elim (Option-cases (truthy (last_duplicate u none c.jobs))) [
    | inl l ↦ rw (push-keyed c args t, l) (put_record-IdsDistinct job c.jobs d)
    | inr (id, l) ↦ rw (push-keyed c args t, l) d
  ]
]
  where
    job : Job
    job = create_queued_job c.name no_defaults args

pub push_kept :
    (c : IndexedDbConnection) (args : Dispatch)
    → ((IndexedDb.push c args).0.name ≡ c.name)
      × ((q : String) → is_paused (IndexedDb.push c args).0 q ≡ is_paused c q)
unfolding is_paused
push_kept c args = elim (Option-cases (truthy job.unique_id)) [
  | inl t ↦ rw (push-unkeyed c args t) (refl, λ q. refl)
  | inr (u, t) ↦ elim (Option-cases (truthy (last_duplicate u none c.jobs))) [
    | inl l ↦ rw (push-keyed c args t, l) (refl, λ q. refl)
    | inr (id, l) ↦ rw (push-keyed c args t, l) (refl, λ q. refl)
  ]
]
  where
    job : Job
    job = create_queued_job c.name no_defaults args

pub memory_kept :
    (m : MemoryConnection) (args : Dispatch)
    → ((Memory.push m args).0.name ≡ m.name)
      × ((Memory.push m args).0.paused_queues ≡ m.paused_queues)
unfolding Memory.push
memory_kept m args =
    elim (Option-cases (find_duplicate (create_queued_job m.name no_defaults args) m.jobs)) [
      | inl e ↦ rw (e, Memory.push) (refl, refl)
      | inr (k, e) ↦ rw (e, Memory.push) (refl, refl)
    ]
