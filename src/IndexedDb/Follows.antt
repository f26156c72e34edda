-- ===== src/IndexedDb/Follows.antt =====
-- The calls of the IndexedDB driver and those of the memory driver, on the same jobs.
use ts_queue.Base
use ts_queue.Base.{has-add, has-delete}
use ts_queue.IndexedDb
use ts_queue.IndexedDb.{IndexedDbConnection, put_record, insert_record, last_duplicate, is_paused}
use ts_queue.IndexedDb.Pushes.{SameRecords, push-agree}
use ts_queue.IndexedDb.Records.{mutate-modify, put_record-modify}
use ts_queue.Jobs.Views.{get-keep, get-modify, passed}
use ts_queue.IndexedDb.Same.{choose-same}
use ts_queue.Job.{Job, Dispatch}
use ts_queue.Jobs.{modify, is_due, reserve, in_queue}
use ts_queue.Jobs.Ids.{KeepsId, IdsDistinct, modify-IdsDistinct, keep-IdsDistinct}
use ts_queue.Jobs.Queues.{oldest-keep}
use ts_queue.Memory
use ts_queue.Memory.{MemoryConnection, choose}
use ts_queue.Memory.Invariant.{IsValid}
use ts_queue.Memory.Pop.{get-choose}
use ts_queue.Memory.Steps.{pushes}
use ts_queue.Prelude.{
  ℕ, String, Bool, List, none, ◌≡◌, ◌∙◌, sym, ap, refl, arith, keep, Bool-cases, Option-cases, inl,
  inr, same, if◌then◌else◌,
}
use ts_queue.IndexedDb.Spread.{
  IsTimely, IsSpread, Descends-IsSpread, keep-Descends, modify-Descends, push-IsSpread,
}
use ts_queue.IndexedDb.Kept.{push-IdsDistinct, push_kept, memory_kept}

-- The database holds the jobs of the memory driver, in any order.
pub record Holds (c : IndexedDbConnection) (m : MemoryConnection) : Type 0 where
  pub same_name : c.name ≡ m.name
  pub same_records : SameRecords c.jobs m.jobs
  pub same_paused : (q : String) → is_paused c q ≡ Base.has q m.paused_queues
  pub distinct : IdsDistinct c.jobs
  pub valid : IsValid m
  pub spread : IsSpread m.jobs

-- What a step has to show beside the invariant of the memory driver.
pub record Follows (c' : IndexedDbConnection) (m' : MemoryConnection) : Type 0 where
  pub same_name : c'.name ≡ m'.name
  pub same_records : SameRecords c'.jobs m'.jobs
  pub same_paused : (q : String) → is_paused c' q ≡ Base.has q m'.paused_queues
  pub distinct : IdsDistinct c'.jobs
  pub spread : IsSpread m'.jobs

module _ {c : IndexedDbConnection} {m : MemoryConnection} (v : Holds c m) where
  modify-Follows :
      (id : String) (f : Job → Job)
      → KeepsId f
      → ((j : Job) → (f j).created_at ≡ j.created_at)
      → Follows (record c { jobs = modify id f c.jobs }) (record m { jobs = modify id f m.jobs })
  unfolding is_paused
  modify-Follows id f keeps times = record {
    same_name = v.same_name;
    same_records = λ i.
        ground
          (arith, get-modify id f c.jobs i keeps, get-modify id f m.jobs i keeps, v.same_records i);
    same_paused = v.same_paused;
    distinct = modify-IdsDistinct id f c.jobs keeps v.distinct;
    spread =
        Descends-IsSpread m.jobs (modify id f m.jobs) (modify-Descends id f m.jobs keeps times)
          v.spread;
  }

  pub keep-Follows :
      (p : Job → Bool)
      → Follows (record c { jobs = keep p c.jobs }) (record m { jobs = keep p m.jobs })
  unfolding is_paused
  keep-Follows p = record {
    same_name = v.same_name;
    same_records = λ i.
        get-keep p i c.jobs v.distinct
        ∙ ap (passed p) (v.same_records i)
        ∙ sym (get-keep p i m.jobs v.valid.distinct);
    same_paused = v.same_paused;
    distinct = keep-IdsDistinct p c.jobs v.distinct;
    spread =
        Descends-IsSpread m.jobs (keep p m.jobs) (keep-Descends p m.jobs v.valid.distinct) v.spread;
  }

  pub mutate-Follows :
      (id : String) (f : Job → Job)
      → KeepsId f
      → ((j : Job) → (f j).created_at ≡ j.created_at)
      → Follows (IndexedDb.mutate c id f) (record m { jobs = modify id f m.jobs })
  mutate-Follows id f keeps times =
      rw (mutate-modify c id f keeps) (modify-Follows id f keeps times)

  same_choice : (queue : String) (now : ℕ) → IndexedDb.scan c queue now ≡ choose queue now m.jobs
  unfolding IndexedDb.scan
  same_choice queue now =
      sym (oldest-keep (in_queue queue) (is_due now) none c.jobs)
      ∙ choose-same queue now c.jobs m.jobs v.same_records v.distinct v.valid.distinct
          v.spread.apart

  idle-Follows : Follows c m
  idle-Follows = record {
    same_name = v.same_name;
    same_records = v.same_records;
    same_paused = v.same_paused;
    distinct = v.distinct;
    spread = v.spread;
  }

  pub pop-Follows :
      (queue : String) (now : ℕ)
      → ((IndexedDb.pop c queue now now).1 ≡ (Memory.pop m queue now).1)
        × Follows (IndexedDb.pop c queue now now).0 (Memory.pop m queue now).0
  unfolding IndexedDb.pop Memory.pop IndexedDb.commit
  pop-Follows queue now = elim (Bool-cases (Base.has queue m.paused_queues)) [
    | inl p ↦ rw (v.same_paused queue, p, IndexedDb.pop, Memory.pop) (refl, idle-Follows)
    | inr p ↦ elim (Option-cases (choose queue now m.jobs)) [
      | inl e ↦
          rw (v.same_paused queue, p, same_choice queue now, e, IndexedDb.pop, Memory.pop)
            (refl, idle-Follows)
      | inr (n, e) ↦
          let there = v.same_records n.id ∙ get-choose queue now m.jobs v.valid.distinct e in
          rw
            (
              v.same_paused queue,
              p,
              same_choice queue now,
              e,
              IndexedDb.pop,
              Memory.pop,
              put_record-modify (reserve now) n.id c.jobs (λ _. refl) there,
            )
            (refl, modify-Follows n.id (reserve now) (λ _. refl) (λ _. refl))
    ]
  ]

  pub set-Follows :
      (queue : String) (paused : Bool) (queues : List String)
      → ((q : String)
          → Base.has q queues ≡ (if same queue q then paused else Base.has q m.paused_queues))
      → Follows (IndexedDb.write_meta c queue paused) (record m { paused_queues = queues })
  unfolding IndexedDb.write_meta is_paused
  set-Follows queue paused queues h = record {
    same_name = v.same_name;
    same_records = v.same_records;
    same_paused = λ q. elim (Bool-cases (same queue q)) [
      | inl e ↦ rw (h q, e) refl
      | inr e ↦ rw (h q, e) (v.same_paused q)
    ];
    distinct = v.distinct;
    spread = v.spread;
  }

  pub push-Follows :
      (args : Dispatch)
      → IsTimely m (pushes args)
      → Follows (IndexedDb.push c args).0 (Memory.push m args).0
  push-Follows args timely =
      let (ids, records) =
        push-agree c m args v.same_name v.same_records v.distinct v.valid.distinct v.valid.unique
          v.spread.named in
      let (name, paused) = push_kept c args in
      let (name', paused') = memory_kept m args in
      record {
        same_name = name ∙ v.same_name ∙ sym name';
        same_records = records;
        same_paused = λ q. paused q ∙ v.same_paused q ∙ ap (Base.has q) (sym paused');
        distinct = push-IdsDistinct c args v.distinct;
        spread = push-IsSpread m args timely v.spread;
      }
