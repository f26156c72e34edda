-- ===== src/IndexedDb/Spread.antt =====
-- Creation times and ids over the calls of a history.
use ts_queue.IndexedDb.Same.{TimesDistinct}
use ts_queue.Jobs.Views.{get-put, get-keep, get-modify}
use ts_queue.Job.{Job, Dispatch, create_queued_job, no_defaults}
use ts_queue.Jobs.{get, put, modify, find_duplicate}
use ts_queue.Jobs.Ids.{KeepsId, IdsDistinct}
use ts_queue.Memory
use ts_queue.Memory.{MemoryConnection, choose}
use ts_queue.Memory.Steps
use ts_queue.Memory.Steps.{
  Call, pushes, pops, removes, releases, fails, clears, closes, pauses, resumes,
}
use ts_queue.Prelude.{
  String, Bool, List, [], ◌∷◌, none, some, ◌≡◌, ◌≢◌, ◌∙◌, sym, arith, keep, Bool-cases,
  Option-cases, inl, inr, same, if◌then◌else◌,
}

-- The calls of a history: every dispatch has an id and a time of its own, and the database stays
-- open.
abbrev pub IsTimely : MemoryConnection → Call → Type 0
IsTimely m (pushes args) =
    (args.fresh_id ≢ "")
    × (get args.fresh_id m.jobs ≡ none)
    × ((i : String) (j : Job) → get i m.jobs ≡ some j → j.created_at ≢ args.now)
IsTimely m closes = ⊥
IsTimely m _ = Unit

abbrev pub AllTimely : MemoryConnection → List Call → Type 0
AllTimely m [] = Unit
AllTimely m (call ∷ calls) = IsTimely m call × AllTimely (Steps.step m call).0 calls

-- Ids are not empty, and creation times differ.
pub record IsSpread (jobs : List Job) : Type 0 where
  pub named : get "" jobs ≡ none
  pub apart : TimesDistinct jobs

-- Every job was there before, with its creation time.
abbrev pub Descends : List Job → List Job → Type 0
Descends old new =
    (i : String) (j : Job)
    → get i new ≡ some j
    → (k : Job) × (get i old ≡ some k) × (k.created_at ≡ j.created_at)

pub Descends-IsSpread : (old new : List Job) → Descends old new → IsSpread old → IsSpread new
Descends-IsSpread old new d s = record {
  named = elim (Option-cases (get "" new)) [
    | inl e ↦ e
    | inr (j, e) ↦ let (k, h, t) = d "" j e in let n = s.named in absurd (cc)
  ];
  apart = λ i i' j j' e e' t.
      let (k, h, c) = d i j e in
      let (k', h', c') = d i' j' e' in s.apart i i' k k' h h' (c ∙ t ∙ sym c');
}

pub keep-Descends :
    (p : Job → Bool) (jobs : List Job) → IdsDistinct jobs → Descends jobs (keep p jobs)
keep-Descends p jobs d i j e = elim (Option-cases (get i jobs)) [
  | inl h ↦ absurd (ground (arith, h, e, get-keep p i jobs d))
  | inr (k, h) ↦ (k, h, ground (arith, h, e, get-keep p i jobs d))
]

pub modify-Descends :
    (id : String) (f : Job → Job) (jobs : List Job)
    → KeepsId f
    → ((j : Job) → (f j).created_at ≡ j.created_at)
    → Descends jobs (modify id f jobs)
modify-Descends id f jobs keeps times i j e = elim (Option-cases (get i jobs)) [
  | inl h ↦ absurd (ground (arith, h, e, get-modify id f jobs i keeps))
  | inr (k, h) ↦ (k, h, ground (arith, h, e, times k, get-modify id f jobs i keeps))
]

-- What a new job leaves.
put-IsSpread :
    (job : Job) (jobs : List Job)
    → job.id ≢ ""
    → ((i : String) (j : Job) → get i jobs ≡ some j → j.created_at ≢ job.created_at)
    → IsSpread jobs
    → IsSpread (put job jobs)
put-IsSpread job jobs named fresh s = record {
  named = ground (arith, get-put job jobs "", s.named, named);
  apart = λ i k j j' e e' t. elim (Bool-cases (same job.id i)) [
    | inl p ↦ elim (Bool-cases (same job.id k)) [
      | inl q ↦ ground (arith, p, q)
      | inr q ↦ absurd (ground (arith, p, q, e, e', t, at_i i, at_i k, fresh k j'))
    ]
    | inr p ↦ elim (Bool-cases (same job.id k)) [
      | inl q ↦ absurd (ground (arith, p, q, e, e', t, at_i i, at_i k, fresh i j))
      | inr q ↦ s.apart i k j j' (ground (arith, p, e, at_i i)) (ground (arith, q, e', at_i k)) t
    ]
  ];
}
  where
    at_i : (i : String) → get i (put job jobs) ≡ (if same job.id i then some job else get i jobs)
    at_i i = get-put job jobs i

pub push-IsSpread :
    (m : MemoryConnection) (args : Dispatch)
    → IsTimely m (pushes args)
    → IsSpread m.jobs
    → IsSpread (Memory.push m args).0.jobs
unfolding Memory.push create_queued_job
push-IsSpread m args (named, absent, fresh) s =
    elim (Option-cases (find_duplicate (create_queued_job m.name no_defaults args) m.jobs)) [
      | inl e ↦
          rw (e, Memory.push)
            (put-IsSpread (create_queued_job m.name no_defaults args) m.jobs named fresh s)
      | inr (k, e) ↦ rw (e, Memory.push) s
    ]
