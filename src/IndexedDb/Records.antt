-- ===== src/IndexedDb/Records.antt =====
-- Assignments to one record of the database.
use ts_queue.Job.{Job}
use ts_queue.Jobs.{get, put, modify}
use ts_queue.Jobs.Ids.{KeepsId, get-has_id, modify_absent}
use ts_queue.IndexedDb
use ts_queue.IndexedDb.{IndexedDbConnection, put_record, is_paused}
use ts_queue.Prelude.{
  String, true, is_some, ◌∙◌, subst, ap, List, [], ◌∷◌, some, ◌≡◌, refl, sym, arith, Option-cases,
  inl, inr,
}

put-modify :
    (f : Job → Job) (id : String) (jobs : List Job) {j : Job}
    → KeepsId f
    → get id jobs ≡ some j
    → put (f j) jobs ≡ modify id f jobs
unfolding put modify
put-modify f id [] keeps h = ground arith
put-modify f id (k ∷ ks) {j} keeps h =
    ground (arith, keeps j, get-has_id id (k ∷ ks) {j = j} h, put-modify f id ks {j = j} keeps)

-- A record that is there is replaced where it stands.
put_known :
    (j : Job) (jobs : List Job) → is_some (get j.id jobs) ≡ true → put_record j jobs ≡ put j jobs
unfolding put_record
put_known j jobs h = rw h refl

pub put_record-modify :
    (f : Job → Job) (id : String) (jobs : List Job) {j : Job}
    → KeepsId f
    → get id jobs ≡ some j
    → put_record (f j) jobs ≡ modify id f jobs
put_record-modify f id jobs {j} keeps h =
    let e : (f j).id ≡ id = keeps j ∙ get-has_id id jobs h in
    put_known (f j) jobs (
      subst (λ i. is_some (get i jobs) ≡ true) (sym e) (subst (λ o. is_some o ≡ true) (sym h) refl))
    ∙ put-modify f id jobs keeps h

-- `mutate` on a record that is there, and on one that is not.
pub mutate-modify :
    (c : IndexedDbConnection) (id : String) (f : Job → Job)
    → KeepsId f
    → IndexedDb.mutate c id f ≡ record c { jobs = modify id f c.jobs }
unfolding IndexedDb.mutate
mutate-modify c id f keeps = elim (Option-cases (get id c.jobs)) [
  | inl e ↦ rw (e, IndexedDb.mutate) (rw (modify_absent id f keeps c.jobs e) refl)
  | inr (j, e) ↦
      rw (e, IndexedDb.mutate)
        (ap (λ l. record c { jobs = l }) (put_record-modify f id c.jobs keeps e))
]
