-- ===== src/IndexedDb/History.antt =====
-- Whole histories of the IndexedDB driver, with dispatches, against the memory driver.
use ts_queue.Base
use ts_queue.Base.{has-add, has-delete}
use ts_queue.IndexedDb
use ts_queue.IndexedDb.{IndexedDbConnection, put_record, insert_record, last_duplicate, is_paused}
use ts_queue.IndexedDb.Agreement.{handed_out}
use ts_queue.Memory.Updates.{release-modify, fail-modify}
use ts_queue.Jobs.{released, marked_failed, in_queue, has_id}
use ts_queue.Memory.{MemoryConnection}
use ts_queue.Memory.Invariant.{IsProper, AllProper, step-IsValid}
use ts_queue.Memory.Steps
use ts_queue.Memory.Steps.{
  Call, pushes, pops, removes, releases, fails, clears, closes, pauses, resumes,
}
use ts_queue.Prelude.{true, false, not, List, [], ◌∷◌, ◌≡◌, refl, arith}
use ts_queue.IndexedDb.Follows.{
  Holds, Follows, pop-Follows, mutate-Follows, keep-Follows, set-Follows, push-Follows,
}
use ts_queue.IndexedDb.Spread.{IsTimely, AllTimely}

module _ {c : IndexedDbConnection} {m : MemoryConnection} (v : Holds c m) where
  step-Follows :
      (call : Call)
      → IsTimely m call
      → ((IndexedDb.step c call).1 ≡ (Steps.step m call).1)
        × Follows (IndexedDb.step c call).0 (Steps.step m call).0
  unfolding IndexedDb.step Steps.step
  step-Follows closes a = absurd a
  step-Follows (pushes args) a = (refl, push-Follows v args a)
  step-Follows (pops queue now) a = pop-Follows v queue now
  step-Follows (removes id) a = (refl, keep-Follows v (λ j. not (has_id id j)))
  step-Follows (releases id delay_ms now) a = (
    refl,
    rw (release-modify m id delay_ms now)
        (mutate-Follows v id (released delay_ms now) (λ _. refl) (λ _. refl)),
  )
  step-Follows (fails id reason now) a = (
    refl,
    rw (fail-modify m id reason now)
        (mutate-Follows v id (marked_failed reason now) (λ _. refl) (λ _. refl)),
  )
  step-Follows (clears queue) a = (refl, keep-Follows v (λ j. not (in_queue queue j)))
  step-Follows (pauses queue) a = (
    refl,
    set-Follows v queue true (Base.add queue m.paused_queues)
        (λ q. ground (arith, has-add queue q m.paused_queues)),
  )
  step-Follows (resumes queue) a = (
    refl,
    set-Follows v queue false (Base.delete queue m.paused_queues)
        (λ q. ground (arith, has-delete queue q m.paused_queues)),
  )

  step-Holds :
      (call : Call)
      → IsTimely m call
      → IsProper m call
      → Holds (IndexedDb.step c call).0 (Steps.step m call).0
  step-Holds call timely proper =
      let f = (step-Follows call timely).1 in
      record {
        same_name = f.same_name;
        same_records = f.same_records;
        same_paused = f.same_paused;
        distinct = f.distinct;
        valid = step-IsValid m call proper v.valid;
        spread = f.spread;
      }

-- From a database that holds the jobs of a valid memory connection, in any order, with the same
-- queues paused, where ids are not empty and creation times differ: over every history in which
-- each dispatch has an id and a time of its own, each release is of a job that is then in flight, and
-- the database is not closed, its transactions not interleaved, both drivers hand out the same jobs.
pub handed_out-same :
    (calls : List Call) (c : IndexedDbConnection) (m : MemoryConnection)
    → Holds c m
    → AllTimely m calls
    → AllProper m calls
    → handed_out c calls ≡ Steps.handed_out m calls
unfolding handed_out Steps.handed_out
handed_out-same [] c m v t p = refl
handed_out-same (call ∷ calls) c m v t p =
    let (same_job, follows) = step-Follows v call t.0 in
    let rest =
      handed_out-same calls (IndexedDb.step c call).0 (Steps.step m call).0
        (step-Holds v call t.0 p.0) t.1 p.1 in
    cc (same_job, rest)
