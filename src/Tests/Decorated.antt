-- ===== src/Tests/Decorated.antt =====
-- The theorems on decorators, with a metadata store that is a function.
use ts_queue.Decorators.{
  Key, processor_metadata, on_job_event_metadata, job_metadata, Stored, Metadata, Subject, callable,
  on_job_events, get_on_job_event_metadata, get_processor_metadata,
}
use ts_queue.Decorators.Recorded.{IsLawful, on_job_events-recorded}
use ts_queue.Errors.{Result, ok, err}
use ts_queue.Loader.{OnJobEvent}
use ts_queue.Prelude.{
  ℕ, ◌==◌, Bool, true, false, [], ◌∷◌, Option, none, some, or_default, ◌≡◌, ◌≢◌, ap, refl, arith,
}

-- The options of `@Job` are a number here.
abbrev Store : Type 0
Store = (k : Key) → ℕ → Option (Stored ℕ k)

-- What is under the key `i` after `v` was put under the key `k`, if the target is the same.
abbrev put_under : (k i : Key) → Bool → Stored ℕ k → Option (Stored ℕ i) → Option (Stored ℕ i)
put_under processor_metadata processor_metadata true v old = some v
put_under on_job_event_metadata on_job_event_metadata true v old = some v
put_under job_metadata job_metadata true v old = some v
put_under k i b v old = old

abbrev store_define : (k : Key) → Store → Stored ℕ k → ℕ → Store
store_define k m v n = λ i a. put_under k i (n == a) v (m i a)

abbrev updated : (k : Key) → Store → ℕ → Result (Stored ℕ k) → Result Store
updated k m n (ok v) = ok (store_define k m v n)
updated k m n (err e) = err e

abbrev meta : Metadata ℕ Store
meta = record {
  get = λ k m n. m k n;
  define = store_define;
  update = λ k m start f n. updated k m n (f (or_default (m k n) start));
}

put_same :
    (k : Key) (b : Bool) (v : Stored ℕ k) (old : Option (Stored ℕ k))
    → b ≡ true
    → put_under k k b v old ≡ some v
put_same processor_metadata true v old e = refl
put_same processor_metadata false v old e = absurd (cc)
put_same on_job_event_metadata true v old e = refl
put_same on_job_event_metadata false v old e = absurd (cc)
put_same job_metadata true v old e = refl
put_same job_metadata false v old e = absurd (cc)

put_other :
    (k i : Key) (b : Bool) (v : Stored ℕ k) (old : Option (Stored ℕ i))
    → i ≢ k
    → put_under k i b v old ≡ old
put_other processor_metadata processor_metadata b v old ne = absurd (ne refl)
put_other processor_metadata on_job_event_metadata b v old ne = refl
put_other processor_metadata job_metadata b v old ne = refl
put_other on_job_event_metadata processor_metadata b v old ne = refl
put_other on_job_event_metadata on_job_event_metadata b v old ne = absurd (ne refl)
put_other on_job_event_metadata job_metadata b v old ne = refl
put_other job_metadata processor_metadata b v old ne = refl
put_other job_metadata on_job_event_metadata b v old ne = refl
put_other job_metadata job_metadata b v old ne = absurd (ne refl)

put_false :
    (k i : Key) (v : Stored ℕ k) (old : Option (Stored ℕ i)) → put_under k i false v old ≡ old
put_false processor_metadata processor_metadata v old = refl
put_false processor_metadata on_job_event_metadata v old = refl
put_false processor_metadata job_metadata v old = refl
put_false on_job_event_metadata processor_metadata v old = refl
put_false on_job_event_metadata on_job_event_metadata v old = refl
put_false on_job_event_metadata job_metadata v old = refl
put_false job_metadata processor_metadata v old = refl
put_false job_metadata on_job_event_metadata v old = refl
put_false job_metadata job_metadata v old = refl

meta-IsLawful : IsLawful meta
meta-IsLawful = record {
  get-define = λ k m v n. put_same k (n == n) v (m k n) (ground arith);
  get-define_key = λ k i m v n a ne. put_other k i (n == a) v (m i a) ne;
  get-define_target = λ k i m v n a ne.
      let off : (n == a) ≡ false = ground (arith, ne) in rw off (put_false k i v (m i a));
  update-ok = λ k m start v f n e. ap (updated k m n) e;
}

abbrev nothing : Store
nothing k n = none

abbrev on_failed : OnJobEvent
on_failed = record { event = "queue.job.failed"; connection = none }

abbrev on_released : OnJobEvent
on_released = record { event = "queue.job.released"; connection = some "main" }

-- Two decorators of the method with the number 7.
on_job_events-recorded_example :
    (m' : Store) × (on_job_events meta (on_failed ∷ on_released ∷ []) nothing 7 ≡ ok m')
    × (or_default (get_on_job_event_metadata meta m' (callable 7)) []
        ≡ on_failed ∷ on_released ∷ [])
    × ((class : Subject)
        → get_processor_metadata meta m' class ≡ get_processor_metadata meta nothing class)
    × ((a : ℕ)
        → a ≢ 7
        → get_on_job_event_metadata meta m' (callable a)
          ≡ get_on_job_event_metadata meta nothing (callable a))
on_job_events-recorded_example =
    on_job_events-recorded meta meta-IsLawful (on_failed ∷ on_released ∷ []) nothing 7 refl
