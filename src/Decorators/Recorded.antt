-- ===== src/Decorators/Recorded.antt =====
-- What the accessor finds after decorators were applied.
use mathlib.Core.List.{append-nil, append_assoc}
use ts_queue.Decorators.{
  Key, processor_metadata, on_job_event_metadata, Stored, many, Metadata, Subject, callable, plain,
  other, spread, on_job_event, on_job_events, get_processor_metadata, get_on_job_event_metadata,
  as_array,
}
use ts_queue.Errors.{Result, ok}
use ts_queue.Loader.{OnJobEvent}
use ts_queue.Prelude.{
  ℕ, List, [], ◌∷◌, ◌++◌, none, some, or_default, ◌≡◌, ◌≢◌, ◌∙◌, sym, ap, refl, arith,
}

-- A value is found where it was put, and nothing else changes. `update` puts what its callback makes of the value that
-- is there, or of the given one.
pub record IsLawful {J M : Type 0} (meta : Metadata J M) : Type 0 where
  pub get-define :
      (k : Key) (m : M) (v : Stored J k) (n : ℕ) → meta.get k (meta.define k m v n) n ≡ some v
  pub get-define_key :
      (k i : Key) (m : M) (v : Stored J k) (n a : ℕ)
      → i ≢ k
      → meta.get i (meta.define k m v n) a ≡ meta.get i m a
  pub get-define_target :
      (k i : Key) (m : M) (v : Stored J k) (n a : ℕ)
      → a ≢ n
      → meta.get i (meta.define k m v n) a ≡ meta.get i m a
  pub update-ok :
      (k : Key) (m : M) (start v : Stored J k) (f : Stored J k → Result (Stored J k)) (n : ℕ)
      → f (or_default (meta.get k m n) start) ≡ ok v
      → meta.update k m start f n ≡ ok (meta.define k m v n)

module _ {J M : Type 0} (meta : Metadata J M) (lawful : IsLawful meta) where
  -- After some decorators: their entries are on record, and everything else is as before.
  pub record Records (m m' : M) (n : ℕ) (entries : List OnJobEvent) : Type 0 where
    pub recorded : meta.get on_job_event_metadata m' n ≡ some (many entries)
    pub other_keys :
        (i : Key) (a : ℕ) → i ≢ on_job_event_metadata → meta.get i m' a ≡ meta.get i m a
    pub other_targets : (i : Key) (a : ℕ) → a ≢ n → meta.get i m' a ≡ meta.get i m a

  on_job_event-Records :
      (entry : OnJobEvent) (m : M) (n : ℕ) (found : List OnJobEvent)
      → or_default (meta.get on_job_event_metadata m n) (many []) ≡ many found
      → (m' : M) × (on_job_event meta entry m n ≡ ok m') × Records m m' n (found ++ entry ∷ [])
  unfolding on_job_event
  on_job_event-Records entry m n found e = (
    meta.define on_job_event_metadata m (many (found ++ entry ∷ [])) n,
    lawful.update-ok on_job_event_metadata m (many []) (many (found ++ entry ∷ [])) (spread entry) n
        (ap (spread entry) e),
    record {
      recorded = lawful.get-define on_job_event_metadata m (many (found ++ entry ∷ [])) n;
      other_keys = λ i a d. lawful.get-define_key on_job_event_metadata i m _ n a d;
      other_targets = λ i a d. lawful.get-define_target on_job_event_metadata i m _ n a d;
    },
  )

  first_then :
      (entry : OnJobEvent) (rest : List OnJobEvent) (m : M) (n : ℕ) {m1 m2 : M}
      → on_job_event meta entry m n ≡ ok m1
      → on_job_events meta rest m1 n ≡ ok m2
      → on_job_events meta (entry ∷ rest) m n ≡ ok m2
  unfolding on_job_events
  first_then entry rest m n p q = rw (p, on_job_events) q

  more-Records :
      (rest : List OnJobEvent) (m : M) (n : ℕ) (found : List OnJobEvent)
      → meta.get on_job_event_metadata m n ≡ some (many found)
      → (m' : M) × (on_job_events meta rest m n ≡ ok m') × Records m m' n (found ++ rest)
  unfolding on_job_events
  more-Records [] m n found e = (
    m,
    refl,
    record {
      recorded = e ∙ ap (λ l. some (many l)) (sym (append-nil found));
      other_keys = λ i a d. refl;
      other_targets = λ i a d. refl;
    },
  )
  more-Records (entry ∷ rest) m n found e =
      let (m1, p, r) = on_job_event-Records entry m n found (ap (λ o. or_default o (many [])) e) in
      let (m2, q, t) = more-Records rest m1 n (found ++ entry ∷ []) r.recorded in
      (
        m2,
        first_then entry rest m n p q,
        record {
          recorded = t.recorded ∙ ap (λ l. some (many l)) (append_assoc found (entry ∷ []) rest);
          other_keys = λ i a d. t.other_keys i a d ∙ r.other_keys i a d;
          other_targets = λ i a d. t.other_targets i a d ∙ r.other_targets i a d;
        },
      )

  not_events : processor_metadata ≢ on_job_event_metadata
  not_events e = absurd (ground (arith, e))

  -- The decorators of a method that has none yet all take effect: the accessor then finds exactly their entries, in the
  -- order in which they were applied, and the classes and the other methods keep what they have.
  pub on_job_events-recorded :
      (entries : List OnJobEvent) (m : M) (n : ℕ)
      → meta.get on_job_event_metadata m n ≡ none
      → (m' : M) × (on_job_events meta entries m n ≡ ok m')
        × (or_default (get_on_job_event_metadata meta m' (callable n)) [] ≡ entries)
        × ((class : Subject)
            → get_processor_metadata meta m' class ≡ get_processor_metadata meta m class)
        × ((a : ℕ)
            → a ≢ n
            → get_on_job_event_metadata meta m' (callable a)
              ≡ get_on_job_event_metadata meta m (callable a))
  unfolding on_job_events get_on_job_event_metadata get_processor_metadata
  on_job_events-recorded [] m n e =
      (m, refl, ap (λ o. or_default (as_array o) []) e, (λ c. refl), λ a d. refl)
  on_job_events-recorded (entry ∷ rest) m n e =
      let (m1, p, r) = on_job_event-Records entry m n [] (ap (λ o. or_default o (many [])) e) in
      let (m2, q, t) = more-Records rest m1 n (entry ∷ []) r.recorded in
      (
        m2,
        first_then entry rest m n p q,
        ap (λ o. or_default (as_array o) []) t.recorded,
        (λ c. classes m m1 m2 r t c),
        λ a d.
            ap as_array (
              t.other_targets on_job_event_metadata a d
              ∙ r.other_targets on_job_event_metadata a d),
      )
    where
      classes :
          (m m1 m2 : M) {l k : List OnJobEvent}
          → Records m m1 n l
          → Records m1 m2 n k
          → (c : Subject) → get_processor_metadata meta m2 c ≡ get_processor_metadata meta m c
      classes m m1 m2 r t (callable a) =
          t.other_keys processor_metadata a not_events
          ∙ r.other_keys processor_metadata a not_events
      classes m m1 m2 r t (plain a) = refl
      classes m m1 m2 r t other = refl
