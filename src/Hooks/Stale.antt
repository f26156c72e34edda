-- ===== src/Hooks/Stale.antt =====
-- Results of runs that are over.
use ts_queue.Errors.{Result}
use ts_queue.Hooks.{
  Hook, new, settled, is_cancelled, clean_up, start, render, settle, Signal, renders, settles,
  unmounts, step, run,
}
use ts_queue.Prelude.{
  ℕ, ◌<◌, ◌==◌, ◌&&◌, Bool, true, false, List, [], ◌∷◌, none, is_some, ◌≡◌, refl, arith, Bool-cases,
  Option-cases, inl, inr, ltb, if◌then◌else◌,
}

module _ {K A : Type 0} (same_key : K → K → Bool) where
  -- The runs that are not cancelled: the active one, if its cleanup is still to come.
  pub record IsTidy (h : Hook K A) : Type 0 where
    pub over :
        (n : ℕ)
        → n < h.next_run
        → is_cancelled n h.cancelled
          ≡ (if is_some h.key then (if n == h.active then false else true) else true)
    pub begun : is_some h.key ≡ true → h.active < h.next_run
    pub bounded : (n : ℕ) → is_cancelled n h.cancelled ≡ true → n < h.next_run

  clean_up-IsTidy : (h : Hook K A) → IsTidy h → IsTidy (clean_up same_key h)
  unfolding clean_up
  clean_up-IsTidy h t = elim (Option-cases h.key) [
    | inl e ↦ rw (e, clean_up) t
    | inr (k, e) ↦
        rw (e, clean_up)
          (record {
            over = λ n l. ground (arith, t.over n l, e);
            begun = λ p. absurd (cc);
            bounded = λ n p. ground (arith, t.bounded n, t.begun, e, p);
          })
  ]

  start-IsTidy : (k : K) (h : Hook K A) → h.key ≡ none → IsTidy h → IsTidy (start same_key k h)
  start-IsTidy k h e t = record {
    over = λ n l. ground (arith, t.over n, t.bounded n, e, l);
    begun = λ p. omega arith;
    bounded = λ n p. ground (arith, t.bounded n p);
  }

  clean_up-key : (h : Hook K A) → (clean_up same_key h).key ≡ none
  unfolding clean_up
  clean_up-key h = elim (Option-cases h.key) [
    | inl e ↦ rw (e, clean_up) e
    | inr (k, e) ↦ rw (e, clean_up) refl
  ]

  step-IsTidy : (h : Hook K A) (signal : Signal K A) → IsTidy h → IsTidy (step same_key h signal)
  unfolding step render settle
  step-IsTidy h (renders k) t = elim (Option-cases h.key) [
    | inl e ↦ rw (e, render) (start-IsTidy k h e t)
    | inr (j, e) ↦ elim (Bool-cases (same_key j k)) [
      | inl d ↦ rw (e, d, render) t
      | inr d ↦
          rw (e, d, render)
            (start-IsTidy k (clean_up same_key h) (clean_up-key h) (clean_up-IsTidy h t))
    ]
  ]
  step-IsTidy h (settles n r) t = elim (Bool-cases (ltb n h.next_run)) [
    | inr a ↦ rw (a, settle) t
    | inl a ↦ elim (Bool-cases (is_cancelled n h.cancelled)) [
      | inl c ↦ rw (a, c, settle) t
      | inr c ↦ rw (a, c, settle) (record { over = t.over; begun = t.begun; bounded = t.bounded })
    ]
  ]
  step-IsTidy h unmounts t = clean_up-IsTidy h t

  run-IsTidy :
      (h : Hook K A) (signals : List (Signal K A)) → IsTidy h → IsTidy (run same_key h signals)
  unfolding run
  run-IsTidy h [] t = t
  run-IsTidy h (signal ∷ signals) t =
      run-IsTidy (step same_key h signal) signals (step-IsTidy h signal t)

  -- After every history of renders, settled promises and unmounts of a hook: if the promise of the
  -- run whose cleanup is still to come settles, the hook returns its result; a promise of another run
  -- changes nothing.
  pub settle-run :
      (signals : List (Signal K A)) (n : ℕ) (r : Result A)
      → let h = run same_key new signals in
        settle same_key n r h
        ≡ (if is_some h.key && (n == h.active) then record h { state = settled r } else h)
  unfolding settle
  settle-run signals n r =
      let h = run same_key new signals in
      let t = run-IsTidy new signals (record {
        over = λ n l. absurd (omega (arith, l));
        begun = λ p. absurd (cc);
        bounded = λ n p. absurd (cc);
      }) in
      ground (arith, t.over n, t.begun)
