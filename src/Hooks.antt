-- ===== src/Hooks.antt =====
-- src/react/hooks: the effect and the state that `useQueue` and `useQueueConnection` share. Every
-- run of the effect has a number and a `cancelled` flag of its own; `same_key` compares the
-- dependencies of two renders as React does. The manager is the same at every render.
pub mod Stale
use ts_queue.Errors.{Error, Result, ok, err}
use ts_queue.Prelude.{
  ℕ, ◌+◌, ◌==◌, Bool, true, false, List, [], ◌∷◌, Option, none, some, if◌then◌else◌, ltb,
}

-- `IUseQueueResult` and `IUseQueueConnectionResult`
pub record HookResult (A : Type 0) : Type 0 where
  pub value : Option A
  pub ready : Bool
  pub error : Option Error

pub record Hook (K : Type 0) (A : Type 0) : Type 0 where
  pub key : Option K  -- the dependencies of the run whose cleanup is still to come
  pub active : ℕ  -- its number
  pub cancelled : List ℕ
  pub next_run : ℕ
  pub state : HookResult A

abbrev pub initial_state : {A : Type 0} → HookResult A
initial_state = record { value = none; ready = false; error = none }

abbrev pub new : {K A : Type 0} → Hook K A
new = record { key = none; active = 0; cancelled = []; next_run = 0; state = initial_state }

-- What `then` and `catch` pass to `setState`.
abbrev pub settled : {A : Type 0} → Result A → HookResult A
settled (ok a) = record { value = some a; ready = true; error = none }
settled (err e) = record { value = none; ready = false; error = some e }

abbrev pub is_cancelled : ℕ → List ℕ → Bool
is_cancelled n [] = false
is_cancelled n (k ∷ ks) = if k == n then true else is_cancelled n ks

pub data Signal (K : Type 0) (A : Type 0) : Type 0 where
  renders : K → Signal K A
  settles : ℕ → Result A → Signal K A
  unmounts : Signal K A

module _ {K A : Type 0} (same_key : K → K → Bool) where
  -- The cleanup of the last run.
  unfoldable pub clean_up : Hook K A → Hook K A
  clean_up h = elim h.key [
    | none ↦ h
    | some k ↦ record h { key = none; cancelled = h.active ∷ h.cancelled }
  ]

  abbrev pub start : K → Hook K A → Hook K A
  start k h = record h { key = some k; active = h.next_run; next_run = h.next_run + 1 }

  -- The effect of a render: it runs again if a dependency changed.
  unfoldable pub render : K → Hook K A → Hook K A
  unfolding clean_up
  render k h = elim h.key [
    | none ↦ start k h
    | some j ↦ if same_key j k then h else start k (clean_up h)
  ]

  -- The promise of a run settles.
  unfoldable pub settle : ℕ → Result A → Hook K A → Hook K A
  settle n r h =
      if ltb n h.next_run
      then (if is_cancelled n h.cancelled then h else record h { state = settled r })
      else h

  unfoldable pub step : Hook K A → Signal K A → Hook K A
  unfolding render settle clean_up
  step h (renders k) = render k h
  step h (settles n r) = settle n r h
  step h unmounts = clean_up h

  unfoldable pub run : Hook K A → List (Signal K A) → Hook K A
  unfolding step
  run h [] = h
  run h (signal ∷ signals) = run (step h signal) signals
