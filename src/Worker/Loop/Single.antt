-- ===== src/Worker/Loop/Single.antt =====
-- When a worker polls in one loop, and when it does not.
use ts_queue.Prelude.{
  ℕ, true, false, List, [], ◌∷◌, some, ◌≡◌, refl, arith, inl, inr, String, length, Bool-cases, ◌==◌,
}
use ts_queue.Worker.Loop.{
  Loop, new, start, stop, fire, settle, Signal, starts, stops, fires, settles, step, run,
}

-- Stopped and still; or one armed timer, which `stop` can clear; or one tick under way.
pub data IsSingle (l : Loop) : Type 0 where
  still : l.running ≡ false → l.timers ≡ [] → l.in_tick ≡ 0 → IsSingle l
  waiting :
      (h : ℕ)
      → l.running ≡ true
      → l.timers ≡ h ∷ []
      → l.pending_tick ≡ some h
      → l.in_tick ≡ 0
      → IsSingle l
  ticking : l.timers ≡ [] → l.in_tick ≡ 1 → IsSingle l

-- `start` is not called while a tick is under way.
abbrev pub IsCalm : Loop → Signal → Type 0
IsCalm l starts = l.in_tick ≡ 0
IsCalm l stops = Unit
IsCalm l (fires h) = Unit
IsCalm l settles = Unit

abbrev pub AllCalm : Loop → List Signal → Type 0
AllCalm l [] = Unit
AllCalm l (signal ∷ signals) = IsCalm l signal × AllCalm (step l signal) signals

start-IsSingle : (l : Loop) → l.in_tick ≡ 0 → IsSingle l → IsSingle (start l)
unfolding start
start-IsSingle l calm (still r t n) =
    waiting l.next_handle (ground arith) (ground arith) (ground arith) (ground arith)
start-IsSingle l calm (waiting h r t p n) =
    waiting h (ground arith) (ground arith) (ground arith) (ground arith)
start-IsSingle l calm (ticking t n) = absurd (omega arith)

stop-IsSingle : (l : Loop) → IsSingle l → IsSingle (stop l)
unfolding stop
stop-IsSingle l (still r t n) = still (ground arith) (ground arith) (ground arith)
stop-IsSingle l (waiting h r t p n) = still (ground arith) (ground arith) (ground arith)
stop-IsSingle l (ticking t n) = ticking (ground arith) (ground arith)

fire-IsSingle : (h : ℕ) (l : Loop) → IsSingle l → IsSingle (fire h l)
unfolding fire
fire-IsSingle h l (still r t n) = still (ground arith) (ground arith) (ground arith)
fire-IsSingle h l (waiting k r t p n) = elim (Bool-cases (k == h)) [
  | inl e ↦ ticking (ground arith) (ground arith)
  | inr e ↦ waiting k (ground arith) (ground arith) (ground arith) (ground arith)
]
fire-IsSingle h l (ticking t n) = ticking (ground arith) (ground arith)

settle-IsSingle : (l : Loop) → IsSingle l → IsSingle (settle l)
unfolding settle
settle-IsSingle l (still r t n) = still (ground arith) (ground arith) (ground arith)
settle-IsSingle l (waiting h r t p n) =
    waiting h (ground arith) (ground arith) (ground arith) (ground arith)
settle-IsSingle l (ticking t n) = elim (Bool-cases l.running) [
  | inl r ↦ waiting l.next_handle (ground arith) (ground arith) (ground arith) (ground arith)
  | inr r ↦ still (ground arith) (ground arith) (ground arith)
]

step-IsSingle :
    (l : Loop) (signal : Signal) → IsCalm l signal → IsSingle l → IsSingle (step l signal)
unfolding step
step-IsSingle l starts calm s = start-IsSingle l calm s
step-IsSingle l stops calm s = stop-IsSingle l s
step-IsSingle l (fires h) calm s = fire-IsSingle h l s
step-IsSingle l settles calm s = settle-IsSingle l s

run-IsSingle_from :
    (l : Loop) (signals : List Signal) → AllCalm l signals → IsSingle l → IsSingle (run l signals)
unfolding run
run-IsSingle_from l [] calm s = s
run-IsSingle_from l (signal ∷ signals) calm s =
    run-IsSingle_from (step l signal) signals calm.1 (step-IsSingle l signal calm.0 s)

-- A new worker that is never started while a tick is under way polls in a single loop: it is
-- stopped with no timer armed, or has one armed timer, known to `stop`, or has one tick under way.
pub run-IsSingle :
    (connection queue : String) (signals : List Signal)
    → AllCalm (new connection queue) signals
    → IsSingle (run (new connection queue) signals)
run-IsSingle connection queue signals calm =
    run-IsSingle_from (new connection queue) signals calm (still refl refl refl)

-- A worker that is stopped and started again while its one tick is under way ends up with two
-- armed timers when the tick settles; the next `stop` leaves one of them armed.
pub restart_forks :
    (l : Loop)
    → l.running ≡ true
    → l.timers ≡ []
    → l.in_tick ≡ 1
    → let forked = run l (stops ∷ starts ∷ settles ∷ []) in
      (length forked.timers ≡ 2)
      × ((stop forked).running ≡ false)
      × (length (stop forked).timers ≡ 1)
unfolding run step stop start settle
restart_forks l r t n = ground arith
