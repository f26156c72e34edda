-- ===== src/Loader/Spawn.antt =====
-- What registering one processor does to the loader, on every branch.
use ts_queue.Errors.{Error, Result, ok, err}
use ts_queue.Loader.{
  LoaderState, Provider, ProcessorMetadata, Target, Spawned, Emitter, spawn, register_processor,
  on_connection,
}
use ts_queue.Prelude.{
  ℕ, zero, suc, max, String, true, false, List, ◌++◌, some, or_default, ◌≡◌, refl, ap, All, length,
  same, Bool-cases, inl, inr, if◌then◌else◌,
}
use ts_queue.Prelude.Maps.{lookup, insert, lookup-insert}
use ts_queue.Worker.Loop
use ts_queue.Worker.Loop.{Loop}

-- A worker as it is left by its start: it runs, and one timer is armed.
abbrev pub IsStarted : String → String → ℕ → Spawned → Type 0
IsStarted connection queue host w =
    (w.loop.connection ≡ connection)
    × (w.loop.queue ≡ queue)
    × (w.host ≡ host)
    × (w.loop.running ≡ true)
    × (length w.loop.timers ≡ 1)

spawn-IsStarted :
    (n : ℕ) (connection queue : String) (host : ℕ)
    → All (IsStarted connection queue host) (spawn n connection queue host)
unfolding spawn Loop.start Loop.schedule_next
spawn-IsStarted zero c q h = tt
spawn-IsStarted (suc n) c q h = ((refl, refl, refl, refl, refl), spawn-IsStarted n c q h)

length-spawn :
    (n : ℕ) (connection queue : String) (host : ℕ) → length (spawn n connection queue host) ≡ n
unfolding spawn
length-spawn zero c q h = refl
length-spawn (suc n) c q h = ap suc (length-spawn n c q h)

-- The outcomes of a registration.
pub data Registered {E : Type 0} (s : LoaderState E) (p : Provider) (meta : ProcessorMetadata)
    (answer : Result Target) : LoaderState E → Result (Unit {0}) → Type 0 where
  not_a_host : (e : Error) → p.is_worker_host ≡ false → Registered s p meta answer s (err e)
  unresolved : (e : Error) → answer ≡ err e → Registered s p meta answer s (err e)
  inline :
      (t : Target) (handlers : List (String × ℕ))
      → p.is_worker_host ≡ true
      → answer ≡ ok t
      → t.is_sync ≡ true
      → ((name : String)
          → lookup name handlers
            ≡ (if same t.name name then some p.number else lookup name s.sync_handlers))
      → Registered s p meta answer (record s { sync_handlers = handlers }) (ok tt)
  polled :
      (t : Target) (started : List Spawned)
      → p.is_worker_host ≡ true
      → answer ≡ ok t
      → t.is_sync ≡ false
      → length started ≡ max 1 (or_default meta.concurrency 1)
      → All (IsStarted t.name meta.queue p.number) started
      → Registered s p meta answer (record s { workers = s.workers ++ started }) (ok tt)

module _ {E : Type 0} (emitter : Emitter E) where
  connected :
      (s : LoaderState E) (p : Provider) (meta : ProcessorMetadata) (answer : Result Target)
      → p.is_worker_host ≡ true
      → let r = on_connection emitter s p meta answer in Registered s p meta answer r.0 r.1
  connected s p meta (err e) h = unresolved e refl
  connected s p meta (ok t) h = elim (Bool-cases t.is_sync) [
    | inl e ↦ simp (e) (
        inline t (insert t.name p.number s.sync_handlers) h refl e
          (λ name. lookup-insert t.name name p.number s.sync_handlers))
    | inr e ↦
        let n = max 1 (or_default meta.concurrency 1) in
        simp (e) (
          polled t (spawn n t.name meta.queue p.number) h refl e
            (length-spawn n t.name meta.queue p.number)
            (spawn-IsStarted n t.name meta.queue p.number))
  ]

  -- Registering a processor has one of four outcomes. A class that is no worker host, and a
  -- connection that does not resolve, are errors that leave the loader as it was. On a sync
  -- connection the processor becomes the handler of that connection, and nothing else changes. On
  -- any other connection as many workers are added as the concurrency says, at least one, all of
  -- them on that connection, the processor's queue and host, running, with one timer armed.
  pub register_processor-Registered :
      (connect : String → Result Target) (default_name : String) (s : LoaderState E) (p : Provider)
      (meta : ProcessorMetadata)
      → let r = register_processor emitter connect default_name s p meta in
        Registered s p meta (connect (or_default meta.connection default_name)) r.0 r.1
  unfolding register_processor
  register_processor-Registered connect d s p meta = elim (Bool-cases p.is_worker_host) [
    | inl h ↦
        simp (h, register_processor) (connected s p meta (connect (or_default meta.connection d)) h)
    | inr h ↦ simp (h, register_processor) (not_a_host _ h)
  ]
