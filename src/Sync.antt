-- ===== src/Sync.antt =====
-- src/connections/sync.connection.ts: `push` runs the handler. The handler works on a state of its
-- own, `W`, and may throw; it gets the job as `push` leaves it. A rejected `push` returns no id.
use ts_queue.Base
use ts_queue.Errors.{Result, ok, err}
use ts_queue.Job.{Job, reserved, Dispatch, create_queued_job, no_defaults}
use ts_queue.Prelude.{ℕ, String, List, Option, none, some, if◌then◌else◌}

module _ {ℓ} (W : Type ℓ) where
  abbrev pub Handler : Type ℓ
  Handler = Job → W → W × Result (Unit {0})

  pub record SyncConnection : Type ℓ where
    pub name : String
    pub paused_queues : List String
    pub handler : Option Handler

  unfoldable pub set_handler : SyncConnection → Handler → SyncConnection
  set_handler c handler = record c { handler = some handler }

  -- The job that the handler gets.
  abbrev pub started : Job → Job
  started job = record job { status = reserved; attempts = 1 }

  abbrev returned : String → W × Result (Unit {0}) → W × Result String
  returned id (w, ok _) = (w, ok id)
  returned id (w, err e) = (w, err e)

  unfoldable pub push : SyncConnection → W → Dispatch → W × Result String
  unfolding create_queued_job Base.has
  push c w args =
      let job = create_queued_job c.name no_defaults args in
      if Base.has job.queue c.paused_queues then (w, ok job.id) else elim c.handler [
        | none ↦ (w, ok job.id)
        | some handler ↦ returned job.id (handler (started job) w)
      ]

  unfoldable pub pop : SyncConnection → SyncConnection × Option Job
  pop c = (c, none)

  -- `size`, `pendingSize`, `delayedSize` and `reservedSize`.
  unfoldable pub size : SyncConnection → ℕ
  size c = 0

  -- `remove`, `release`, `fail` and `clear`.
  unfoldable pub nothing : SyncConnection → SyncConnection
  nothing c = c

  unfoldable pub close : SyncConnection → SyncConnection
  close c = record c { handler = none }
