-- ===== src/EventBus.antt =====
-- src/services/event-bus.service.ts. The event emitter is another package's: it is what `emit` of it does to its state
-- `E`, with the listeners that it calls, and it may throw.
use ts_queue.Errors.{Result, ok, err}
use ts_queue.Prelude.{String, Option, none, some}

-- `IEventEmitter`, as far as the bus uses it; `P` are the payloads.
pub record EventEmitter {ℓ} (E P : Type ℓ) : Type ℓ where
  pub emit : E → String → P → E × Result (Unit {0})

module _ {ℓ} {E P : Type ℓ} (emitter : EventEmitter E P) where
  -- What is thrown is caught and dropped.
  abbrev swallow : E × Result (Unit {0}) → E
  swallow (e, ok _) = e
  swallow (e, err _) = e

  -- Without an emitter nothing happens.
  unfoldable pub emit : Option E → String → P → Option E
  emit none event payload = none
  emit (some e) event payload = some (swallow (emitter.emit e event payload))
