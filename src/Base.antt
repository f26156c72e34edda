-- ===== src/Base.antt =====
-- src/connections/base.connection.ts: what every driver inherits. `push` is the driver's own.
use ts_queue.Job.{Dispatch}
use ts_queue.Prelude.{
  ℕ, String, Bool, true, false, not, List, [], ◌∷◌, ◌++◌, some, same, keep, if◌then◌else◌, ◌≡◌,
  refl, arith, ◌||◌, ◌&&◌,
}

module _ {ℓ} {S : Type ℓ} (push : S → Dispatch → S × String) where
  -- `later`: the delay replaces that of the options.
  unfoldable pub later : ℕ → S → Dispatch → S × String
  later delay_ms s args =
      push s (record args { options = record (args.options) { delay_ms = some delay_ms } })

  -- `bulk`: each `push` waits for the one before it.
  unfoldable pub bulk : S → List Dispatch → S × List String
  bulk s [] = (s, [])
  bulk s (args ∷ rest) =
      let (s', id) = push s args in let (s'', ids) = bulk s' rest in (s'', id ∷ ids)

-- `Set<string>` of paused queues.
unfoldable pub has : String → List String → Bool
has q [] = false
has q (p ∷ ps) = if same p q then true else has q ps

unfoldable pub add : String → List String → List String
unfolding has
add q ps = if has q ps then ps else ps ++ q ∷ []

unfoldable pub delete : String → List String → List String
delete q ps = keep (λ p. not (same p q)) ps

pub has-append : (q : String) (ps qs : List String) → has q (ps ++ qs) ≡ (has q ps || has q qs)
unfolding has
has-append q [] qs = refl
has-append q (p ∷ ps) qs = ground (arith, has-append q ps qs)

-- A set holds what was added, and what it held.
pub has-add : (q r : String) (ps : List String) → has r (add q ps) ≡ (same q r || has r ps)
unfolding add has
has-add q r ps = ground (arith, has-append r ps (q ∷ []))

pub has-delete :
    (q r : String) (ps : List String) → has r (delete q ps) ≡ (not (same q r) && has r ps)
unfolding delete has
has-delete q r [] = ground arith
has-delete q r (p ∷ ps) = ground (arith, has-delete q r ps)
