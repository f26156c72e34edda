-- ===== src/Broadcast/Tabs/Settles.antt =====
-- A worker of a tab settles a job that it holds.
use ts_queue.Broadcast.Tabs.{Tabs, act, removes, releases, fails}
use ts_queue.Broadcast.Tabs.Led.{AtMostOne-kept, IsChosen, IsLed}
use ts_queue.IndexedDb
use ts_queue.IndexedDb.{IndexedDbConnection, put_record, last_duplicate, scan}
use ts_queue.IndexedDb.Records.{mutate-modify}
use ts_queue.Job.{Job, delayed, pending, reserved}
use ts_queue.Jobs.{get, modify, without, released, marked_failed}
use ts_queue.Jobs.Ids.{IdsDistinct, keep-IdsDistinct, modify-IdsDistinct, KeepsId}
use ts_queue.Jobs.Views.{get-modify, get-without, changed}
use ts_queue.Prelude.{
  ℕ, ◌<◌, String, false, List, Option, none, some, ◌≡◌, ◌≢◌, sym, ap, subst, refl, arith,
  Bool-cases, Option-cases, inl, inr, same, if◌then◌else◌, ltb,
}
use ts_queue.Worker.Weights.{allowance}
use ts_queue.Worker.Held.{IsWithin, settle-IsOrdered}

module _ (s : Tabs) (h : Job) (l : IsLed s) (g : get h.id s.held ≡ some h) where
  -- The record of a held job is no choice of an open `pop`.
  settle-IsLed :
      (after : List Job) (left : Option Job)
      → IdsDistinct after
      → ((i : String) → get i after ≡ (if same h.id i then left else get i s.database.jobs))
      → ((j : Job) → left ≡ some j → (j.status ≢ reserved) × IsWithin j)
      → IsLed
          (record s { database = record (s.database) { jobs = after }; held = without h.id s.held })
  settle-IsLed after left d view settled = record {
    ordered = settle-IsOrdered s.database.jobs s.held after h left view settled l.ordered;
    distinct = d;
    one_pop =
        AtMostOne-kept s.leader s.database.jobs s.held after (without h.id s.held) s.open_pops stays
          l.one_pop;
  }
    where
      differs : (k : Job) → get k.id s.held ≡ none → same h.id k.id ≡ false
      differs k f = elim (Bool-cases (same h.id k.id)) [
        | inl p ↦
            let q : h.id ≡ k.id = ground (arith, p) in
            absurd (ground (arith, g, subst (λ i. get i s.held ≡ none) (sym q) f))
        | inr p ↦ p
      ]

      stays : (k : Job) → IsChosen s.database.jobs s.held k → IsChosen after (without h.id s.held) k
      stays k c = record {
        waits = c.waits;
        room = c.room;
        free = ground (arith, c.free, get-without h.id s.held k.id);
        stored = λ j e. c.stored j (ground (arith, differs k c.free, e, view k.id));
      }

  modify-IsLed :
      (f : Job → Job)
      → KeepsId f
      → ((j : Job) → j ≡ h → IsWithin j → ((f j).status ≢ reserved) × IsWithin (f j))
      → IsLed (record s {
        database = record (s.database) { jobs = modify h.id f s.database.jobs };
        held = without h.id s.held;
      })
  modify-IsLed f keeps done =
      settle-IsLed (modify h.id f s.database.jobs) (changed f (get h.id s.database.jobs))
        (modify-IdsDistinct h.id f s.database.jobs keeps l.distinct) (λ i. view i) (λ j e. ends j e)
    where
      view :
          (i : String)
          → get i (modify h.id f s.database.jobs)
            ≡ (if same h.id i then changed f (get h.id s.database.jobs) else get i s.database.jobs)
      view i = elim (Bool-cases (same h.id i)) [
        | inl p ↦
            let q : h.id ≡ i = ground (arith, p) in
            ground (
              arith,
              p,
              get-modify h.id f s.database.jobs i keeps,
              ap (λ k. get k s.database.jobs) q,
            )
        | inr p ↦ ground (arith, p, get-modify h.id f s.database.jobs i keeps)
      ]

      ends :
          (j : Job)
          → changed f (get h.id s.database.jobs) ≡ some j
          → (j.status ≢ reserved) × IsWithin j
      ends j e = elim (Option-cases (get h.id s.database.jobs)) [
        | inl k ↦ absurd (ground (arith, k, e))
        | inr (k, e') ↦
            let q : f k ≡ j = ground (arith, e', e) in
            subst (λ (x : Job). (x.status ≢ reserved) × IsWithin x) q
              (done k (l.ordered.backed h.id h k g e') (l.ordered.within h.id k e'))
      ]

  pub remove-IsLed : IsLed (act s (removes h.id))
  unfolding act IndexedDb.remove
  remove-IsLed =
      settle-IsLed (without h.id s.database.jobs) none
        (keep-IdsDistinct _ s.database.jobs l.distinct) (λ i. get-without h.id s.database.jobs i)
        (λ j e. absurd (cc))

  pub fail-IsLed : (reason : String) (now : ℕ) → IsLed (act s (fails h.id reason now))
  unfolding act IndexedDb.fail
  fail-IsLed reason now =
      rw (mutate-modify s.database h.id (marked_failed reason now) (λ _. refl)) (
        modify-IsLed (marked_failed reason now) (λ _. refl)
          (λ j e w. ((λ r. absurd (cc)), (w.0, λ x. absurd (cc)))))

  pub release-IsLed :
      (delay_ms now : ℕ) → h.attempts < h.max_attempts → IsLed (act s (releases h.id delay_ms now))
  unfolding act IndexedDb.release
  release-IsLed delay_ms now left =
      rw (mutate-modify s.database h.id (released delay_ms now) (λ _. refl))
        (modify-IsLed (released delay_ms now) (λ _. refl) (λ j e w. (waits, (w.0, λ x. room j e))))
    where
      waits : (if ltb 0 delay_ms then delayed else pending) ≢ reserved
      waits = elim (Bool-cases (ltb 0 delay_ms)) [
        | inl t ↦ rw t (λ r. absurd (cc))
        | inr t ↦ rw t (λ r. absurd (cc))
      ]

      room : (j : Job) → j ≡ h → j.attempts < allowance j
      room j e = subst (λ (x : Job). x.attempts < allowance x) (sym e) (omega (arith, left))
