-- ===== src/Broadcast/Tabs/Led.antt =====
-- What holds between two acts of the tabs, and that records that go and a closed connection keep it.
use ts_queue.Broadcast.Tabs.{OpenPop, Tabs, of_tab}
use ts_queue.Job.{Job, is_waiting}
use ts_queue.Jobs.{get}
use ts_queue.Jobs.Ids.{IdsDistinct}
use ts_queue.Prelude.{
  ℕ, ◌==◌, ◌<◌, String, true, not, List, [], ◌∷◌, none, some, ◌≡◌, refl, keep, Bool-cases, inl, inr,
}
use ts_queue.Worker.Held.{IsOrdered, shrink-IsOrdered}
use ts_queue.Worker.Weights.{allowance}

-- The job of an open `pop` as it was read: it waits, has an attempt left, and nobody holds it. What is stored under its
-- id, if there is still a record, is that job.
pub record IsChosen (jobs held : List Job) (k : Job) : Type 0 where
  pub waits : is_waiting k.status ≡ true
  pub room : k.attempts < allowance k
  pub free : get k.id held ≡ none
  pub stored : (j : Job) → get k.id jobs ≡ some j → j ≡ k

-- At most one `pop` has chosen a job, in the tab that leads.
abbrev pub AtMostOne : ℕ → List Job → List Job → List OpenPop → Type 0
AtMostOne leader jobs held [] = Unit
AtMostOne leader jobs held (o ∷ rest) = (o.tab ≡ leader) × (rest ≡ []) × IsChosen jobs held o.chosen

pub record IsLed (s : Tabs) : Type 0 where
  pub ordered : IsOrdered s.database.jobs s.held
  pub distinct : IdsDistinct s.database.jobs
  pub one_pop : AtMostOne s.leader s.database.jobs s.held s.open_pops

-- A change of other records keeps the choice.
pub AtMostOne-kept :
    (leader : ℕ) (jobs held after held_after : List Job) (opens : List OpenPop)
    → ((k : Job) → IsChosen jobs held k → IsChosen after held_after k)
    → AtMostOne leader jobs held opens
    → AtMostOne leader after held_after opens
AtMostOne-kept leader jobs held after held_after [] keeps a = tt
AtMostOne-kept leader jobs held after held_after (o ∷ rest) keeps (t, r, c) =
    (t, r, keeps o.chosen c)

-- Records go, and nothing else changes.
pub shrink-IsLed :
    (s : Tabs) (after : List Job)
    → ((i : String) (j : Job) → get i after ≡ some j → get i s.database.jobs ≡ some j)
    → IdsDistinct after
    → IsLed s
    → IsLed (record s { database = record (s.database) { jobs = after } })
shrink-IsLed s after sub d l = record {
  ordered = shrink-IsOrdered s.database.jobs s.held after sub l.ordered;
  distinct = d;
  one_pop =
      AtMostOne-kept s.leader s.database.jobs s.held after s.held s.open_pops
        (λ k c. record {
          waits = c.waits;
          room = c.room;
          free = c.free;
          stored = λ j e. c.stored j (sub k.id j e);
        })
        l.one_pop;
}

-- A `pop` may end without an effect.
close-AtMostOne :
    (leader tab : ℕ) (jobs held : List Job) (opens : List OpenPop)
    → AtMostOne leader jobs held opens
    → AtMostOne leader jobs held (keep (λ p. not (of_tab tab p)) opens)
close-AtMostOne leader tab jobs held [] a = tt
close-AtMostOne leader tab jobs held (o ∷ rest) (t, r, c) = elim (Bool-cases (o.tab == tab)) [
  | inl e ↦ rw (e, r) tt
  | inr e ↦ rw (e, r) (t, refl, c)
]

pub close-IsLed :
    (s : Tabs) (tab : ℕ)
    → IsLed s
    → IsLed (record s { open_pops = keep (λ p. not (of_tab tab p)) s.open_pops })
close-IsLed s tab l = record {
  ordered = l.ordered;
  distinct = l.distinct;
  one_pop = close-AtMostOne s.leader tab s.database.jobs s.held s.open_pops l.one_pop;
}
