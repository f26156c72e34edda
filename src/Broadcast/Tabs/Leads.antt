-- ===== src/Broadcast/Tabs/Leads.antt =====
-- A dispatch and the two parts of a `pop` keep what holds between two acts of the tabs.
use ts_queue.Broadcast.Tabs.Led.{IsChosen, AtMostOne, IsLed}
use ts_queue.Broadcast.Tabs.{
  OpenPop, Tabs, of_tab, has_chosen, IsSteady, dispatches, start_pop, finish_pop,
}
use ts_queue.IndexedDb
use ts_queue.IndexedDb.{IndexedDbConnection, put_record, last_duplicate, scan}
use ts_queue.IndexedDb.Kept.{push-IdsDistinct, put_record-IdsDistinct}
use ts_queue.IndexedDb.Pushes.{get-put_record, push-unkeyed, push-keyed}
use ts_queue.Job.{Job, Dispatch, create_queued_job, no_defaults, is_waiting, truthy}
use ts_queue.Jobs.{get, reserve, in_queue, is_due}
use ts_queue.Jobs.Ids.{IdsDistinct}
use ts_queue.Jobs.Queues.{oldest-keep}
use ts_queue.Memory.{choose}
use ts_queue.Memory.Exclusive.{chosen_waiting}
use ts_queue.Memory.Pop.{get-choose}
use ts_queue.Prelude.{
  ℕ, ◌==◌, String, true, false, not, List, [], ◌∷◌, none, some, ◌≡◌, ◌∙◌, sym, subst, refl, arith,
  find, keep, Bool-cases, Option-cases, inl, inr, same,
}
use ts_queue.Worker.Held.{store-IsOrdered, take_free-IsOrdered, waiting-free}

-- A dispatch stores nothing, or its job.
push_cases :
    (P : IndexedDbConnection → Type 0) (c : IndexedDbConnection) (args : Dispatch)
    → P c
    → P (record c { jobs = put_record (create_queued_job c.name no_defaults args) c.jobs })
    → P (IndexedDb.push c args).0
push_cases P c args found stored = elim (Option-cases (truthy job.unique_id)) [
  | inl t ↦ rw (push-unkeyed c args t) stored
  | inr (u, t) ↦ elim (Option-cases (truthy (last_duplicate u none c.jobs))) [
    | inl l ↦ rw (push-keyed c args t, l) stored
    | inr (id, l) ↦ rw (push-keyed c args t, l) found
  ]
]
  where
    job : Job
    job = create_queued_job c.name no_defaults args

-- The new job has another id than the choice.
push-AtMostOne :
    (job : Job) (leader : ℕ) (jobs held : List Job) (opens : List OpenPop)
    → find (has_chosen job.id) opens ≡ none
    → AtMostOne leader jobs held opens
    → AtMostOne leader (put_record job jobs) held opens
push-AtMostOne job leader jobs held [] e a = tt
push-AtMostOne job leader jobs held (o ∷ rest) e (t, r, c) = (
  t,
  r,
  record { waits = c.waits; room = c.room; free = c.free; stored = λ j g. c.stored j (other j g) },
)
  where
    differs : same job.id o.chosen.id ≡ false
    differs = ground (arith, e)

    other :
        (j : Job) → get o.chosen.id (put_record job jobs) ≡ some j → get o.chosen.id jobs ≡ some j
    other j g = ground (arith, differs, g, get-put_record job jobs o.chosen.id)

pub push-IsLed :
    (s : Tabs) (args : Dispatch)
    → IsSteady s (dispatches args)
    → IsLed s
    → IsLed (record s { database = (IndexedDb.push s.database args).0 })
unfolding create_queued_job
push-IsLed s args (free, unheld, unchosen) l =
    push_cases (λ c. IdsDistinct c.jobs → IsLed (record s { database = c })) s.database args
      (λ d. l)
      (λ d. record {
        ordered =
            store-IsOrdered s.database.jobs s.held _ job (get-put_record job s.database.jobs) unheld
              waits refl l.ordered;
        distinct = d;
        one_pop = push-AtMostOne job s.leader s.database.jobs s.held s.open_pops unchosen l.one_pop;
      })
      (push-IdsDistinct s.database args l.distinct)
  where
    job : Job
    job = create_queued_job s.database.name no_defaults args

    waits : is_waiting job.status ≡ true
    waits = ground arith

-- No `pop` is open in the leader's tab, so none is open.
none_open :
    (tab : ℕ) (jobs held : List Job) (opens : List OpenPop)
    → AtMostOne tab jobs held opens
    → find (of_tab tab) opens ≡ none
    → opens ≡ []
none_open tab jobs held [] a e = refl
none_open tab jobs held (o ∷ rest) (t, r, c) e = absurd (ground (arith, e, t))

scan-choose :
    (c : IndexedDbConnection) (queue : String) (now : ℕ)
    → scan c queue now ≡ choose queue now c.jobs
unfolding scan
scan-choose c queue now = sym (oldest-keep (in_queue queue) (is_due now) none c.jobs)

pub scan-IsLed :
    (s : Tabs) (tab : ℕ) (queue : String) (now : ℕ)
    → find (of_tab tab) s.open_pops ≡ none
    → IsLed s
    → IsLed (start_pop s tab queue now)
unfolding start_pop
scan-IsLed s tab queue now free l = elim (Bool-cases (s.leader == tab)) [
  | inr n ↦ rw (n, start_pop) l
  | inl y ↦ elim (Bool-cases (IndexedDb.is_paused s.database queue)) [
    | inl p ↦ rw (y, p, start_pop) l
    | inr p ↦ elim (Option-cases (scan s.database queue now)) [
      | inl e ↦ rw (y, p, e, start_pop) l
      | inr (k, e) ↦
          let leads : s.leader ≡ tab = ground (arith, y) in
          let c : choose queue now s.database.jobs ≡ some k =
            sym (scan-choose s.database queue now) ∙ e in
          let found = get-choose queue now s.database.jobs l.distinct c in
          let waits = chosen_waiting queue now s.database.jobs c in
          rw (y, p, e, start_pop)
            (record {
              ordered = l.ordered;
              distinct = l.distinct;
              one_pop = (
                sym leads,
                none_open tab s.database.jobs s.held s.open_pops
                    (subst (λ t. AtMostOne t s.database.jobs s.held s.open_pops) leads l.one_pop)
                    free,
                record {
                  waits = waits;
                  room = (l.ordered.within k.id k found).1 waits;
                  free = waiting-free s.database.jobs s.held k found waits l.ordered;
                  stored = λ j g. ground (arith, found, g);
                },
              );
            })
    ]
  ]
]

-- The open `pop` of a tab is the only one.
only_open :
    (leader tab : ℕ) (jobs held : List Job) (opens : List OpenPop) {o : OpenPop}
    → AtMostOne leader jobs held opens
    → find (of_tab tab) opens ≡ some o
    → (keep (λ p. not (of_tab tab p)) opens ≡ []) × IsChosen jobs held o.chosen
only_open leader tab jobs held [] {o} a e = absurd (ground (arith, e))
only_open leader tab jobs held (p ∷ rest) {o} (t, r, c) e = elim (Bool-cases (p.tab == tab)) [
  | inl y ↦
      let q : p ≡ o = ground (arith, e, y) in
      let c' = subst (λ (x : OpenPop). IsChosen jobs held x.chosen) q c in rw (y, r) (refl, c')
  | inr n ↦ absurd (ground (arith, e, n, r))
]

-- The record is stored as reserved, also if it was removed in between.
pub commit-IsLed : (s : Tabs) (tab later : ℕ) → IsLed s → IsLed (finish_pop s tab later)
unfolding finish_pop IndexedDb.commit
commit-IsLed s tab later l = elim (Option-cases (find (of_tab tab) s.open_pops)) [
  | inl e ↦ rw (e, finish_pop) l
  | inr (o, e) ↦
      let (alone, c) =
        only_open s.leader tab s.database.jobs s.held s.open_pops {o = o} l.one_pop e in
      rw (e, finish_pop)
        (record {
          ordered =
              take_free-IsOrdered s.database.jobs s.held _ o.chosen later
                (get-put_record (reserve later o.chosen) s.database.jobs) c.free c.room l.ordered;
          distinct = put_record-IdsDistinct (reserve later o.chosen) s.database.jobs l.distinct;
          one_pop = subst (AtMostOne s.leader _ _) (sym alone) tt;
        })
]
