-- ===== src/Broadcast/Tabs/Safety.antt =====
-- The tabs of a database, in every order of their acts.
use ts_queue.Broadcast.Tabs.{
  Tabs, Act, act, IsSteady, Reach, here, next, elects, dispatches, scans, commits, removes,
  releases, fails, drops, clears, pauses, resumes, closes,
}
use ts_queue.Broadcast.Tabs.Led.{AtMostOne, IsLed, shrink-IsLed, close-IsLed}
use ts_queue.Broadcast.Tabs.Leads.{push-IsLed, scan-IsLed, commit-IsLed}
use ts_queue.Broadcast.Tabs.Settles.{remove-IsLed, fail-IsLed, release-IsLed}
use ts_queue.IndexedDb
use ts_queue.Job.{Job}
use ts_queue.Jobs.{get, without, in_queue}
use ts_queue.Jobs.Ids.{get-has_id, keep-IdsDistinct}
use ts_queue.Jobs.Views.{get-keep, get-without}
use ts_queue.Prelude.{ℕ, String, some, ◌≡◌, sym, subst, arith, not}
use ts_queue.Worker.Held.{none-IsOrdered}

-- A job that is held under an id has that id.
own_id : (s : Tabs) (id : String) (h : Job) → get id s.held ≡ some h → h.id ≡ id
own_id s id h g = get-has_id id s.held g

act-IsLed : (s : Tabs) (a : Act) → IsSteady s a → IsLed s → IsLed (act s a)
unfolding act IndexedDb.remove IndexedDb.clear IndexedDb.pause IndexedDb.resume IndexedDb.write_meta
act-IsLed s (elects tab) none_open l = record {
  ordered = l.ordered;
  distinct = l.distinct;
  one_pop = subst (AtMostOne tab s.database.jobs s.held) (sym none_open) tt;
}
act-IsLed s (dispatches args) f l = push-IsLed s args f l
act-IsLed s (scans tab queue now) f l = scan-IsLed s tab queue now f l
act-IsLed s (commits tab later) f l = commit-IsLed s tab later l
act-IsLed s (removes id) (h, g) l =
    let q = own_id s id h g in
    subst (λ i. IsLed (act s (removes i))) q
      (remove-IsLed s h l (subst (λ i. get i s.held ≡ some h) (sym q) g))
act-IsLed s (releases id delay_ms now) (h, g, left) l =
    let q = own_id s id h g in
    subst (λ i. IsLed (act s (releases i delay_ms now))) q
      (release-IsLed s h l (subst (λ i. get i s.held ≡ some h) (sym q) g) delay_ms now left)
act-IsLed s (fails id reason now) (h, g) l =
    let q = own_id s id h g in
    subst (λ i. IsLed (act s (fails i reason now))) q
      (fail-IsLed s h l (subst (λ i. get i s.held ≡ some h) (sym q) g) reason now)
act-IsLed s (drops id) f l =
    shrink-IsLed s (without id s.database.jobs)
      (λ i j e. ground (arith, e, get-without id s.database.jobs i))
      (keep-IdsDistinct _ s.database.jobs l.distinct) l
act-IsLed s (clears queue) f l =
    shrink-IsLed s _
      (λ i j e.
        ground (arith, e, get-keep (λ k. not (in_queue queue k)) i s.database.jobs l.distinct))
      (keep-IdsDistinct _ s.database.jobs l.distinct) l
act-IsLed s (closes tab) f l = close-IsLed s tab l
act-IsLed s (pauses queue) f l = record {
  ordered = l.ordered;
  distinct = l.distinct;
  one_pop = l.one_pop;
}
act-IsLed s (resumes queue) f l = record {
  ordered = l.ordered;
  distinct = l.distinct;
  one_pop = l.one_pop;
}

-- In every state that the tabs of one database reach, if each tab waits for its `pop` before it starts another one, so
-- has one worker; the leader changes between `pop`s only; new jobs have unused ids; and only the worker that holds a job
-- releases or fails it, the first while it has attempts left. Between the transactions of a `pop` may come dispatches,
-- settlements, removals of any job, clears, pauses and resumes, and closed connections. Then ids are distinct; at most
-- one `pop` has chosen a job, in the tab that leads, and the job is not held and unchanged if it is still stored; and the
-- jobs that were handed out are held once each, reserved, and stored, if at all, as they were handed out, while every
-- stored job that is reserved is held and no stored job has more attempts than its `tries`, or than one if that is none.
pub Reach-IsLed : (name : String) (leader : ℕ) {s : Tabs} → Reach name leader s → IsLed s
Reach-IsLed name leader here = record { ordered = none-IsOrdered; distinct = tt; one_pop = tt }
Reach-IsLed name leader (next {s} r a f) = act-IsLed s a f (Reach-IsLed name leader r)
