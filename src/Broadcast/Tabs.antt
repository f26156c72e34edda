-- ===== src/Broadcast/Tabs.antt =====
-- The tabs of one database, each with one worker, on src/connections/broadcast-channel.connection.ts. Between the
-- transactions of a tab's `pop`, and while its processor runs, other tabs go on. The coordinator of another package
-- says which tab leads.
pub mod Led
pub mod Leads
pub mod Settles
pub mod Safety
use ts_queue.Broadcast.{is_follower}
use ts_queue.IndexedDb
use ts_queue.IndexedDb.{IndexedDbConnection, is_paused, scan, commit}
use ts_queue.Job.{Job, Dispatch}
use ts_queue.Jobs.{get, without}
use ts_queue.Prelude.{
  ℕ, ◌==◌, ◌<◌, String, Bool, true, false, not, List, [], ◌∷◌, Option, none, some, ◌≡◌, find, keep,
  same, if◌then◌else◌,
}

-- A `pop` that has chosen a job, and not stored it as reserved yet.
pub record OpenPop : Type 0 where
  pub tab : ℕ
  pub chosen : Job

pub record Tabs : Type 0 where
  pub database : IndexedDbConnection
  pub leader : ℕ
  pub open_pops : List OpenPop
  pub held : List Job  -- handed out to a worker, and not settled yet

pub data Act : Type 0 where
  elects : ℕ → Act
  dispatches : Dispatch → Act
  scans : ℕ → String → ℕ → Act  -- up to the second transaction of `pop` in a tab
  commits : ℕ → ℕ → Act  -- the third one
  removes : String → Act  -- the worker's calls for a job that it holds
  releases : String → ℕ → ℕ → Act
  fails : String → String → ℕ → Act
  drops : String → Act  -- `remove` by an operator, of any job
  clears : String → Act
  pauses : String → Act
  resumes : String → Act
  closes : ℕ → Act  -- a tab closes its connection

abbrev pub of_tab : ℕ → OpenPop → Bool
of_tab tab o = o.tab == tab

abbrev pub opened : ℕ → Option Job → Tabs → Tabs
opened tab none s = s
opened tab (some chosen) s = record s {
  open_pops = record { tab = tab; chosen = chosen } ∷ s.open_pops;
}

-- The leader is asked first, then whether the queue is paused.
unfoldable pub start_pop : Tabs → ℕ → String → ℕ → Tabs
unfolding is_paused scan
start_pop s tab queue now =
    if is_follower (some (s.leader == tab))
    then s
    else if is_paused s.database queue
    then s
    else opened tab (scan s.database queue now) s

unfoldable pub finish_pop : Tabs → ℕ → ℕ → Tabs
unfolding commit
finish_pop s tab later = elim (find (of_tab tab) s.open_pops) [
  | none ↦ s
  | some o ↦
      let (c', job) = commit s.database o.chosen later in
      record s {
        database = c';
        open_pops = keep (λ p. not (of_tab tab p)) s.open_pops;
        held = job ∷ s.held;
      }
]

-- A `pop` whose connection is closed before the third transaction never starts that one, and never settles; a later call of
-- the tab opens the database again.
unfoldable pub act : Tabs → Act → Tabs
unfolding start_pop finish_pop IndexedDb.push IndexedDb.remove IndexedDb.release IndexedDb.fail
    IndexedDb.clear IndexedDb.pause IndexedDb.resume
act s (elects tab) = record s { leader = tab }
act s (dispatches args) = record s { database = (IndexedDb.push s.database args).0 }
act s (scans tab queue now) = start_pop s tab queue now
act s (commits tab later) = finish_pop s tab later
act s (removes id) = record s {
  database = IndexedDb.remove s.database id;
  held = without id s.held;
}
act s (releases id delay_ms now) = record s {
  database = IndexedDb.release s.database id delay_ms now;
  held = without id s.held;
}
act s (fails id reason now) = record s {
  database = IndexedDb.fail s.database id reason now;
  held = without id s.held;
}
act s (drops id) = record s { database = IndexedDb.remove s.database id }
act s (clears queue) = record s { database = IndexedDb.clear s.database queue }
act s (pauses queue) = record s { database = IndexedDb.pause s.database queue }
act s (resumes queue) = record s { database = IndexedDb.resume s.database queue }
act s (closes tab) = record s { open_pops = keep (λ p. not (of_tab tab p)) s.open_pops }

-- The tabs of a new database.
abbrev pub new : String → ℕ → Tabs
new name leader = record {
  database = record { name = name; jobs = []; meta = λ q. none };
  leader = leader;
  open_pops = [];
  held = [];
}

abbrev pub has_chosen : String → OpenPop → Bool
has_chosen id o = same o.chosen.id id

-- A worker settles a job that it holds, and gives it back only while it has attempts left, and nobody else releases or
-- fails a job; a tab waits for its `pop` before it starts the next one; ids are new; and the leader changes between
-- `pop`s only. An operator may remove any job, clear or pause a queue, and close a connection, at any time.
abbrev pub IsSteady : Tabs → Act → Type 0
IsSteady s (elects tab) = s.open_pops ≡ []
IsSteady s (dispatches args) =
    (get args.fresh_id s.database.jobs ≡ none)
    × (get args.fresh_id s.held ≡ none)
    × (find (has_chosen args.fresh_id) s.open_pops ≡ none)
IsSteady s (scans tab queue now) = find (of_tab tab) s.open_pops ≡ none
IsSteady s (commits tab later) = Unit
IsSteady s (removes id) = (h : Job) × (get id s.held ≡ some h)
IsSteady s (releases id delay_ms now) =
    (h : Job) × (get id s.held ≡ some h) × (h.attempts < h.max_attempts)
IsSteady s (fails id reason now) = (h : Job) × (get id s.held ≡ some h)
IsSteady s (drops id) = Unit
IsSteady s (clears queue) = Unit
IsSteady s (pauses queue) = Unit
IsSteady s (resumes queue) = Unit
IsSteady s (closes tab) = Unit

-- The states that such acts lead to, in any order.
pub data Reach (name : String) (leader : ℕ) : Tabs → Type 0 where
  here : Reach name leader (new name leader)
  next : {s : Tabs} → Reach name leader s → (a : Act) → IsSteady s a → Reach name leader (act s a)
