-- ===== src/Broadcast.antt =====
-- src/connections/broadcast-channel.connection.ts: the IndexedDB driver for the tab that leads.
-- The coordinator of the tabs is another package: a tab asks it whether it leads.

pub mod Tabs
use ts_queue.IndexedDb
use ts_queue.IndexedDb.{IndexedDbConnection}
use ts_queue.Job.{Job, Dispatch}
use ts_queue.Prelude.{ℕ, String, Bool, false, not, Option, none, some, if◌then◌else◌}

-- `this.coordinator && !this.coordinator.isLeader()`; a tab without a coordinator is no follower.
abbrev pub is_follower : Option Bool → Bool
is_follower none = false
is_follower (some is_leader) = not is_leader

unfoldable pub push : IndexedDbConnection → Dispatch → IndexedDbConnection × String
push c args = IndexedDb.push c args

-- `coordinator` is the coordinator's answer, if there is one.
unfoldable pub pop :
    Option Bool → IndexedDbConnection → String → ℕ → ℕ → IndexedDbConnection × Option Job
unfolding IndexedDb.pop
pop coordinator c queue now later =
    if is_follower coordinator then (c, none) else IndexedDb.pop c queue now later

unfoldable pub close : IndexedDbConnection → IndexedDbConnection
close c = IndexedDb.close c
