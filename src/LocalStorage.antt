-- ===== src/LocalStorage.antt =====
-- src/connections/local-storage.connection.ts. The browser's store is an argument: its cells in
-- the order of `localStorage.key`, whether it exists, and which contents it has room for. A cell
-- holds the JSON text of a blob, or another text. `JSON.parse` gives back what `JSON.stringify`
-- was given. `Str.startsWith` of the support package is a parameter.
pub mod Store
pub mod Cells
pub mod Tubes
pub mod Refinement
pub mod Steps
pub mod Agreement
use ts_queue.Job.{
  Job, JobStatus, pending, delayed, reserved, Dispatch, create_queued_job, no_defaults, same_status,
  is_in_flight,
}
use ts_queue.Jobs.{
  get, without, modify, oldest, is_due, reserve, released, marked_failed, find_duplicate,
}
use ts_queue.LocalStorage.Store.{
  Storage, Blob, no_blob, Cell, json, get_item, set_item, remove_item, keys, parse, strip,
}
use ts_queue.Prelude.{
  ℕ, String, Bool, true, false, not, ◌&&◌, List, [], ◌∷◌, ◌++◌, Option, none, some, count, keep,
  length, ◌==◌, if◌then◌else◌, ◌+++◌,
}

pub record LocalStorageConnection : Type 0 where
  pub name : String
  pub prefix : String
  pub store : Storage

unfoldable pub key_prefix : LocalStorageConnection → String
key_prefix c = c.prefix +++ "queue:" +++ c.name +++ ":"

unfoldable pub key_for : LocalStorageConnection → String → String
key_for c queue = key_prefix c +++ queue

unfoldable pub read : LocalStorageConnection → String → Blob
read c queue =
    if c.store.available then parse (get_item (key_for c queue) c.store.cells) else no_blob

-- A write that does not fit is dropped.
unfoldable pub write : LocalStorageConnection → String → Blob → LocalStorageConnection
write c queue blob =
    let cells = set_item (key_for c queue) (json (some blob.jobs) blob.paused) c.store.cells in
    if c.store.available && c.store.fits cells
    then record c { store = record (c.store) { cells = cells } }
    else c

-- `push`, once the job is built.
unfoldable pub store_job : LocalStorageConnection → Job → LocalStorageConnection × String
store_job c job =
    let blob = read c job.queue in
    elim (find_duplicate job blob.jobs) [
      | some existing ↦ (c, existing.id)
      | none ↦ (write c job.queue (record blob { jobs = blob.jobs ++ job ∷ [] }), job.id)
    ]

unfoldable pub push : LocalStorageConnection → Dispatch → LocalStorageConnection × String
push c args = store_job c (create_queued_job c.name no_defaults args)

-- The ids in a blob are distinct: the chosen job is updated under its id.
unfoldable pub pop : LocalStorageConnection → String → ℕ → LocalStorageConnection × Option Job
pop c queue now =
    let blob = read c queue in
    if blob.paused then (c, none) else elim (oldest (is_due now) none blob.jobs) [
      | none ↦ (c, none)
      | some chosen ↦ (
        write c queue (record blob { jobs = modify chosen.id (reserve now) blob.jobs }),
        some (reserve now chosen),
      )
    ]

unfoldable pub size : LocalStorageConnection → String → ℕ
size c queue = count (λ j. is_in_flight j.status) (read c queue).jobs

unfoldable pub count_by_status : LocalStorageConnection → String → JobStatus → ℕ
count_by_status c queue status = count (λ j. same_status j.status status) (read c queue).jobs

unfoldable pub pending_size : LocalStorageConnection → String → ℕ
pending_size c queue = count_by_status c queue pending

unfoldable pub delayed_size : LocalStorageConnection → String → ℕ
delayed_size c queue = count_by_status c queue delayed

unfoldable pub reserved_size : LocalStorageConnection → String → ℕ
reserved_size c queue = count_by_status c queue reserved

module _ (starts_with : String → String → Bool) where
  -- The keys under this connection's prefix, without it.
  unfoldable pub own_queues : String → List String → List String
  own_queues prefix [] = []
  own_queues prefix (k ∷ ks) =
      let rest = own_queues prefix ks in
      if starts_with k prefix then strip prefix k ∷ rest else rest

  unfoldable pub list_queues : LocalStorageConnection → List String
  list_queues c = if c.store.available then own_queues (key_prefix c) (keys c.store.cells) else []

  -- `for (const queue of …)`: the first tube with the job is rewritten.
  unfoldable pub update_in :
      List String → LocalStorageConnection → String → (List Job → List Job) → LocalStorageConnection
  update_in [] c id f = c
  update_in (queue ∷ queues) c id f =
      let blob = read c queue in
      let rest = update_in queues c id f in
      elim (get id blob.jobs) [
        | none ↦ rest
        | some _ ↦ write c queue (record blob { jobs = f blob.jobs })
      ]

  unfoldable pub remove : LocalStorageConnection → String → LocalStorageConnection
  remove c id = update_in (list_queues c) c id (without id)

  unfoldable pub release : LocalStorageConnection → String → ℕ → ℕ → LocalStorageConnection
  release c id delay_ms now = update_in (list_queues c) c id (modify id (released delay_ms now))

  unfoldable pub fail : LocalStorageConnection → String → String → ℕ → LocalStorageConnection
  fail c id reason now = update_in (list_queues c) c id (modify id (marked_failed reason now))

unfoldable pub clear : LocalStorageConnection → String → LocalStorageConnection
clear c queue =
    if c.store.available
    then record c {
      store = record (c.store) { cells = remove_item (key_for c queue) c.store.cells };
    }
    else c

unfoldable pub pause : LocalStorageConnection → String → LocalStorageConnection
pause c queue = write c queue (record (read c queue) { paused = true })

unfoldable pub resume : LocalStorageConnection → String → LocalStorageConnection
resume c queue = write c queue (record (read c queue) { paused = false })

unfoldable pub is_paused : LocalStorageConnection → String → Bool
is_paused c queue = (read c queue).paused

abbrev pub close : LocalStorageConnection → LocalStorageConnection
close c = c
