-- ===== src/IndexedDb/Opening.antt =====
-- `openDb` and `close` of src/connections/indexeddb.connection.ts. The browser has a version and the
-- names of the object stores for each database. It asks for an upgrade if the version that is
-- asked for is above that of the database, and rejects one below it. An upgrade that another open
-- connection blocks is left out.
pub mod Sharing
use text.Mathlib.TextLemmas.{append_cancel_left, cons-append, cons-eq-cons}
use ts_queue.Base.{has}
use ts_queue.Errors.{Error, thrown, Result, ok, err}
use ts_queue.Prelude.{
  ℕ, String, Bool, true, false, not, List, [], ◌∷◌, ◌++◌, Option, none, some, or_default, ltb, same,
  ◌+++◌, if◌then◌else◌,
}
use ts_queue.Prelude.Maps.{lookup, insert}

pub record Database : Type 0 where
  pub version : ℕ
  pub stores : List String

pub record Browser : Type 0 where
  pub available : Bool  -- typeof indexedDB !== "undefined"
  pub databases : List (String × Database)

pub record Opener : Type 0 where
  pub name : String
  pub db_name : String
  pub version : ℕ
  pub prefix : String
  pub db_promise : Option (Result (Unit {0}))  -- how the cached promise settles

abbrev pub jobs_store : Opener → String
jobs_store c = c.prefix +++ "jobs:" +++ c.name

abbrev pub meta_store : Opener → String
meta_store c = c.prefix +++ "meta:" +++ c.name

-- A database that is not there yet.
abbrev pub no_database : Database
no_database = record { version = 0; stores = [] }

abbrev pub database_of : Browser → String → Database
database_of b name = or_default (lookup name b.databases) no_database

abbrev pub create_store : String → List String → List String
create_store s stores = if has s stores then stores else stores ++ s ∷ []

-- `onupgradeneeded`
unfoldable pub upgrade : Opener → Database → Database
unfolding has
upgrade c db = record {
  version = c.version;
  stores = create_store (meta_store c) (create_store (jobs_store c) db.stores);
}

-- The request to open, and how its promise settles.
unfoldable pub request_open : Browser → Opener → Browser × Result (Unit {0})
unfolding upgrade lookup insert
request_open b c =
    let db = database_of b c.db_name in
    if not b.available
    then (b, err (thrown "IndexedDB is not available in this environment."))
    else if ltb c.version db.version
    then (b, err (thrown "VersionError"))
    else if ltb db.version c.version
    then (record b { databases = insert c.db_name (upgrade c db) b.databases }, ok tt)
    else (b, ok tt)

unfoldable pub open_db : Browser → Opener → Browser × Opener × Result (Unit {0})
unfolding request_open
open_db b c = elim c.db_promise [
  | some r ↦ (b, c, r)
  | none ↦ let (b', r) = request_open b c in (b', record c { db_promise = some r }, r)
]

-- `close` waits for the promise: if that rejects, so does `close`.
unfoldable pub close : Opener → Opener × Result (Unit {0})
close c = elim c.db_promise [
  | none ↦ (c, ok tt)
  | some (ok _) ↦ (record c { db_promise = none }, ok tt)
  | some (err e) ↦ (c, err e)
]

-- A transaction on a store that the database lacks throws.
unfoldable pub can_transact : Browser → Opener → Bool
unfolding has lookup
can_transact b c = has (jobs_store c) (database_of b c.db_name).stores
