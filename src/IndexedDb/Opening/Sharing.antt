-- ===== src/IndexedDb/Opening/Sharing.antt =====
-- Which object stores there are after a database was opened.
use text.Mathlib.TextLemmas.{append_cancel_left, cons-append, cons-eq-cons}
use Prim.Native.Char.{code}
use ts_queue.Base.{has, has-append}
use ts_queue.Errors.{Error, Result, ok, err}
use ts_queue.IndexedDb.Opening.{
  Database, Browser, Opener, jobs_store, meta_store, database_of, create_store, upgrade,
  request_open, open_db, close, can_transact,
}
use ts_queue.Prelude.{
  ◌<◌, String, true, false, ◌||◌, List, [], ◌∷◌, none, some, ◌≡◌, ◌≢◌, refl, sym, ◌∙◌, ap, subst,
  arith, same, ◌+++◌, inl, inr, Option-cases,
}
use ts_queue.Prelude.Maps.{lookup, insert, lookup-insert}

has-create_store :
    (s r : String) (stores : List String)
    → has r (create_store s stores) ≡ (same s r || has r stores)
unfolding has
has-create_store s r stores = ground (arith, has-append r stores (s ∷ []))

upgraded : Browser → Opener → Browser
upgraded b c = record b {
  databases = insert c.db_name (upgrade c (database_of b c.db_name)) b.databases;
}

request_upgrades :
    (b : Browser) (c : Opener)
    → b.available ≡ true
    → (database_of b c.db_name).version < c.version
    → request_open b c ≡ (upgraded b c, ok tt)
unfolding request_open upgraded
request_upgrades b c on older = ground (arith, on)

-- A first call of `openDb`.
first_open :
    (b : Browser) (c : Opener)
    → c.db_promise ≡ none
    → open_db b c ≡ (
      (request_open b c).0,
      record c { db_promise = some (request_open b c).1 },
      (request_open b c).1,
    )
unfolding open_db
first_open b c fresh = rw (fresh, open_db) refl

upgraded_database :
    (b : Browser) (c : Opener)
    → database_of (upgraded b c) c.db_name ≡ upgrade c (database_of b c.db_name)
unfolding upgraded
upgraded_database b c =
    ground
      (arith, lookup-insert c.db_name c.db_name (upgrade c (database_of b c.db_name)) b.databases)

has-upgrade :
    (c : Opener) (db : Database) (s : String)
    → has s (upgrade c db).stores
      ≡ (same (meta_store c) s || (same (jobs_store c) s || has s db.stores))
unfolding upgrade
has-upgrade c db s = ground (
  arith,
  has-create_store (meta_store c) s (create_store (jobs_store c) db.stores),
  has-create_store (jobs_store c) s db.stores,
)

-- What an upgrade leaves.
abbrev pub Upgraded : Browser → Opener → Browser × Opener × Result (Unit {0}) → Type 0
Upgraded b c (b', c', r) =
    (r ≡ ok tt)
    × (can_transact b' c ≡ true)
    × ((s : String)
        → has s (database_of b' c.db_name).stores ≡ (
            same (meta_store c) s
            || (same (jobs_store c) s || has s (database_of b c.db_name).stores)))
    × ((database_of b' c.db_name).version ≡ c.version)

-- The first `openDb` of a connection to a database that is new or has an older version succeeds:
-- the database then has the version and the two stores of the connection beside those that it
-- had, and no other.
pub open_db-Upgraded :
    (b : Browser) (c : Opener)
    → b.available ≡ true
    → c.db_promise ≡ none
    → (database_of b c.db_name).version < c.version
    → Upgraded b c (open_db b c)
unfolding can_transact upgrade
open_db-Upgraded b c on fresh older =
    let opened =
      first_open b c fresh
      ∙ ap (λ (r : Browser × Result (Unit {0})). (r.0, record c { db_promise = some r.1 }, r.1))
          (request_upgrades b c on older) in
    subst (Upgraded b c) (sym opened) (
      refl,
      rw (upgraded_database b c)
          (ground (arith, has-upgrade c (database_of b c.db_name) (jobs_store c))),
      (λ s. rw (upgraded_database b c) (has-upgrade c (database_of b c.db_name) s)),
      ap (λ (d : Database). d.version) (upgraded_database b c) ∙ versions,
    )
  where
    versions : (upgrade c (database_of b c.db_name)).version ≡ c.version
    versions = refl

-- `"jobs:"` and `"meta:"` keep the stores of two connections apart.
other_store :
    (c d : Opener)
    → c.prefix ≡ d.prefix
    → c.name ≢ d.name
    → (same (meta_store c) (jobs_store d) || same (jobs_store c) (jobs_store d)) ≡ false
other_store c d p ne =
    ground (
      arith,
      differ (meta_store c) (jobs_store d),
      differ (jobs_store c) (jobs_store d),
      meta,
      jobs,
    )
  where
    differ : (s t : String) → s ≢ t → same s t ≡ false
    differ s t h = ground arith

    cancel : (s t : String) → c.prefix +++ s ≡ d.prefix +++ t → s ≡ t
    cancel s t e = append_cancel_left c.prefix s t (e ∙ ap (λ x. x +++ t) (sym p))

    jobs : jobs_store c ≢ jobs_store d
    jobs e = ne (
        append_cancel_left "jobs:" c.name d.name
          (cancel ("jobs:" +++ c.name) ("jobs:" +++ d.name) e))

    meta : meta_store c ≢ jobs_store d
    meta e =
        let first : "m" ≡ "j" =
          (cons-eq-cons.0 (
            sym (cons-append "m" "eta:" c.name)
            ∙ cancel ("meta:" +++ c.name) ("jobs:" +++ d.name) e
            ∙ cons-append "j" "obs:" d.name)).0 in
        absurd (omega (arith, ap code first))

request_idle :
    (b : Browser) (c : Opener)
    → b.available ≡ true
    → (database_of b c.db_name).version ≡ c.version
    → request_open b c ≡ (b, ok tt)
unfolding request_open
request_idle b c on e = ground (arith, on, e)

still_on : (b : Browser) (c : Opener) → b.available ≡ true → (open_db b c).0.available ≡ true
unfolding open_db request_open
still_on b c on = ground (arith, on)

-- Two connections of different names share a database, its version and a prefix. The first one
-- creates the database; `openDb` of the second one succeeds too, but the database lacks its
-- stores.
pub shared_database :
    (b : Browser) (c d : Opener)
    → b.available ≡ true
    → c.db_promise ≡ none
    → d.db_promise ≡ none
    → lookup c.db_name b.databases ≡ none
    → d.db_name ≡ c.db_name
    → d.version ≡ c.version
    → 0 < c.version
    → d.prefix ≡ c.prefix
    → d.name ≢ c.name
    → let b' = (open_db b c).0 in
      let (b'', d', r) = open_db b' d in (r ≡ ok tt) × (b'' ≡ b') × (can_transact b'' d ≡ false)
unfolding can_transact
shared_database b c d on fresh fresh' new same_db same_version positive same_prefix ne =
    let (won, mine, stores, version) = open_db-Upgraded b c on fresh (ground (arith, new)) in
    let c' = database_of (open_db b c).0 c.db_name in
    let seen : database_of (open_db b c).0 d.db_name ≡ c' = rw same_db refl in
    let lacks : has (jobs_store d) c'.stores ≡ false =
      ground
        (arith, stores (jobs_store d), other_store c d (sym same_prefix) (λ e. ne (sym e)), new) in
    let idle =
      request_idle (open_db b c).0 d (still_on b c on) (rw seen (version ∙ sym same_version)) in
    let opened =
      first_open (open_db b c).0 d fresh'
      ∙ ap (λ (r : Browser × Result (Unit {0})). (r.0, record d { db_promise = some r.1 }, r.1))
          idle in
    rw opened (refl, refl, rw seen lacks)

settled : (b : Browser) (c : Opener) → (open_db b c).1.db_promise ≡ some (open_db b c).2
unfolding open_db
settled b c = elim (Option-cases c.db_promise) [
  | inl e ↦ rw (e, open_db) refl
  | inr (r, e) ↦ rw (e, open_db) e
]

stays :
    (b : Browser) (c : Opener) {e : Error}
    → c.db_promise ≡ some (err e)
    → (open_db b c ≡ (b, c, err e)) × (close c ≡ (c, err e))
unfolding open_db close
stays b c h = (ground (arith, h), ground (arith, h))

-- A call of `openDb` that failed is final: every later call fails with the same error, without
-- asking the browser again, and `close` fails with it too and changes nothing.
pub failed_open :
    (b b' : Browser) (c : Opener) {e : Error}
    → (open_db b c).2 ≡ err e
    → let c' = (open_db b c).1 in (open_db b' c' ≡ (b', c', err e)) × (close c' ≡ (c', err e))
failed_open b b' c {e} h = stays b' (open_db b c).1 (settled b c ∙ ap some h)
