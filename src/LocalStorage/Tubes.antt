-- ===== src/LocalStorage/Tubes.antt =====
-- The loops of `remove`, `release` and `fail` over the tubes that the prefix scan finds.
use text.Mathlib.TextLemmas.{nil-append, cons-append}
use ts_queue.Base
use ts_queue.Job.{Job}
use ts_queue.Jobs.{get}
use ts_queue.LocalStorage.{
  LocalStorageConnection, key_prefix, key_for, read, write, own_queues, list_queues, update_in,
}
use ts_queue.LocalStorage.Store.{Cell, get_item, keys, parse, strip}
use ts_queue.Prelude.{
  String, Bool, true, List, [], ◌∷◌, none, some, ◌≡◌, refl, arith, same, Bool-cases, Option-cases,
  inl, inr, if◌then◌else◌, ◌+++◌,
}

strip-append : (p k : String) → strip p (p +++ k) ≡ k
unfolding strip
strip-append String.[] k = nil-append k
strip-append (String.◌∷◌ c p) k = rw cons-append (strip-append p k)

-- A key with a cell is listed.
has-keys :
    (k : String) (cells : List (String × Cell)) {v : Cell}
    → get_item k cells ≡ some v
    → Base.has k (keys cells) ≡ true
unfolding Base.has keys get_item
has-keys k [] h = ground arith
has-keys k ((j, w) ∷ cells) {v} h = ground (arith, has-keys k cells {v = v})

-- `startsWith` accepts a text that begins with the prefix.
abbrev pub AcceptsPrefix : (String → String → Bool) → Type 0
AcceptsPrefix starts_with = (p k : String) → starts_with (p +++ k) p ≡ true

module _ (starts_with : String → String → Bool) where
  has-own_queues :
      (p q : String) (ks : List String)
      → AcceptsPrefix starts_with
      → Base.has (p +++ q) ks ≡ true
      → Base.has q (own_queues starts_with p ks) ≡ true
  unfolding Base.has own_queues
  has-own_queues p q [] accepts h = h
  has-own_queues p q (k ∷ ks) accepts h = elim (Bool-cases (same k (p +++ q))) [
    | inl e ↦
        let k_is : k ≡ p +++ q = ground arith in
        rw k_is (ground (arith, accepts p q, strip-append p q))
    | inr e ↦ ground (arith, has-own_queues p q ks accepts)
  ]

  -- A tube that holds a job is found.
  pub has-list_queues :
      (s : LocalStorageConnection) (q id : String) {j : Job}
      → AcceptsPrefix starts_with
      → get id (read s q).jobs ≡ some j
      → Base.has q (list_queues starts_with s) ≡ true
  unfolding list_queues read key_for parse key_prefix
  has-list_queues s q id accepts h = elim (Bool-cases s.store.available) [
    | inr e ↦ absurd (ground arith)
    | inl e ↦ elim (Option-cases (get_item (key_for s q) s.store.cells)) [
      | inl n ↦ absurd (ground arith)
      | inr (v, n) ↦ rw e (
          has-own_queues (key_prefix s) q (keys s.store.cells) accepts
            (has-keys (key_for s q) s.store.cells n))
    ]
  ]

  module _ (s : LocalStorageConnection) (id : String) (f : List Job → List Job) where
    -- The one tube with the job is rewritten.
    pub update_in-write :
        (target : String) (j : Job) (queues : List String)
        → ((q : String) → get id (read s q).jobs ≡ (if same q target then some j else none))
        → Base.has target queues ≡ true
        → update_in starts_with queues s id f
          ≡ write s target (record (read s target) { jobs = f (read s target).jobs })
    unfolding update_in Base.has
    update_in-write target j [] there h = cc
    update_in-write target j (q ∷ queues) there h =
        ground (arith, there q, update_in-write target j queues there)

    pub update_in_absent :
        (queues : List String)
        → ((q : String) → get id (read s q).jobs ≡ none)
        → update_in starts_with queues s id f ≡ s
    unfolding update_in
    update_in_absent [] absent = refl
    update_in_absent (q ∷ queues) absent = rw (update_in, absent q) (update_in_absent queues absent)
