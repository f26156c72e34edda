-- ===== src/LocalStorage/Cells.antt =====
-- Reads after writes, and the tubes that the prefix scan finds.
use text.Mathlib.TextLemmas.{append_cancel_left}
use ts_queue.LocalStorage.{LocalStorageConnection, key_prefix, key_for, read, write, clear}
use ts_queue.LocalStorage.Store.{
  Blob, no_blob, Cell, json, set_item, parse, get-set, get-remove_self, get-remove_ne,
}
use ts_queue.Prelude.{String, true, List, some, ◌≡◌, refl, ap, arith, same, if◌then◌else◌}

key_for-injective : (s : LocalStorageConnection) (q r : String) → key_for s q ≡ key_for s r → q ≡ r
unfolding key_for
key_for-injective s q r e = append_cancel_left (key_prefix s) q r e

same-key_for :
    (s : LocalStorageConnection) (q r : String) → same (key_for s q) (key_for s r) ≡ same q r
same-key_for s q r = ground (arith, key_for-injective s q r, ap (key_for s))

-- The store exists and has room.
pub record IsRoomy (s : LocalStorageConnection) : Type 0 where
  pub available : s.store.available ≡ true
  pub room : (cells : List (String × Cell)) → s.store.fits cells ≡ true

abbrev written : LocalStorageConnection → String → Blob → LocalStorageConnection
written s q b = record s {
  store = record (s.store) {
    cells = set_item (key_for s q) (json (some b.jobs) b.paused) s.store.cells;
  };
}

write-written :
    (s : LocalStorageConnection) (q : String) (b : Blob) → IsRoomy s → write s q b ≡ written s q b
unfolding write
write-written s q b room = rw (room.available, room.room _)

key_for-written :
    (s : LocalStorageConnection) (q r : String) (b : Blob) → key_for (written s q b) r ≡ key_for s r
unfolding key_for key_prefix
key_for-written s q r b = refl

read-written :
    (s : LocalStorageConnection) (q r : String) (b : Blob)
    → IsRoomy s
    → read (written s q b) r ≡ (if same q r then b else read s r)
unfolding read parse
read-written s q r b room = ground (
  arith,
  key_for-written s q r b,
  get-set (key_for s q) (key_for s r) (json (some b.jobs) b.paused) s.store.cells,
  same-key_for s q r,
)

-- A tube reads as it was last written; the others are not touched.
pub read-write :
    (s : LocalStorageConnection) (q r : String) (b : Blob)
    → IsRoomy s
    → read (write s q b) r ≡ (if same q r then b else read s r)
read-write s q r b room = rw (write-written s q b room) (read-written s q r b room)

pub write-IsRoomy :
    (s : LocalStorageConnection) (q : String) (b : Blob) → IsRoomy s → IsRoomy (write s q b)
write-IsRoomy s q b room =
    rw (write-written s q b room) (record { available = room.available; room = room.room })

pub write-name : (s : LocalStorageConnection) (q : String) (b : Blob) → (write s q b).name ≡ s.name
unfolding write
write-name s q b = ground arith

-- A cleared tube reads as empty and not paused.
pub read-clear :
    (s : LocalStorageConnection) (q r : String)
    → IsRoomy s
    → read (clear s q) r ≡ (if same q r then no_blob else read s r)
unfolding read clear parse key_for key_prefix
read-clear s q r room = ground (
  arith,
  room.available,
  get-remove_self (key_for s q) s.store.cells,
  get-remove_ne (key_for s q) (key_for s r) s.store.cells,
  key_for-injective s q r,
)

pub clear-IsRoomy : (s : LocalStorageConnection) (q : String) → IsRoomy s → IsRoomy (clear s q)
unfolding clear
clear-IsRoomy s q room = record {
  available = ground (arith, room.available);
  room = λ cells. ground (arith, room.room cells);
}

pub clear-name : (s : LocalStorageConnection) (q : String) → (clear s q).name ≡ s.name
unfolding clear
clear-name s q = ground arith
