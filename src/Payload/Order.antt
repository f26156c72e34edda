-- ===== src/Payload/Order.antt =====
-- The order of texts, and what sorting makes of entries in another order.
use ts_queue.Payload.{Text, Entry, text_leb, insert_entry}
use ts_queue.Prelude.{true, List, [], ◌∷◌, ◌≡◌, ◌≢◌, refl, arith, ◌||◌}

leb_total : (s t : Text) → (text_leb s t || text_leb t s) ≡ true
unfolding text_leb
leb_total [] t = refl
leb_total (u ∷ s) [] = refl
leb_total (u ∷ s) (v ∷ t) = ground (arith, leb_total s t)

leb_antisym : (s t : Text) → text_leb s t ≡ true → text_leb t s ≡ true → s ≡ t
unfolding text_leb
leb_antisym [] [] h k = refl
leb_antisym [] (v ∷ t) h k = ground arith
leb_antisym (u ∷ s) [] h k = ground arith
leb_antisym (u ∷ s) (v ∷ t) h k = ground (arith, leb_antisym s t)

leb_trans : (r s t : Text) → text_leb r s ≡ true → text_leb s t ≡ true → text_leb r t ≡ true
unfolding text_leb
leb_trans [] s t h k = refl
leb_trans (u ∷ r) [] t h k = ground arith
leb_trans (u ∷ r) (v ∷ s) [] h k = ground arith
leb_trans (u ∷ r) (v ∷ s) (w ∷ t) h k = ground (arith, leb_trans r s t)

-- Entries under two names are inserted in either order.
pub insert_comm :
    (e f : Entry) (l : List Entry)
    → e.0 ≢ f.0
    → insert_entry e (insert_entry f l) ≡ insert_entry f (insert_entry e l)
unfolding insert_entry
insert_comm e f [] ne = ground (arith, leb_total e.0 f.0, leb_antisym e.0 f.0)
insert_comm e f (g ∷ gs) ne = ground (
  arith,
  leb_total e.0 f.0,
  leb_antisym e.0 f.0,
  leb_trans e.0 f.0 g.0,
  leb_trans f.0 e.0 g.0,
  insert_comm e f gs,
)
