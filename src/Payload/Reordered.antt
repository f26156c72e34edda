-- ===== src/Payload/Reordered.antt =====
-- Payloads that differ in the order of their properties only, at any depth.
use ts_queue.Payload.{
  Text, Value, Items, Fields, array, object, nil, cons, end, field, sort_entries, join, print_entry,
  stable_stringify, print_items, entries,
}
use ts_queue.Payload.Order.{insert_comm}
use ts_queue.Prelude.{[], ◌∷◌, ◌++◌, map, ◌≡◌, ◌≢◌, refl, ◌∙◌, ap}

mutual
  pub data Reordered : Value → Value → Type 0 where
    as_is : {v : Value} → Reordered v v
    in_array : {xs ys : Items} → ReorderedItems xs ys → Reordered (array xs) (array ys)
    in_object : {fs gs : Fields} → ReorderedFields fs gs → Reordered (object fs) (object gs)

  pub data ReorderedItems : Items → Items → Type 0 where
    no_items : ReorderedItems nil nil
    items :
        {v w : Value} {xs ys : Items}
        → Reordered v w
        → ReorderedItems xs ys
        → ReorderedItems (cons v xs) (cons w ys)

  pub data ReorderedFields : Fields → Fields → Type 0 where
    no_fields : ReorderedFields end end
    fields :
        {k : Text} {v w : Value} {fs gs : Fields}
        → Reordered v w
        → ReorderedFields fs gs
        → ReorderedFields (field k v fs) (field k w gs)
    swap :
        {k l : Text} {v w : Value} {fs : Fields}
        → k ≢ l
        → ReorderedFields (field k v (field l w fs)) (field l w (field k v fs))
    and_then :
        {fs gs hs : Fields} → ReorderedFields fs gs → ReorderedFields gs hs → ReorderedFields fs hs

mutual
  unfolding stable_stringify print_items entries sort_entries

  pub stringify-same : (a b : Value) → Reordered a b → stable_stringify a ≡ stable_stringify b
  stringify-same a b as_is = refl
  stringify-same a b (in_array {xs} {ys} r) =
      ap (λ l. b'[' ∷ (join l ++ b']' ∷ [])) (print-same xs ys r)
  stringify-same a b (in_object {fs} {gs} r) =
      ap (λ l. b'{' ∷ (join (map print_entry l) ++ b'}' ∷ [])) (sort-same fs gs r)

  print-same : (a b : Items) → ReorderedItems a b → print_items a ≡ print_items b
  print-same a b no_items = refl
  print-same a b (items {v} {w} {xs} {ys} r rs) =
      rw (stringify-same v w r, print-same xs ys rs) refl

  sort-same :
      (a b : Fields) → ReorderedFields a b → sort_entries (entries a) ≡ sort_entries (entries b)
  sort-same a b no_fields = refl
  sort-same a b (fields {k} {v} {w} {fs} {gs} r rs) =
      rw (stringify-same v w r, sort-same fs gs rs) refl
  sort-same a b (swap {k} {l} {v} {w} {fs} ne) =
      insert_comm (k, stable_stringify v) (l, stable_stringify w) (sort_entries (entries fs)) ne
  sort-same a b (and_then {fs} {gs} {hs} r s) = sort-same fs gs r ∙ sort-same gs hs s
