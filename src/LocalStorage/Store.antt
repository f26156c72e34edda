-- ===== src/LocalStorage/Store.antt =====
-- `localStorage` and the blobs that the driver keeps in it.
use ts_queue.Job.{Job}
use ts_queue.Prelude.{
  String, Bool, false, not, List, [], ◌∷◌, Option, none, some, same, keep, map, ◌≡◌, ◌≢◌, refl,
  arith, if◌then◌else◌,
}

pub record Blob : Type 0 where
  pub jobs : List Job
  pub paused : Bool

abbrev pub no_blob : Blob
no_blob = record { jobs = []; paused = false }

-- The JSON text of an object, with its `jobs` if that is an array and the truth of `paused`; or
-- a text on which `JSON.parse` or the access to a field throws.
pub data Cell : Type 0 where
  json : Option (List Job) → Bool → Cell
  corrupt : Cell

pub record Storage : Type 0 where
  pub available : Bool  -- typeof localStorage !== "undefined"
  pub cells : List (String × Cell)
  pub fits : List (String × Cell) → Bool  -- within the quota

unfoldable pub get_item : String → List (String × Cell) → Option Cell
get_item k [] = none
get_item k ((j, v) ∷ cells) = if same j k then some v else get_item k cells

unfoldable pub set_item : String → Cell → List (String × Cell) → List (String × Cell)
set_item k v [] = (k, v) ∷ []
set_item k v ((j, w) ∷ cells) = if same j k then (k, v) ∷ cells else (j, w) ∷ set_item k v cells

unfoldable pub remove_item : String → List (String × Cell) → List (String × Cell)
remove_item k cells = keep (λ c. not (same c.0 k)) cells

unfoldable pub keys : List (String × Cell) → List String
keys cells = map (λ c. c.0) cells

-- What `read` makes of an item.
unfoldable pub parse : Option Cell → Blob
parse none = no_blob
parse (some corrupt) = no_blob
parse (some (json none paused)) = record { jobs = []; paused = paused }
parse (some (json (some jobs) paused)) = record { jobs = jobs; paused = paused }

-- `key.slice(prefix.length)`, on a key that starts with the prefix.
unfoldable pub strip : String → String → String
strip String.[] k = k
strip (String.◌∷◌ c p) String.[] = String.[]
strip (String.◌∷◌ c p) (String.◌∷◌ d k) = strip p k

pub get-set :
    (k i : String) (v : Cell) (cells : List (String × Cell))
    → get_item i (set_item k v cells) ≡ (if same k i then some v else get_item i cells)
unfolding get_item set_item
get-set k i v [] = refl
get-set k i v ((j, w) ∷ cells) = ground (arith, get-set k i v cells)

pub get-remove_self :
    (k : String) (cells : List (String × Cell)) → get_item k (remove_item k cells) ≡ none
unfolding get_item remove_item
get-remove_self k [] = refl
get-remove_self k (c ∷ cells) = ground (arith, get-remove_self k cells)

pub get-remove_ne :
    (k i : String) (cells : List (String × Cell))
    → i ≢ k
    → get_item i (remove_item k cells) ≡ get_item i cells
unfolding get_item remove_item
get-remove_ne k i [] h = refl
get-remove_ne k i (c ∷ cells) h = ground (arith, get-remove_ne k i cells h)
