-- ===== src/Payload.antt =====
-- Job payloads as JSON values, and their canonical text: `stableStringify` of
-- src/utils/compute-unique-id.util.ts. A text is a list of UTF-16 code units, as `charCodeAt`
-- reads it. A number stands as the text that JSON.stringify prints for it.
pub mod Order
pub mod Reordered
use Prim.Native.Char.{code}
use ts_queue.Prelude.{
  ℕ, ◌+◌, ◌-◌, ◌/◌, ◌%◌, String, Bool, true, false, ◌&&◌, ◌||◌, List, [], ◌∷◌, ◌++◌, map, leb, ltb,
  ◌==◌, if◌then◌else◌,
}

abbrev pub Text : Type 0
Text = List ℕ

-- The code units of a native text: a code point beyond the first plane is a surrogate pair.
unfoldable pub units : String → Text
units String.[] = []
units (String.◌∷◌ c s) =
    if ltb (code c) 0x10000
    then code c ∷ units s
    else (0xd800 + (code c - 0x10000) / 0x400) ∷ (0xdc00 + (code c - 0x10000) % 0x400) ∷ units s

mutual
  pub data Value : Type 0 where
    null : Value
    boolean : Bool → Value
    number : Text → Value
    text : Text → Value
    array : Items → Value
    object : Fields → Value

  pub data Items : Type 0 where
    nil : Items
    cons : Value → Items → Items

  pub data Fields : Type 0 where
    end : Fields
    field : Text → Value → Fields → Fields

-- `JSON.stringify` of a text: the quoted escapes of the ECMAScript standard.
abbrev hex_unit : ℕ → ℕ
hex_unit n = if ltb n 10 then b'0' + n else b'a' + (n - 10)

abbrev unicode_escape : ℕ → Text
unicode_escape u =
    92
    ∷ b'u'
    ∷ hex_unit (u / 4096)
    ∷ hex_unit (u / 256 % 16)
    ∷ hex_unit (u / 16 % 16)
    ∷ hex_unit (u % 16)
    ∷ []

abbrev is_high : ℕ → Bool
is_high u = leb 0xd800 u && leb u 0xdbff

abbrev is_low : ℕ → Bool
is_low u = leb 0xdc00 u && leb u 0xdfff

escape_unit : ℕ → Text
escape_unit u =
    if u == 34
    then 92 ∷ 34 ∷ []
    else if u == 92
    then 92 ∷ 92 ∷ []
    else if u == 8
    then 92 ∷ b'b' ∷ []
    else if u == 12
    then 92 ∷ b'f' ∷ []
    else if u == 10
    then 92 ∷ b'n' ∷ []
    else if u == 13
    then 92 ∷ b'r' ∷ []
    else if u == 9
    then 92 ∷ b't' ∷ []
    else if ltb u 32 || is_high u || is_low u
    then unicode_escape u
    else u ∷ []

-- A surrogate pair is printed as it is, a lone surrogate is escaped.
escape_units : Text → Text
escape_units [] = []
escape_units (u ∷ []) = escape_unit u
escape_units (u ∷ v ∷ s) =
    let pair = u ∷ v ∷ escape_units s in
    let single = escape_unit u ++ escape_units (v ∷ s) in
    if is_high u && is_low v then pair else single

unfoldable pub quote : Text → Text
unfolding escape_unit escape_units
quote s = 34 ∷ (escape_units s ++ 34 ∷ [])

-- The order of `Array.prototype.sort` on texts.
unfoldable pub text_leb : Text → Text → Bool
text_leb [] t = true
text_leb (u ∷ s) [] = false
text_leb (u ∷ s) (v ∷ t) = let rest = text_leb s t in ltb u v || (u == v && rest)

-- A field's name with its value already printed.
abbrev pub Entry : Type 0
Entry = Text × Text

unfoldable pub insert_entry : Entry → List Entry → List Entry
unfolding text_leb
insert_entry e [] = e ∷ []
insert_entry e (f ∷ fs) =
    let rest = insert_entry e fs in if text_leb e.0 f.0 then e ∷ f ∷ fs else f ∷ rest

-- `Object.keys(obj).sort()`.
unfoldable pub sort_entries : List Entry → List Entry
unfolding insert_entry
sort_entries [] = []
sort_entries (e ∷ es) = insert_entry e (sort_entries es)

-- `parts.join(",")`.
unfoldable pub join : List Text → Text
join [] = []
join (t ∷ []) = t
join (t ∷ t' ∷ ts) = t ++ (b',' ∷ join (t' ∷ ts))

unfoldable pub print_entry : Entry → Text
unfolding quote
print_entry (k, v) = quote k ++ (b':' ∷ v)

abbrev print_bool : Bool → Text
print_bool true = b't' ∷ b'r' ∷ b'u' ∷ b'e' ∷ []
print_bool false = b'f' ∷ b'a' ∷ b'l' ∷ b's' ∷ b'e' ∷ []

unfoldable mutual
  unfolding quote sort_entries join print_entry

  pub stable_stringify : Value → Text
  stable_stringify null = b'n' ∷ b'u' ∷ b'l' ∷ b'l' ∷ []
  stable_stringify (boolean b) = print_bool b
  stable_stringify (number t) = t
  stable_stringify (text t) = quote t
  stable_stringify (array xs) = b'[' ∷ (join (print_items xs) ++ b']' ∷ [])
  stable_stringify (object fs) =
      b'{' ∷ (join (map print_entry (sort_entries (entries fs))) ++ b'}' ∷ [])

  pub print_items : Items → List Text
  print_items nil = []
  print_items (cons v xs) = stable_stringify v ∷ print_items xs

  pub entries : Fields → List Entry
  entries end = []
  entries (field k v fs) = (k, stable_stringify v) ∷ entries fs
