-- ===== src/Tree.antt =====
-- About tree/tree.go: the canonical JSON of a value.
pub mod Nodes
pub mod Spec
mod Numbers
pub mod NodeFields
mod Strings
mod Read
mod Fields
pub mod Injective
mod Plain
use baas_go_sdk.Base.{
  ℕ, zero, suc, ◌+◌, ◌/◌, ◌%◌, Bool, true, false, not, ◌&&◌, ◌||◌, Option, none, some, List, [],
  ◌∷◌, ◌++◌, ◌==◌, ltb, if◌then◌else◌, map,
}
use baas_go_sdk.Base.Text.{Bytes, codes, str_eq}
use baas_go_sdk.Base.Int.{ℤ, pos}
use baas_go_sdk.Encoding.Decimal.{format_uint, format_int}
use baas_go_sdk.Encoding.Hex.{hex_digit}
use baas_go_sdk.Chunk.File.{sha256_hex}
use baas_go_sdk.Types.{TreeNode}

-- What the code asks of a float64: is it infinite or not a number, is it 0, the whole number that
-- it is below 1e15, and its shortest decimal text.
pub record Float : Type 0 where
  pub is_special : Bool
  pub is_zero : Bool
  pub whole : Option ℤ
  pub shortest : Bytes

-- A field of a struct, but for its value: is it exported, its name, and its tag for "json".
pub record FieldInfo : Type 0 where
  pub exported : Bool
  pub name : Bytes
  pub tag : Bytes

-- A `reflect.Value` by its kind. `nil` is a nil pointer, interface, slice or map, `pointer` a
-- pointer or an interface, `list` a slice, and `other` a kind that has no JSON.
mutual
  pub data Value : Type 0 where
    invalid : Value
    nil : Value
    pointer : Value → Value
    bool : Bool → Value
    int : ℤ → Value
    uint : ℕ → Value
    float : Float → Value
    string : Bytes → Value
    list : Values → Value
    keyed : Entries → Value
    struct : Members → Value
    other : Value

  pub data Values : Type 0 where
    no_value : Values
    value : Value → Values → Values

  pub data Entries : Type 0 where
    no_entry : Entries
    entry : Bytes → Value → Entries → Entries

  pub data Members : Type 0 where
    no_member : Members
    member : FieldInfo → Value → Members → Members

abbrev esc_map : ℕ → Option Bytes
esc_map c =
    if c == b'"'
    then some (codes "\\\"")
    else if c == b'\\'
    then some (codes "\\\\")
    else if c == 8
    then some (codes "\\b")
    else if c == 12
    then some (codes "\\f")
    else if c == b'\n'
    then some (codes "\\n")
    else if c == b'\r'
    then some (codes "\\r")
    else if c == b'\t'
    then some (codes "\\t")
    else none

abbrev without_escape : ℕ → Bytes
without_escape c =
    if ltb c 32 then codes "\\u00" ++ (hex_digit (c / 16) ∷ hex_digit (c % 16) ∷ []) else c ∷ []

abbrev escape_or : Option Bytes → Bytes → Bytes
escape_or none s = s
escape_or (some esc) _ = esc

unfoldable pub write_byte : ℕ → Bytes
write_byte c = escape_or (esc_map c) (without_escape c)

unfoldable pub write_bytes : Bytes → Bytes
write_bytes [] = []
write_bytes (c ∷ s) = write_byte c ++ write_bytes s

unfoldable pub write_canonical_string : Bytes → Bytes
write_canonical_string s = b'"' ∷ (write_bytes s ++ codes "\"")

-- The bytewise order of Go strings.
unfoldable pub str_less : Bytes → Bytes → Bool
str_less s [] = false
str_less [] (_ ∷ _) = true
str_less (a ∷ s) (b ∷ t) = ltb a b || (a == b && str_less s t)

-- A key with the JSON of its value.
abbrev pub KvPair : Type 0
KvPair = Bytes × Bytes

-- Sorted by key, where the keys differ: `sort.Strings` and `sort.Slice`.
unfoldable pub insert_pair : KvPair → List KvPair → List KvPair
insert_pair p [] = p ∷ []
insert_pair (k, s) ((j, t) ∷ ps) =
    if str_less j k then (j, t) ∷ insert_pair (k, s) ps else (k, s) ∷ (j, t) ∷ ps

unfoldable pub sort_pairs : List KvPair → List KvPair
sort_pairs [] = []
sort_pairs (p ∷ ps) = insert_pair p (sort_pairs ps)

abbrev pub write_pair : KvPair → Bytes
write_pair (k, text) = write_canonical_string k ++ (b':' ∷ text)

-- Texts with commas between them.
unfoldable pub write_rest : List Bytes → Bytes
write_rest [] = []
write_rest (s ∷ ss) = b',' ∷ (s ++ write_rest ss)

unfoldable pub with_commas : List Bytes → Bytes
with_commas [] = []
with_commas (s ∷ ss) = s ++ write_rest ss

unfoldable pub write_object : List KvPair → Bytes
write_object ps = b'{' ∷ (with_commas (map write_pair (sort_pairs ps)) ++ codes "}")

abbrev prepend : ℕ → List Bytes → List Bytes
prepend c [] = (c ∷ []) ∷ []
prepend c (part ∷ parts) = (c ∷ part) ∷ parts

-- A comma at the end starts no part.
unfoldable pub split_tag : Bytes → List Bytes
split_tag [] = []
split_tag (c ∷ tag) = let rest = split_tag tag in if c == b',' then [] ∷ rest else prepend c rest

abbrev is_empty : Bytes → Bool
is_empty s = str_eq s (codes "")

unfoldable pub is_zero_value : Value → Bool
is_zero_value invalid = false
is_zero_value nil = true
is_zero_value (pointer _) = false
is_zero_value (bool b) = not b
is_zero_value (int (pos zero)) = true
is_zero_value (int _) = false
is_zero_value (uint n) = n == 0
is_zero_value (float f) = f.is_zero
is_zero_value (string s) = is_empty s
is_zero_value (list no_value) = true
is_zero_value (list (value _ _)) = false
is_zero_value (keyed no_entry) = true
is_zero_value (keyed (entry _ _ _)) = false
is_zero_value (struct _) = false
is_zero_value other = false

abbrev omits_empty : List Bytes → Bool
omits_empty [] = false
omits_empty (opt ∷ opts) = str_eq opt (codes "omitempty") || omits_empty opts

-- The name of a field in the JSON, and whether its zero value is left out; `none` where the field
-- is left out always.
abbrev read_tag : FieldInfo → List Bytes → Option (Bytes × Bool)
read_tag field [] = some (field.name, false)
read_tag field (part ∷ opts) =
    if str_eq part (codes "-")
    then none
    else some (if is_empty part then field.name else part, omits_empty opts)

unfoldable pub member_name : FieldInfo → Option (Bytes × Bool)
member_name field = if field.exported then read_tag field (split_tag field.tag) else none

abbrev pub keep_member : Option (Bytes × Bool) → Value → Bytes → List KvPair → List KvPair
keep_member none v text ps = ps
keep_member (some (name, omitempty)) v text ps =
    if omitempty && is_zero_value v then ps else (name, text) ∷ ps

abbrev pub write_float : Float → Bytes
write_float f = if f.is_special then codes "null" else whole_or f.whole
  where
    whole_or : Option ℤ → Bytes
    whole_or none = f.shortest
    whole_or (some n) = format_int n

unfoldable mutual
  pub write_canonical : Value → Bytes
  write_canonical invalid = codes "null"
  write_canonical nil = codes "null"
  write_canonical (pointer v) = write_canonical v
  write_canonical (bool b) = if b then codes "true" else codes "false"
  write_canonical (int n) = format_int n
  write_canonical (uint n) = format_uint n
  write_canonical (float f) = write_float f
  write_canonical (string s) = write_canonical_string s
  write_canonical (list vs) = b'[' ∷ (with_commas (write_values vs) ++ codes "]")
  write_canonical (keyed es) = write_object (write_entries es)
  write_canonical (struct ms) = write_object (write_members ms)
  write_canonical other = codes "null"

  pub write_values : Values → List Bytes
  write_values no_value = []
  write_values (value v vs) = write_canonical v ∷ write_values vs

  pub write_entries : Entries → List KvPair
  write_entries no_entry = []
  write_entries (entry k v es) = (k, write_canonical v) ∷ write_entries es

  pub write_members : Members → List KvPair
  write_members no_member = []
  write_members (member field v ms) =
      keep_member (member_name field) v (write_canonical v) (write_members ms)
