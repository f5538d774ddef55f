-- ===== src/Tree/Spec.antt =====
-- About the canonical JSON of tree/tree.go: the JSON that a value stands for, printed.
use baas_go_sdk.Base.{
  ◌≡◌, refl, ap, Bool, ◌&&◌, Option, none, some, List, [], ◌∷◌, ◌++◌, if◌then◌else◌, map, arith,
}
use baas_go_sdk.Base.Text.{Bytes, codes}
use baas_go_sdk.Base.Int.{ℤ}
use baas_go_sdk.Encoding.Decimal.{format_uint, format_int}
use baas_go_sdk.Json.{Json, Items, Fields}
use baas_go_sdk.Tree.{
  Value, Values, Entries, Members, invalid, nil, pointer, bool, int, uint, float, string, list,
  keyed, struct, other, no_value, value, no_entry, entry, no_member, member, Float, member_name,
  is_zero_value, write_canonical, write_values, write_entries, write_members,
  write_canonical_string, write_float, write_object, with_commas, write_pair, sort_pairs,
  insert_pair, str_less, keep_member, KvPair,
}

-- The text of a JSON value, an object's fields in their order.
unfoldable mutual
  pub print : Json → Bytes
  print Json.null = codes "null"
  print (Json.bool b) = if b then codes "true" else codes "false"
  print (Json.number s) = s
  print (Json.string s) = write_canonical_string s
  print (Json.array vs) = b'[' ∷ (with_commas (print_items vs) ++ codes "]")
  print (Json.object fs) = b'{' ∷ (with_commas (map write_pair (print_fields fs)) ++ codes "}")

  pub print_items : Items → List Bytes
  print_items Items.nil = []
  print_items (Items.cons v vs) = print v ∷ print_items vs

  pub print_fields : Fields → List KvPair
  print_fields Fields.end = []
  print_fields (Fields.field k v fs) = (k, print v) ∷ print_fields fs

-- A field put in its place by key.
unfoldable pub insert_field : Bytes → Json → Fields → Fields
insert_field k v Fields.end = Fields.field k v Fields.end
insert_field k v (Fields.field j w fs) =
    if str_less j k
    then Fields.field j w (insert_field k v fs)
    else Fields.field k v (Fields.field j w fs)

abbrev pub keep_field : Option (Bytes × Bool) → Value → Json → Fields → Fields
keep_field none v j fs = fs
keep_field (some (name, omitempty)) v j fs =
    if omitempty && is_zero_value v then fs else insert_field name j fs

abbrev float_json : Float → Json
float_json f = if f.is_special then Json.null else whole_or f.whole
  where
    whole_or : Option ℤ → Json
    whole_or none = Json.number f.shortest
    whole_or (some n) = Json.number (format_int n)

-- The JSON of a value.
unfoldable mutual
  pub canonical : Value → Json
  canonical invalid = Json.null
  canonical nil = Json.null
  canonical (pointer v) = canonical v
  canonical (bool b) = Json.bool b
  canonical (int n) = Json.number (format_int n)
  canonical (uint n) = Json.number (format_uint n)
  canonical (float f) = float_json f
  canonical (string s) = Json.string s
  canonical (list vs) = Json.array (canonical_items vs)
  canonical (keyed es) = Json.object (canonical_entries es)
  canonical (struct ms) = Json.object (canonical_members ms)
  canonical other = Json.null

  pub canonical_items : Values → Items
  canonical_items no_value = Items.nil
  canonical_items (value v vs) = Items.cons (canonical v) (canonical_items vs)

  pub canonical_entries : Entries → Fields
  canonical_entries no_entry = Fields.end
  canonical_entries (entry k v es) = insert_field k (canonical v) (canonical_entries es)

  pub canonical_members : Members → Fields
  canonical_members no_member = Fields.end
  canonical_members (member field v ms) =
      keep_field (member_name field) v (canonical v) (canonical_members ms)

print_fields-insert_field :
    (k : Bytes) (v : Json) (fs : Fields)
    → print_fields (insert_field k v fs) ≡ insert_pair (k, print v) (print_fields fs)
unfolding print insert_field insert_pair
print_fields-insert_field k v Fields.end = refl
print_fields-insert_field k v (Fields.field j w fs) =
    ground (arith, print_fields-insert_field k v fs)

-- Sorting the pairs that are kept puts the field in its place.
keep_field-keep_member :
    (tag : Option (Bytes × Bool)) (v : Value) (j : Json) (fs : Fields) (ps : List KvPair)
    → sort_pairs ps ≡ print_fields fs
    → sort_pairs (keep_member tag v (print j) ps) ≡ print_fields (keep_field tag v j fs)
unfolding sort_pairs
keep_field-keep_member none v j fs ps h = h
keep_field-keep_member (some (name, omitempty)) v j fs ps h =
    ground (arith, h, print_fields-insert_field name j fs)

print-float_json : (f : Float) → write_float f ≡ print (float_json f)
unfolding print
print-float_json f = ground arith

-- What is written for a value is its JSON, printed.
mutual
  unfolding write_canonical print canonical write_object sort_pairs

  pub write_canonical_lem : (v : Value) → write_canonical v ≡ print (canonical v)
  write_canonical_lem invalid = refl
  write_canonical_lem nil = refl
  write_canonical_lem (pointer v) = write_canonical_lem v
  write_canonical_lem (bool b) = refl
  write_canonical_lem (int n) = refl
  write_canonical_lem (uint n) = refl
  write_canonical_lem (float f) = print-float_json f
  write_canonical_lem (string s) = refl
  write_canonical_lem (list vs) =
      ap (λ texts. b'[' ∷ (with_commas texts ++ codes "]")) (write_values_lem vs)
  write_canonical_lem (keyed es) =
      ap (λ ps. b'{' ∷ (with_commas (map write_pair ps) ++ codes "}")) (write_entries_lem es)
  write_canonical_lem (struct ms) =
      ap (λ ps. b'{' ∷ (with_commas (map write_pair ps) ++ codes "}")) (write_members_lem ms)
  write_canonical_lem other = refl

  write_values_lem : (vs : Values) → write_values vs ≡ print_items (canonical_items vs)
  write_values_lem no_value = refl
  write_values_lem (value v vs) = rw (write_canonical_lem v, write_values_lem vs)

  write_entries_lem :
      (es : Entries) → sort_pairs (write_entries es) ≡ print_fields (canonical_entries es)
  write_entries_lem no_entry = refl
  write_entries_lem (entry k v es) = rw (
    write_canonical_lem v,
    write_entries_lem es,
    print_fields-insert_field k (canonical v) (canonical_entries es),
  )

  write_members_lem :
      (ms : Members) → sort_pairs (write_members ms) ≡ print_fields (canonical_members ms)
  write_members_lem no_member = refl
  write_members_lem (member field v ms) = rw (write_canonical_lem v) (
      keep_field-keep_member (member_name field) v (canonical v) (canonical_members ms)
        (write_members ms) (write_members_lem ms))
