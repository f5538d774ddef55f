-- ===== src/Tree/Plain.antt =====
-- About EncodeTree of tree/tree.go: the numbers in a tree.
use baas_go_sdk.Base.{
  ℕ, suc, ◌≤◌, refl, Bool, true, false, ◌&&◌, Option, none, some, List, [], ◌∷◌, arith,
  if◌then◌else◌, length,
}
use baas_go_sdk.Base.Text.{Bytes, str_eq}
use baas_go_sdk.Base.Int.{ℤ, pos, negsuc}
use baas_go_sdk.Base.All.{All, All-mono}
use baas_go_sdk.Encoding.Decimal.{
  format_uint, format_int, IsDigit, format_uint-IsDigit, length-format_uint,
}
use baas_go_sdk.Json.{Json, Fields}
use baas_go_sdk.Types.{TreeNode}
use baas_go_sdk.Tree.{
  Value, Members, no_member, member, is_zero_value, str_less, split_tag, member_name,
}
use baas_go_sdk.Tree.Nodes.{
  int_pointer, string_list, string_values, node_values, node_members, node_value, blob_value,
}
use baas_go_sdk.Tree.Spec.{canonical, canonical_items, canonical_members, insert_field, keep_field}
use baas_go_sdk.Tree.Numbers.{
  Plain, PlainItems, PlainFields, IsNumber, IsNumberByte, is_number_byte,
}

digit-IsNumberByte : (c : ℕ) → IsDigit c → IsNumberByte c
unfolding is_number_byte
digit-IsNumberByte c (low, high) = ground (arith, low, high)

digits-IsNumber : (s : Bytes) → All IsDigit s → 1 ≤ length s → IsNumber s
digits-IsNumber [] h le = absurd (omega arith)
digits-IsNumber (c ∷ s) (hc, hs) le =
    (digit-IsNumberByte c hc, All-mono IsDigit IsNumberByte s digit-IsNumberByte hs)

format_int-IsNumber : (n : ℤ) → IsNumber (format_int n)
unfolding format_int is_number_byte
format_int-IsNumber (pos n) =
    digits-IsNumber (format_uint n) (format_uint-IsDigit n) (length-format_uint n)
format_int-IsNumber (negsuc n) = (
  refl,
  All-mono IsDigit IsNumberByte (format_uint (suc n)) digit-IsNumberByte
      (format_uint-IsDigit (suc n)),
)

PlainFields-insert_field :
    (k : Bytes) (v : Json) (fs : Fields)
    → Plain v
    → PlainFields fs
    → PlainFields (insert_field k v fs)
unfolding Plain insert_field
PlainFields-insert_field k v Fields.end hv h = (hv, tt)
PlainFields-insert_field k v (Fields.field j w fs) hv (hw, h) =
    elim (str_less j k)
      as (λ b. PlainFields (
        if b
        then Fields.field j w (insert_field k v fs)
        else Fields.field k v (Fields.field j w fs))) [
          | true ↦ (hw, PlainFields-insert_field k v fs hv h)
          | false ↦ (hv, (hw, h))
        ]

PlainFields-keep_field :
    (tag : Option (Bytes × Bool)) (v : Value) (j : Json) (fs : Fields)
    → Plain j
    → PlainFields fs
    → PlainFields (keep_field tag v j fs)
PlainFields-keep_field none v j fs hj h = h
PlainFields-keep_field (some (name, omitempty)) v j fs hj h =
    elim (omitempty && is_zero_value v)
      as (λ b. PlainFields (if b then fs else insert_field name j fs)) [
        | true ↦ h
        | false ↦ PlainFields-insert_field name j fs hj h
      ]

-- Every member of the struct has plain JSON.
PlainMembers : Members → Type 0
PlainMembers no_member = Unit
PlainMembers (member info v ms) = Plain (canonical v) × PlainMembers ms

PlainFields-canonical_members :
    (ms : Members) → PlainMembers ms → PlainFields (canonical_members ms)
unfolding canonical PlainMembers Plain
PlainFields-canonical_members no_member h = tt
PlainFields-canonical_members (member info v ms) (hv, h) =
    PlainFields-keep_field (member_name info) v (canonical v) (canonical_members ms) hv
      (PlainFields-canonical_members ms h)

int_pointer-Plain : (o : Option ℤ) → Plain (canonical (int_pointer o))
unfolding canonical Plain
int_pointer-Plain none = tt
int_pointer-Plain (some n) = format_int-IsNumber n

string_values-Plain : (ss : List Bytes) → PlainItems (canonical_items (string_values ss))
unfolding canonical Plain
string_values-Plain [] = tt
string_values-Plain (s ∷ ss) = (tt, string_values-Plain ss)

string_list-Plain : (o : Option (List Bytes)) → Plain (canonical (string_list o))
unfolding canonical Plain
string_list-Plain none = tt
string_list-Plain (some ss) = string_values-Plain ss

node-Plain : (node : TreeNode) → Plain (canonical (node_value node))
unfolding canonical Plain node_members PlainMembers
node-Plain node = PlainFields-canonical_members (node_members node) (
  tt,
  (
    tt,
    (
      int_pointer-Plain node.mode,
      (int_pointer-Plain node.size, (tt, (string_list-Plain node.content, (tt, (tt, tt))))),
    ),
  ),
)

node_values-Plain : (nodes : List TreeNode) → PlainItems (canonical_items (node_values nodes))
unfolding canonical Plain
node_values-Plain [] = tt
node_values-Plain (node ∷ nodes) = (node-Plain node, node_values-Plain nodes)

-- Every number in a tree has the form of a JSON number.
pub blob_value-Plain : (nodes : List TreeNode) → Plain (canonical (blob_value nodes))
unfolding canonical Plain member_name split_tag insert_field str_eq
blob_value-Plain nodes = (node_values-Plain nodes, tt)
