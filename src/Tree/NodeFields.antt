-- ===== src/Tree/NodeFields.antt =====
-- About the tags of TreeNode: the fields of the object of a node, and the node they give.
use mathlib.Core.Bool.{false≢true}
use baas_go_sdk.Base.{
  ◌≡◌, ◌≢◌, refl, sym, ap, ◌∙◌, Bool, true, false, ◌&&◌, Option, none, some, List, [], ◌∷◌,
  if◌then◌else◌,
}
use baas_go_sdk.Base.Text.{Bytes, codes, str_eq}
use baas_go_sdk.Base.Int.{ℤ}
use baas_go_sdk.Encoding.Decimal.{format_int, format_int-injective}
use baas_go_sdk.Errors.{text_or_empty}
use baas_go_sdk.Json.{Json, Items, Fields, get, as_string}
use baas_go_sdk.Types.{TreeNode}
use baas_go_sdk.Tree.{string, list, is_zero_value, split_tag, member_name}
use baas_go_sdk.Tree.Nodes.{node_members, string_values, string_list, int_pointer}
use baas_go_sdk.Tree.Spec.{canonical, canonical_items, canonical_members}
use baas_go_sdk.Tree.Fields.{find, get-canonical_members}

-- The text of a field, empty where it was left out.
abbrev text_at : Bytes → Fields → Bytes
text_at k fs = text_or_empty (as_string (get k fs))

abbrev pub fields_of : TreeNode → Fields
fields_of node = canonical_members (node_members node)

or_omitted :
    (s : Bytes)
    → text_or_empty
        (as_string (if true && is_zero_value (string s) then none else some (Json.string s)))
      ≡ s
unfolding is_zero_value str_eq
or_omitted [] = refl
or_omitted (c ∷ s) = refl

text_at_name : (node : TreeNode) → text_at (codes "name") (fields_of node) ≡ node.name
unfolding find member_name split_tag is_zero_value canonical str_eq node_members
text_at_name node =
    ap (λ o. text_or_empty (as_string o)) (get-canonical_members (codes "name") (node_members node))

text_at_type : (node : TreeNode) → text_at (codes "type") (fields_of node) ≡ node.node_type
unfolding find member_name split_tag is_zero_value canonical str_eq node_members
text_at_type node =
    ap (λ o. text_or_empty (as_string o)) (get-canonical_members (codes "type") (node_members node))

text_at_mtime : (node : TreeNode) → text_at (codes "mtime") (fields_of node) ≡ node.mtime
unfolding find member_name split_tag is_zero_value canonical str_eq node_members
text_at_mtime node =
    ap (λ o. text_or_empty (as_string o))
      (get-canonical_members (codes "mtime") (node_members node))
    ∙ or_omitted node.mtime

text_at_subtree : (node : TreeNode) → text_at (codes "subtree") (fields_of node) ≡ node.subtree
unfolding find member_name split_tag is_zero_value canonical str_eq node_members
text_at_subtree node =
    ap (λ o. text_or_empty (as_string o))
      (get-canonical_members (codes "subtree") (node_members node))
    ∙ or_omitted node.subtree

text_at_target : (node : TreeNode) → text_at (codes "target") (fields_of node) ≡ node.target
unfolding find member_name split_tag is_zero_value canonical str_eq node_members
text_at_target node =
    ap (λ o. text_or_empty (as_string o))
      (get-canonical_members (codes "target") (node_members node))
    ∙ or_omitted node.target

abbrev number_of : Option ℤ → Option Json
number_of none = none
number_of (some n) = some (Json.number (format_int n))

given_number :
    (o : Option ℤ)
    → (if true && is_zero_value (int_pointer o) then none else some (canonical (int_pointer o)))
      ≡ number_of o
unfolding is_zero_value canonical
given_number none = refl
given_number (some n) = refl

number_at_mode : (node : TreeNode) → get (codes "mode") (fields_of node) ≡ number_of node.mode
unfolding find member_name split_tag is_zero_value canonical str_eq node_members
number_at_mode node =
    get-canonical_members (codes "mode") (node_members node) ∙ given_number node.mode

number_at_size : (node : TreeNode) → get (codes "size") (fields_of node) ≡ number_of node.size
unfolding find member_name split_tag is_zero_value canonical str_eq node_members
number_at_size node =
    get-canonical_members (codes "size") (node_members node) ∙ given_number node.size

abbrev number_text : Option Json → Bytes
number_text (some (Json.number s)) = s
number_text _ = []

abbrev is_given : Option Json → Bool
is_given none = false
is_given (some _) = true

number_of-injective : (a b : Option ℤ) → number_of a ≡ number_of b → a ≡ b
number_of-injective none none h = refl
number_of-injective (some m) (some n) h = ap some (format_int-injective m n (ap number_text h))
number_of-injective none (some n) h = absurd (false≢true (ap is_given h))
number_of-injective (some m) none h = absurd (false≢true (sym (ap is_given h)))

-- A list of chunks that is empty is nil: the two are written alike.
abbrev pub IsNode : TreeNode → Type 0
IsNode node = node.content ≢ some []

abbrev items_json : Option (List Bytes) → Option Json
items_json none = none
items_json (some ss) = some (canonical (list (string_values ss)))

given_items :
    (o : Option (List Bytes))
    → o ≢ some []
    → (if true && is_zero_value (string_list o) then none else some (canonical (string_list o)))
      ≡ items_json o
unfolding is_zero_value canonical
given_items none h = refl
given_items (some []) h = absurd (h refl)
given_items (some (s ∷ ss)) h = refl

items_at_content :
    (node : TreeNode)
    → IsNode node
    → get (codes "content") (fields_of node) ≡ items_json node.content
unfolding find member_name split_tag is_zero_value canonical str_eq node_members
items_at_content node h =
    get-canonical_members (codes "content") (node_members node) ∙ given_items node.content h

abbrev texts_of : Items → List Bytes
texts_of Items.nil = []
texts_of (Items.cons j js) = text_or_empty (as_string (some j)) ∷ texts_of js

texts_of_lem : (ss : List Bytes) → texts_of (canonical_items (string_values ss)) ≡ ss
unfolding canonical
texts_of_lem [] = refl
texts_of_lem (s ∷ ss) = ap (λ ts. s ∷ ts) (texts_of_lem ss)

abbrev content_of : Option Json → Option (List Bytes)
content_of (some (Json.array js)) = some (texts_of js)
content_of _ = none

content_of_lem : (o : Option (List Bytes)) → content_of (items_json o) ≡ o
unfolding canonical
content_of_lem none = refl
content_of_lem (some ss) = ap some (texts_of_lem ss)

abbrev pub object_fields : Json → Fields
object_fields (Json.object fs) = fs
object_fields _ = Fields.end

-- Two nodes with the same fields are the same.
pub node-injective : (a b : TreeNode) → IsNode a → IsNode b → fields_of a ≡ fields_of b → a ≡ b
node-injective a b ha hb h =
    let name = sym (text_at_name a) ∙ ap (text_at (codes "name")) h ∙ text_at_name b in
    let node_type = sym (text_at_type a) ∙ ap (text_at (codes "type")) h ∙ text_at_type b in
    let mode =
      number_of-injective a.mode b.mode
        (sym (number_at_mode a) ∙ ap (get (codes "mode")) h ∙ number_at_mode b) in
    let size =
      number_of-injective a.size b.size
        (sym (number_at_size a) ∙ ap (get (codes "size")) h ∙ number_at_size b) in
    let mtime = sym (text_at_mtime a) ∙ ap (text_at (codes "mtime")) h ∙ text_at_mtime b in
    let items =
      sym (items_at_content a ha) ∙ ap (get (codes "content")) h ∙ items_at_content b hb in
    let content = sym (content_of_lem a.content) ∙ ap content_of items ∙ content_of_lem b.content in
    let subtree = sym (text_at_subtree a) ∙ ap (text_at (codes "subtree")) h ∙ text_at_subtree b in
    let target = sym (text_at_target a) ∙ ap (text_at (codes "target")) h ∙ text_at_target b in
    λ i. record {
      name = name i;
      node_type = node_type i;
      mode = mode i;
      size = size i;
      mtime = mtime i;
      content = content i;
      subtree = subtree i;
      target = target i;
    }
