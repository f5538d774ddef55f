-- ===== src/Tree/Injective.antt =====
-- About EncodeTree and HashTree of tree/tree.go: trees that are written alike.
use mathlib.Core.Bool.{false≢true}
use baas_go_sdk.Base.{◌≡◌, refl, sym, ap, ◌∙◌, Bool, true, false, List, [], ◌∷◌}
use baas_go_sdk.Base.Text.{str_eq}
use baas_go_sdk.Base.All.{All}
use baas_go_sdk.Json.{Json, Items, Fields}
use baas_go_sdk.Types.{TreeNode}
use baas_go_sdk.Tree.{is_zero_value, split_tag, member_name}
use baas_go_sdk.Tree.Nodes.{encode_tree, node_values, blob_value}
use baas_go_sdk.Tree.Spec.{canonical, canonical_items, write_canonical_lem, insert_field}
use baas_go_sdk.Tree.Read.{print-injective}
use baas_go_sdk.Tree.NodeFields.{IsNode, object_fields, node-injective}
use baas_go_sdk.Tree.Plain.{blob_value-Plain}

items_of : Json → Items
items_of (Json.array js) = js
items_of _ = Items.nil

-- The only field of the object of a tree.
nodes_of : Json → Items
unfolding items_of
nodes_of (Json.object (Fields.field _ v _)) = items_of v
nodes_of _ = Items.nil

nodes_of_lem :
    (nodes : List TreeNode)
    → nodes_of (canonical (blob_value nodes)) ≡ canonical_items (node_values nodes)
unfolding nodes_of canonical member_name split_tag is_zero_value insert_field str_eq
nodes_of_lem nodes = refl

abbrev first_fields : Items → Fields
first_fields Items.nil = Fields.end
first_fields (Items.cons j _) = object_fields j

abbrev rest_items : Items → Items
rest_items Items.nil = Items.nil
rest_items (Items.cons _ js) = js

abbrev holds_item : Items → Bool
holds_item Items.nil = false
holds_item (Items.cons _ _) = true

node_values-injective :
    (xs ys : List TreeNode)
    → All IsNode xs
    → All IsNode ys
    → canonical_items (node_values xs) ≡ canonical_items (node_values ys)
    → xs ≡ ys
unfolding canonical
node_values-injective [] [] hx hy h = refl
node_values-injective [] (y ∷ ys) hx hy h = absurd (false≢true (ap holds_item h))
node_values-injective (x ∷ xs) [] hx hy h = absurd (false≢true (sym (ap holds_item h)))
node_values-injective (x ∷ xs) (y ∷ ys) (hx, hxs) (hy, hys) h =
    let first = node-injective x y hx hy (ap first_fields h) in
    let rest = node_values-injective xs ys hxs hys (ap rest_items h) in λ i. first i ∷ rest i

-- Two trees that `EncodeTree` writes alike are the same, if no node of theirs has an empty list of
-- chunks that is not nil.
pub encode_tree-injective :
    (xs ys : List TreeNode)
    → All IsNode xs
    → All IsNode ys
    → encode_tree xs ≡ encode_tree ys
    → xs ≡ ys
unfolding encode_tree
encode_tree-injective xs ys hx hy h =
    let texts =
      sym (write_canonical_lem (blob_value xs)) ∙ h ∙ write_canonical_lem (blob_value ys) in
    let json =
      print-injective (canonical (blob_value xs)) (canonical (blob_value ys)) (blob_value-Plain xs)
        (blob_value-Plain ys) texts in
    node_values-injective xs ys hx hy (sym (nodes_of_lem xs) ∙ ap nodes_of json ∙ nodes_of_lem ys)
