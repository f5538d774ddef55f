-- ===== src/Tests/Trees.antt =====
-- A tree of one directory and its hash.
use mathlib.Core.Bool.{false≢true}
use baas_go_sdk.Base.{◌≡◌, refl, ap, Bool, true, false, Option, none, some, List, [], ◌∷◌}
use baas_go_sdk.Base.Text.{Bytes, codes}
use baas_go_sdk.Base.Int.{pos}
use baas_go_sdk.Types.{TreeNode}
use baas_go_sdk.Tree.NodeFields.{IsNode}
use baas_go_sdk.Tree.Injective.{encode_tree-injective}

abbrev dir_node : TreeNode
dir_node = record {
  name = codes "a\"b";
  node_type = codes "dir";
  mode = some (pos 493);
  size = none;
  mtime = codes "";
  content = none;
  subtree = codes "00ff";
  target = codes "";
}

abbrev is_given : Option (List Bytes) → Bool
is_given none = false
is_given (some _) = true

dir_node-IsNode : IsNode dir_node
dir_node-IsNode e = false≢true (ap is_given e)

encode_tree-injective_example : dir_node ∷ [] ≡ dir_node ∷ []
encode_tree-injective_example =
    encode_tree-injective (dir_node ∷ []) (dir_node ∷ []) (dir_node-IsNode, tt)
      (dir_node-IsNode, tt) refl

abbrev toy_sha256 : Bytes → Bytes
toy_sha256 text = 7 ∷ 8 ∷ []
