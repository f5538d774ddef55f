-- ===== src/Tests/Depths.antt =====
-- The depth of a restore of two directories, one in the other.
use mathlib.Core.Path.{subst}
use baas_go_sdk.Base.{
  ◌<◌, ◌≡◌, refl, ap, Bool, true, false, Option, none, some, [], ◌∷◌, length, arith, if◌then◌else◌,
}
use baas_go_sdk.Base.Text.{Bytes, codes, str_eq, str_eq_iff}
use baas_go_sdk.Base.Int.{pos}
use baas_go_sdk.Base.All.{All}
use baas_go_sdk.Base.Dict.{Dict, lookup}
use baas_go_sdk.Types.{TreeNode, TreeBlob}
use baas_go_sdk.Pipeline.Restore.Write.{restore_meta}
use baas_go_sdk.Pipeline.Restore.Depth.{Ends, Descends, restore_meta-Ends}

abbrev dir_node : TreeNode
dir_node = record {
  name = codes "d";
  node_type = codes "dir";
  mode = some (pos 493);
  size = none;
  mtime = codes "";
  content = none;
  subtree = codes "1";
  target = codes "";
}

abbrev outer : TreeBlob
outer = record { nodes = dir_node ∷ [] }

abbrev trees : Dict TreeBlob
trees = (codes "00", outer) ∷ []

tree_or : TreeBlob → Option TreeBlob → TreeBlob
tree_or t none = t
tree_or t (some u) = u

found :
    (same : Bool) (hash : Bytes) (tree : TreeBlob)
    → (same ≡ true → codes "00" ≡ hash)
    → (if same then some outer else none) ≡ some tree
    → All (λ node. length node.subtree < length hash) tree.nodes
unfolding tree_or
found true hash tree eq h =
    subst (λ t. All (λ node. length node.subtree < length hash) t.nodes) (ap (tree_or outer) h)
      (subst (λ k. 1 < length k) (eq refl) (omega arith), tt)
found false hash tree eq h = cc

trees-Descends : Descends length trees
unfolding lookup
trees-Descends hash tree e =
    found (str_eq (codes "00") hash) hash tree ((str_eq_iff (codes "00") hash).0) e

restore_meta-Ends_example :
    Ends (restore_meta (λ text. true) (codes "/r") 3 trees (codes "00") (codes "")).1
restore_meta-Ends_example =
    restore_meta-Ends (λ text. true) (codes "/r") length trees trees-Descends 3 (codes "00")
      (codes "") (omega arith)
