-- ===== src/Pipeline/Restore/Depth.antt =====
-- About restoreMeta of pipeline/restore.go: the depth of its recursion.
use baas_go_sdk.Base.{
  ℕ, zero, suc, ◌<◌, ◌≡◌, refl, Bool, true, false, not, ◌&&◌, ◌||◌, Option, none, some, List, [],
  ◌∷◌, if◌then◌else◌, arith,
}
use baas_go_sdk.Base.Text.{Bytes, codes, str_eq, contains_byte}
use baas_go_sdk.Base.All.{All, All-mono}
use baas_go_sdk.Base.Dict.{Dict, lookup}
use baas_go_sdk.Errors.{Error, wrap}
use baas_go_sdk.Errors.Kinds.{validate_restore_path}
use baas_go_sdk.Errors.Outcome.{Outcome, ok, err, panic, ◌>>=◌, map_err}
use baas_go_sdk.Types.{TreeNode, TreeBlob}
use baas_go_sdk.Pipeline.Restore.{join_tree_path}
use baas_go_sdk.Pipeline.Restore.Target.{
  dot, dot_dot, clean, clean_path, parts_of, elements, join, is_abs, climb, rel_parts, same_root,
  rel, escapes, check_inside, safe_join_target,
}
use baas_go_sdk.Pipeline.Restore.Write.{
  Effects, and_then, on_path, node_effects, restore_node, restore_nodes, nodes_or_none,
  restore_meta,
}

-- An operation that ends with a value or an error.
abbrev pub Ends : {A : Type 0} → Outcome A → Type 0
Ends (ok _) = Unit
Ends (err _) = Unit
Ends panic = ⊥

Ends-if : {A : Type 0} (b : Bool) (x y : Outcome A) → Ends x → Ends y → Ends (if b then x else y)
Ends-if true x y hx hy = hx
Ends-if false x y hx hy = hy

Ends-bind :
    {A B : Type 0} (o : Outcome A) (f : A → Outcome B)
    → Ends o
    → ((a : A) → Ends (f a))
    → Ends (o >>= f)
Ends-bind (ok a) f h hf = hf a
Ends-bind (err e) f h hf = tt
Ends-bind panic f h hf = h

Ends-map_err : {A : Type 0} (f : Error → Error) (o : Outcome A) → Ends o → Ends (map_err f o)
Ends-map_err f (ok a) h = h
Ends-map_err f (err e) h = tt
Ends-map_err f panic h = h

join_tree_path-Ends : (base_path name : Bytes) → Ends (join_tree_path base_path name)
unfolding join_tree_path
join_tree_path-Ends base_path name =
    Ends-if (str_eq name (codes "") || (str_eq name (codes ".") || str_eq name (codes ".."))) _ _ tt
      (Ends-if (contains_byte b'/' name || contains_byte b'\\' name) _ _ tt
        (Ends-if (str_eq base_path (codes "")) _ _ tt tt))

climb-Ends : (part : Bytes) (parts targ : List Bytes) → Ends (climb part parts targ)
climb-Ends part parts targ = Ends-if (str_eq part dot_dot) _ _ tt tt

rel_parts-Ends : (base targ : List Bytes) → Ends (rel_parts base targ)
unfolding rel_parts
rel_parts-Ends [] targ = tt
rel_parts-Ends (b ∷ base) [] = climb-Ends b base []
rel_parts-Ends (b ∷ base) (t ∷ targ) =
    Ends-if (str_eq b t) (rel_parts base targ) _ (rel_parts-Ends base targ)
      (climb-Ends b base (t ∷ targ))

rel-Ends : (dir path : Bytes) → Ends (rel dir path)
unfolding rel
rel-Ends dir path =
    let base = clean_path dir in
    let targ = clean_path path in
    Ends-if (same_root base.rooted targ.rooted) _ _
      (Ends-bind (rel_parts (parts_of base) (elements targ)) _
        (rel_parts-Ends (parts_of base) (elements targ)) (λ parts. tt))
      tt

safe_join_target-Ends : (target_dir rel_path : Bytes) → Ends (safe_join_target target_dir rel_path)
unfolding safe_join_target
safe_join_target-Ends target_dir rel_path =
    let clean_rel = clean rel_path in
    let full_path = join target_dir clean_rel in
    let outside = wrap validate_restore_path (rel_path ∷ []) in
    Ends-if (str_eq clean_rel dot || str_eq clean_rel (codes "")) _ _ tt (
      Ends-if (is_abs clean_rel) _ (check_inside target_dir rel_path) tt (
        Ends-bind (map_err outside (rel target_dir full_path)) _
          (Ends-map_err outside (rel target_dir full_path) (rel-Ends target_dir full_path))
          (λ from_base. Ends-if (escapes from_base) _ _ tt tt)))

and_then-Ends : (first next : Effects) → Ends first.1 → Ends next.1 → Ends (and_then first next).1
and_then-Ends (es, ok _) next h h' = h'
and_then-Ends (es, err e) next h h' = tt
and_then-Ends (es, panic) next h h' = h

on_path-Ends :
    (o : Outcome Bytes) (next : Bytes → Effects)
    → Ends o
    → ((path : Bytes) → Ends (next path).1)
    → Ends (on_path o next).1
on_path-Ends (ok path) next h hn = hn path
on_path-Ends (err e) next h hn = tt
on_path-Ends panic next h hn = h

if-Ends : (b : Bool) (x y : Effects) → Ends x.1 → Ends y.1 → Ends (if b then x else y).1
if-Ends true x y hx hy = hx
if-Ends false x y hx hy = hy

-- Every subtree of a tree ranks below the tree that holds it.
abbrev pub Descends : (Bytes → ℕ) → Dict TreeBlob → Type 0
Descends rank trees =
    (hash : Bytes) (tree : TreeBlob)
    → lookup hash trees ≡ some tree
    → All (λ node. rank node.subtree < rank hash) tree.nodes

module _ (is_time : Bytes → Bool) (target_dir : Bytes) where
  restore_nodes-Ends :
      (subtree : Bytes → Bytes → Effects) (base_path : Bytes) (nodes : List TreeNode)
      → All (λ node. (path : Bytes) → Ends (subtree node.subtree path).1) nodes
      → Ends (restore_nodes is_time target_dir subtree base_path nodes).1
  unfolding restore_nodes
  restore_nodes-Ends subtree base_path [] h = tt
  restore_nodes-Ends subtree base_path (node ∷ nodes) (hn, h) =
      and_then-Ends (restore_node is_time target_dir subtree base_path node) _
        (on_path-Ends (join_tree_path base_path node.name) _
          (join_tree_path-Ends base_path node.name)
          λ rel_path.
            on_path-Ends (safe_join_target target_dir rel_path) _
              (safe_join_target-Ends target_dir rel_path)
              λ path.
                and_then-Ends (node_effects is_time target_dir subtree node rel_path path) _
                  (if-Ends (str_eq node.node_type (codes "dir")) _ _
                    (if-Ends (str_eq node.subtree (codes "")) ([], ok tt)
                      (subtree node.subtree rel_path) tt (hn rel_path))
                    (if-Ends
                      (str_eq node.node_type (codes "symlink")
                        && not (str_eq node.target (codes "")))
                      _ _ tt tt))
                  tt)
        (restore_nodes-Ends subtree base_path nodes h)

  nodes_or_none-Ends :
      (subtree : Bytes → Bytes → Effects) (base_path : Bytes) (o : Option TreeBlob)
      → ((tree : TreeBlob)
          → o ≡ some tree
          → All (λ node. (path : Bytes) → Ends (subtree node.subtree path).1) tree.nodes)
      → Ends (nodes_or_none is_time target_dir subtree base_path o).1
  nodes_or_none-Ends subtree base_path none h = tt
  nodes_or_none-Ends subtree base_path (some tree) h =
      restore_nodes-Ends subtree base_path tree.nodes (h tree refl)

  module _ (rank : Bytes → ℕ) (trees : Dict TreeBlob) (descends : Descends rank trees) where
    -- Where every subtree ranks below the tree that holds it, so that no tree holds itself,
    -- `restoreMeta` ends with success or an error once the depth allowed is above the rank of the
    -- tree it starts from.
    pub restore_meta-Ends :
        (depth : ℕ) (hash base_path : Bytes)
        → rank hash < depth
        → Ends (restore_meta is_time target_dir depth trees hash base_path).1
    unfolding restore_meta
    restore_meta-Ends zero hash base_path h = absurd (omega arith)
    restore_meta-Ends (suc depth) hash base_path h =
        nodes_or_none-Ends (restore_meta is_time target_dir depth trees) base_path
          (lookup hash trees)
          (λ tree e.
            All-mono (λ node. rank node.subtree < rank hash)
              (λ node.
                (path : Bytes)
                → Ends (restore_meta is_time target_dir depth trees node.subtree path).1)
              tree.nodes
              (λ node lt path. restore_meta-Ends depth node.subtree path (omega (arith, lt, h)))
              (descends hash tree e))
