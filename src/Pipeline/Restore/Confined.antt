-- ===== src/Pipeline/Restore/Confined.antt =====
-- About restoreMeta of pipeline/restore.go: the paths it works on.
use baas_go_sdk.Base.{
  ℕ, zero, suc, ◌≡◌, ◌≢◌, ◌⊎◌, inl, inr, Bool-cases, refl, Bool, true, false, not, ◌&&◌, Option,
  none, some, List, [], ◌∷◌, if◌then◌else◌,
}
use mathlib.Core.Path.{subst}
use baas_go_sdk.Base.Text.{Bytes, codes, str_eq, str_eq_iff}
use baas_go_sdk.Base.Int.{ℤ}
use baas_go_sdk.Base.All.{All, All-append}
use baas_go_sdk.Base.Dict.{Dict, lookup}
use baas_go_sdk.Errors.Outcome.{Outcome, ok, err, panic}
use baas_go_sdk.Types.{TreeNode, TreeBlob}
use baas_go_sdk.Pipeline.Restore.{join_tree_path}
use baas_go_sdk.Pipeline.Restore.Target.{clean_path, safe_join_target}
use baas_go_sdk.Pipeline.Restore.Inside.{IsBelow, safe_join_target-IsBelow}
use baas_go_sdk.Pipeline.Restore.Write.{
  Effect, Effects, change_times, change_mode, make_dir, link, path_of, apply_node_meta, and_then,
  on_path, node_effects, restore_node, restore_nodes, nodes_or_none, restore_meta, mode_effect,
}

-- The effect makes no symbolic link.
abbrev pub MakesNoLink : Effect → Type 0
MakesNoLink (make_dir path) = Unit
MakesNoLink (link target path) = ⊥
MakesNoLink (change_mode path mode) = Unit
MakesNoLink (change_times path mtime) = Unit

-- No effect makes a symbolic link, and the path of each is the target directory's or below it.
abbrev pub Confined : Bytes → Effects → Type 0
Confined target_dir effects =
    All (λ e. MakesNoLink e × IsBelow (clean_path target_dir) (clean_path (path_of e))) effects.0

-- A node that is not restored as a symbolic link.
abbrev pub IsNoLink : TreeNode → Type 0
IsNoLink node = (node.node_type ≢ codes "symlink") ⊎ (node.target ≡ codes "")

-- Trees that hold no symbolic link.
abbrev pub LinkFree : Dict TreeBlob → Type 0
LinkFree trees = All (λ entry. All IsNoLink entry.1.nodes) trees

lookup-LinkFree :
    (hash : Bytes) (trees : Dict TreeBlob) (t : TreeBlob)
    → LinkFree trees
    → lookup hash trees ≡ some t
    → All IsNoLink t.nodes
unfolding lookup
lookup-LinkFree hash [] t h e = cc
lookup-LinkFree hash ((k, u) ∷ trees) t (x, h) e = elim (Bool-cases (str_eq k hash)) [
  | inl same ↦
      let found : some u ≡ some t =
        subst (λ b. (if b then some u else lookup hash trees) ≡ some t) same e in
      let is : u ≡ t = cc in subst (λ v. All IsNoLink v.nodes) is x
  | inr other ↦
      lookup-LinkFree hash trees t h
        (subst (λ b. (if b then some u else lookup hash trees) ≡ some t) other e)
]

abbrev makes_link : TreeNode → Bool
makes_link node = str_eq node.node_type (codes "symlink") && not (str_eq node.target (codes ""))

and_false : (b : Bool) → (b && not true) ≡ false
and_false true = refl
and_false false = refl

IsNoLink-makes_link : (node : TreeNode) → IsNoLink node → makes_link node ≡ false
IsNoLink-makes_link node (inl other) = elim (Bool-cases (str_eq node.node_type (codes "symlink"))) [
  | inl same ↦ absurd (other ((str_eq_iff node.node_type (codes "symlink")).0 same))
  | inr differs ↦ rw differs refl
]
IsNoLink-makes_link node (inr nowhere) =
    rw ((str_eq_iff node.target (codes "")).1 nowhere)
      (and_false (str_eq node.node_type (codes "symlink")))

module _ (target_dir : Bytes) where
  abbrev OnPath : Effect → Type 0
  OnPath e = MakesNoLink e × IsBelow (clean_path target_dir) (clean_path (path_of e))

  and_then-Confined :
      (first next : Effects)
      → Confined target_dir first
      → Confined target_dir next
      → Confined target_dir (and_then first next)
  and_then-Confined (es, ok _) next h h' = All-append OnPath es next.0 h h'
  and_then-Confined (es, err e) next h h' = h
  and_then-Confined (es, panic) next h h' = h

  on_path-Confined :
      (o : Outcome Bytes) (next : Bytes → Effects)
      → ((path : Bytes) → o ≡ ok path → Confined target_dir (next path))
      → Confined target_dir (on_path o next)
  on_path-Confined (ok path) next h = h path refl
  on_path-Confined (err e) next h = tt
  on_path-Confined panic next h = tt

  if-Confined :
      (b : Bool) (x y : Effects)
      → Confined target_dir x
      → Confined target_dir y
      → Confined target_dir (if b then x else y)
  if-Confined true x y hx hy = hx
  if-Confined false x y hx hy = hy

  mode_effect-Confined :
      (path : Bytes) (mode : Option ℤ)
      → IsBelow (clean_path target_dir) (clean_path path)
      → All OnPath (mode_effect path mode)
  mode_effect-Confined path none h = tt
  mode_effect-Confined path (some mode) h = ((tt, h), tt)

  if-All : (b : Bool) (es : List Effect) → All OnPath es → All OnPath (if b then es else [])
  if-All true es h = h
  if-All false es h = tt

  module _ (is_time : Bytes → Bool) where
    apply_node_meta-Confined :
        (path : Bytes) (node : TreeNode)
        → IsBelow (clean_path target_dir) (clean_path path)
        → All OnPath (apply_node_meta is_time path node)
    unfolding apply_node_meta
    apply_node_meta-Confined path node h =
        let times = change_times path node.mtime ∷ [] in
        let dated = not (str_eq node.mtime (codes "")) && is_time node.mtime in
        All-append OnPath (mode_effect path node.mode) (if dated then times else [])
          (mode_effect-Confined path node.mode h) (if-All dated times ((tt, h), tt))

    -- The first argument restores a subtree at a path.
    abbrev Subtrees : (Bytes → Bytes → Effects) → Type 0
    Subtrees subtree = (hash base_path : Bytes) → Confined target_dir (subtree hash base_path)

    else-Confined :
        (b : Bool) (x y : Effects)
        → b ≡ false
        → Confined target_dir y
        → Confined target_dir (if b then x else y)
    else-Confined true x y e h = cc
    else-Confined false x y e h = h

    node_effects-Confined :
        (subtree : Bytes → Bytes → Effects) (node : TreeNode) (rel_path path : Bytes)
        → Subtrees subtree
        → IsNoLink node
        → IsBelow (clean_path target_dir) (clean_path path)
        → Confined target_dir (node_effects is_time target_dir subtree node rel_path path)
    node_effects-Confined subtree node rel_path path hs hn h =
        let below =
          if str_eq node.subtree (codes "") then ([], ok tt) else subtree node.subtree rel_path in
        if-Confined (str_eq node.node_type (codes "dir"))
          (and_then (make_dir path ∷ [], ok tt) below)
          (if makes_link node then (link node.target path ∷ [], ok tt) else ([], ok tt))
          (and_then-Confined (make_dir path ∷ [], ok tt) below ((tt, h), tt)
            (if-Confined (str_eq node.subtree (codes "")) ([], ok tt)
              (subtree node.subtree rel_path) tt (hs node.subtree rel_path)))
          (else-Confined (makes_link node) (link node.target path ∷ [], ok tt) ([], ok tt)
            (IsNoLink-makes_link node hn) tt)

    restore_nodes-Confined :
        (subtree : Bytes → Bytes → Effects) (base_path : Bytes) (nodes : List TreeNode)
        → Subtrees subtree
        → All IsNoLink nodes
        → Confined target_dir (restore_nodes is_time target_dir subtree base_path nodes)
    unfolding restore_nodes
    restore_nodes-Confined subtree base_path [] hs hn = tt
    restore_nodes-Confined subtree base_path (node ∷ nodes) hs (first, hn) =
        and_then-Confined (restore_node is_time target_dir subtree base_path node)
          (restore_nodes is_time target_dir subtree base_path nodes)
          (on_path-Confined (join_tree_path base_path node.name) _ λ rel_path _.
            on_path-Confined (safe_join_target target_dir rel_path) _ λ path joined.
              let below = safe_join_target-IsBelow target_dir rel_path path joined in
              and_then-Confined (node_effects is_time target_dir subtree node rel_path path)
                (apply_node_meta is_time path node, ok tt)
                (node_effects-Confined subtree node rel_path path hs first below)
                (apply_node_meta-Confined path node below))
          (restore_nodes-Confined subtree base_path nodes hs hn)

    nodes_or_none-Confined :
        (subtree : Bytes → Bytes → Effects) (base_path : Bytes) (o : Option TreeBlob)
        → Subtrees subtree
        → ((t : TreeBlob) → o ≡ some t → All IsNoLink t.nodes)
        → Confined target_dir (nodes_or_none is_time target_dir subtree base_path o)
    nodes_or_none-Confined subtree base_path none hs hn = tt
    nodes_or_none-Confined subtree base_path (some tree) hs hn =
        restore_nodes-Confined subtree base_path tree.nodes hs (hn tree refl)

    -- Where the trees hold no symbolic link, `restoreMeta`, in a run that succeeds or fails, makes
    -- none, and the path at which it makes a directory or sets a mode or times is always the target
    -- directory's or below it.
    pub restore_meta-Confined :
        (depth : ℕ) (trees : Dict TreeBlob) (hash base_path : Bytes)
        → LinkFree trees
        → Confined target_dir (restore_meta is_time target_dir depth trees hash base_path)
    unfolding restore_meta
    restore_meta-Confined zero trees hash base_path h = tt
    restore_meta-Confined (suc depth) trees hash base_path h =
        nodes_or_none-Confined (restore_meta is_time target_dir depth trees) base_path
          (lookup hash trees) (λ hash' path. restore_meta-Confined depth trees hash' path h)
          (λ t e. lookup-LinkFree hash trees t h e)
