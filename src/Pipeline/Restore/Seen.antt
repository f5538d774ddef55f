-- ===== src/Pipeline/Restore/Seen.antt =====
-- About resolveTree of pipeline/restore.go: a tree that stands in two places.
use mathlib.Core.Path.{subst}
use baas_go_sdk.Base.{
  ℕ, zero, suc, ◌≡◌, refl, sym, ap, ◌∙◌, Bool, true, false, Option, none, some, List, [], ◌∷◌,
  if◌then◌else◌, arith, Bool-cases, inl, inr,
}
use baas_go_sdk.Base.Text.{Bytes, codes, str_eq, str_eq_refl}
use baas_go_sdk.Base.Dict.{Dict, insert, has_key, lookup-insert}
use baas_go_sdk.Errors.Outcome.{Outcome, ok, ◌>>=◌, >>=-eq-ok, ok-injective}
use baas_go_sdk.Types.{TreeNode, TreeBlob}
use baas_go_sdk.Pipeline.Objects.{Libraries}
use baas_go_sdk.Pipeline.Restore.{join_tree_path}
use baas_go_sdk.Pipeline.Restore.Download.{
  Server, Collections, Resolver, with_tree, with_meta, add_file, with_file, is_dir, resolve_node,
  resolve_nodes, resolve, fetch_tree,
}

module _ {V : Type 0} where
  has_key-insert :
      (k j : Bytes) (v : V) (m : Dict V) → has_key k m ≡ true → has_key k (insert j v m) ≡ true
  unfolding has_key
  has_key-insert k j v m h = ground (arith, h, lookup-insert j k v m)

  has_key-insert_same : (k : Bytes) (v : V) (m : Dict V) → has_key k (insert k v m) ≡ true
  unfolding has_key
  has_key-insert_same k v m = ground (arith, lookup-insert k k v m, str_eq_refl k)

abbrev Seen : Bytes → Collections → Type 0
Seen hash col = has_key hash col.trees ≡ true

-- A resolver forgets no tree.
abbrev Keeps : Resolver → Type 0
Keeps subtree =
    (seen hash base_path : Bytes) (col out : Collections)
    → subtree hash base_path col ≡ ok out
    → Seen seen col
    → Seen seen out

with_file-trees :
    (path : Bytes) (content : Option (List Bytes)) (col : Collections)
    → (with_file path content col).trees ≡ col.trees
with_file-trees path none col = refl
with_file-trees path (some content) col = refl

add_file-Seen :
    (seen path : Bytes) (node : TreeNode) (col : Collections)
    → Seen seen col
    → Seen seen (add_file path node col)
add_file-Seen seen path node col h =
    elim (str_eq node.node_type (codes "file"))
      as (λ b. Seen seen (if b then with_file path node.content col else col)) [
        | true ↦ ap (has_key seen) (with_file-trees path node.content col) ∙ h
        | false ↦ h
      ]

either-Seen :
    (dir : Bool) (seen : Bytes) (x y : Outcome Collections) (out : Collections)
    → (if dir then x else y) ≡ ok out
    → (x ≡ ok out → Seen seen out)
    → (y ≡ ok out → Seen seen out)
    → Seen seen out
either-Seen true seen x y out h hx hy = hx h
either-Seen false seen x y out h hx hy = hy h

resolve_node-Seen :
    (subtree : Resolver) (seen base_path : Bytes) (node : TreeNode) (col out : Collections)
    → Keeps subtree
    → resolve_node subtree base_path node col ≡ ok out
    → Seen seen col
    → Seen seen out
resolve_node-Seen subtree seen base_path node col out keeps h held =
    let (rel_path, next, _) = >>=-eq-ok (join_tree_path base_path node.name) _ h in
    let noted = with_meta rel_path node col in
    either-Seen (is_dir node) seen (subtree node.subtree rel_path noted)
      (ok (add_file rel_path node noted)) out next
      (λ e. keeps seen node.subtree rel_path noted out e held)
      (λ e. subst (Seen seen) (ok-injective e) (add_file-Seen seen rel_path node noted held))

resolve_nodes-Seen :
    (subtree : Resolver) (seen base_path : Bytes) (nodes : List TreeNode) (col out : Collections)
    → Keeps subtree
    → resolve_nodes subtree base_path nodes col ≡ ok out
    → Seen seen col
    → Seen seen out
unfolding resolve_nodes
resolve_nodes-Seen subtree seen base_path [] col out keeps h held =
    subst (Seen seen) (ok-injective h) held
resolve_nodes-Seen subtree seen base_path (node ∷ nodes) col out keeps h held =
    let (between, next, first) =
      >>=-eq-ok (resolve_node subtree base_path node col) (resolve_nodes subtree base_path nodes)
        h in
    resolve_nodes-Seen subtree seen base_path nodes between out keeps next
      (resolve_node-Seen subtree seen base_path node col between keeps first held)

module _ (l : Libraries) (s : Server) (dek : Option Bytes) where
  resolve_old :
      (depth : ℕ) (hash base_path : Bytes) (col : Collections)
      → Seen hash col
      → resolve l s dek (suc depth) hash base_path col ≡ ok col
  unfolding resolve
  resolve_old depth hash base_path col h = ground (arith, h)

  resolve_new :
      (depth : ℕ) (hash base_path : Bytes) (col : Collections)
      → has_key hash col.trees ≡ false
      → resolve l s dek (suc depth) hash base_path col ≡ (
          fetch_tree l s dek hash >>= λ tree.
          resolve_nodes (resolve l s dek depth) base_path tree.nodes (with_tree hash tree col))
  unfolding resolve
  resolve_new depth hash base_path col h = ground (arith, h)

  new-Seen :
      (depth : ℕ) (seen hash base_path : Bytes) (col out : Collections)
      → Keeps (resolve l s dek depth)
      → has_key hash col.trees ≡ false
      → resolve l s dek (suc depth) hash base_path col ≡ ok out
      → ((tree : TreeBlob) → Seen seen (with_tree hash tree col))
      → Seen seen out
  new-Seen depth seen hash base_path col out keeps fresh h held =
      let (tree, next, _) =
        >>=-eq-ok (fetch_tree l s dek hash) _
          (sym (resolve_new depth hash base_path col fresh) ∙ h) in
      resolve_nodes-Seen (resolve l s dek depth) seen base_path tree.nodes (with_tree hash tree col)
        out keeps next (held tree)

  resolve-Keeps : (depth : ℕ) → Keeps (resolve l s dek depth)
  unfolding resolve
  resolve-Keeps zero seen hash base_path col out h held = cc
  resolve-Keeps (suc depth) seen hash base_path col out h held =
      elim (Bool-cases (has_key hash col.trees)) [
        | inl old ↦
            subst (Seen seen) (ok-injective (sym (resolve_old depth hash base_path col old) ∙ h))
              held
        | inr fresh ↦
            new-Seen depth seen hash base_path col out (resolve-Keeps depth) fresh h
              (λ tree. has_key-insert seen hash tree col.trees held)
      ]

  resolve-Seen :
      (depth : ℕ) (hash base_path : Bytes) (col out : Collections)
      → resolve l s dek depth hash base_path col ≡ ok out
      → Seen hash out
  unfolding resolve
  resolve-Seen zero hash base_path col out h = cc
  resolve-Seen (suc depth) hash base_path col out h = elim (Bool-cases (has_key hash col.trees)) [
    | inl old ↦
        subst (Seen hash) (ok-injective (sym (resolve_old depth hash base_path col old) ∙ h)) old
    | inr fresh ↦
        new-Seen depth hash hash base_path col out (resolve-Keeps depth) fresh h
          (λ tree. has_key-insert_same hash tree col.trees)
  ]

  -- Once a tree has been resolved at one path, resolving it at any other path succeeds and adds
  -- nothing: no tree, no file and no node is noted for the second path.
  pub resolve_twice :
      (depth again : ℕ) (hash base_path other_path : Bytes) (col out : Collections)
      → resolve l s dek depth hash base_path col ≡ ok out
      → resolve l s dek (suc again) hash other_path out ≡ ok out
  resolve_twice depth again hash base_path other_path col out h =
      resolve_old again hash other_path out (resolve-Seen depth hash base_path col out h)
