-- ===== src/Pipeline/Restore/Write.antt =====
-- About writeRestoredFiles, restoreMeta and applyNodeMeta of pipeline/restore.go.
use baas_go_sdk.Base.{
  ℕ, zero, suc, ◌-◌, ◌%◌, ◌&&◌, Bool, not, Option, none, some, List, [], ◌∷◌, ◌++◌, if◌then◌else◌,
}
use baas_go_sdk.Base.Int.{ℤ, pos, negsuc}
use baas_go_sdk.Base.Text.{Bytes, codes, str_eq, contains_byte}
use baas_go_sdk.Base.Dict.{Dict, lookup, insert}
use baas_go_sdk.Errors.{Error, text, wrap}
use baas_go_sdk.Errors.Kinds.{mkdir_for, create_file, missing_chunk, write_file}
use baas_go_sdk.Errors.Outcome.{Outcome, ok, err, panic}
use baas_go_sdk.Types.{TreeNode, TreeBlob}
use baas_go_sdk.Pipeline.Restore.{join_tree_path}
use baas_go_sdk.Pipeline.Restore.Target.{clean, safe_join_target}

-- What the disk refuses: to make a directory, to create a file, and to write bytes to one.
pub record Refusals : Type 0 where
  pub make_dirs : Bytes → Option Error
  pub create : Bytes → Option Error
  pub write : Bytes → Bytes → Option Error

-- The files on the disk, and how the operation ended.
abbrev pub Written : Type 0
Written = Dict Bytes × Outcome (Unit {0})

abbrev pub bytes_of : Option Bytes → Bytes
bytes_of none = []
bytes_of (some bytes) = bytes

unfoldable pub append_bytes : Bytes → Bytes → Dict Bytes → Dict Bytes
append_bytes path bytes disk = insert path (bytes_of (lookup path disk) ++ bytes) disk

-- A step that the disk may refuse.
abbrev pub unless_refused : Option Error → (Error → Error) → Dict Bytes → Written → Written
unless_refused none f disk next = next
unless_refused (some e) f disk next = (disk, err (f e))

-- The text up to the last separator, and that.
unfoldable pub through_slash : Bytes → Bytes
through_slash [] = []
through_slash (c ∷ s) = if contains_byte b'/' (c ∷ s) then c ∷ through_slash s else []

-- `filepath.Dir`
abbrev pub dir_of : Bytes → Bytes
dir_of path = clean (through_slash path)

module _ (r : Refusals) (cache : Dict Bytes) where
  abbrev pub write_chunk :
      Bytes → Bytes → Bytes → Dict Bytes → (Dict Bytes → Written) → Option Bytes → Written
  write_chunk path rel_path h disk next none = (disk, err (text missing_chunk (h ∷ rel_path ∷ [])))
  write_chunk path rel_path h disk next (some bytes) =
      unless_refused (r.write path bytes) (wrap write_file (rel_path ∷ [])) disk
        (next (append_bytes path bytes disk))

  unfoldable pub write_chunks : Bytes → Bytes → List Bytes → Dict Bytes → Written
  write_chunks path rel_path [] disk = (disk, ok tt)
  write_chunks path rel_path (h ∷ hashes) disk =
      write_chunk path rel_path h disk (write_chunks path rel_path hashes) (lookup h cache)

  abbrev pub write_file_at : Bytes → Bytes → List Bytes → Dict Bytes → Written
  write_file_at path rel_path hashes disk =
      unless_refused (r.make_dirs (dir_of path)) (wrap mkdir_for (rel_path ∷ [])) disk (
        unless_refused (r.create path) (wrap create_file (rel_path ∷ [])) disk
          (write_chunks path rel_path hashes (insert path [] disk)))

  abbrev pub then_written : Written → (Dict Bytes → Written) → Written
  then_written (disk, ok _) next = next disk
  then_written (disk, err e) next = (disk, err e)
  then_written (disk, panic) next = (disk, panic)

  abbrev pub with_path : Outcome Bytes → Dict Bytes → (Bytes → Written) → Written
  with_path (ok path) disk next = next path
  with_path (err e) disk next = (disk, err e)
  with_path panic disk next = (disk, panic)

  unfoldable pub write_restored_files : Bytes → Dict (List Bytes) → Dict Bytes → Written
  write_restored_files target_dir [] disk = (disk, ok tt)
  write_restored_files target_dir ((rel_path, hashes) ∷ files) disk =
      with_path (safe_join_target target_dir rel_path) disk λ path.
        then_written (write_file_at path rel_path hashes disk)
          (write_restored_files target_dir files)

-- What `restoreMeta` asks of the disk, whose answers it does not look at. An effect has the path
-- that the call is given; where that is, or passes, a symbolic link, the disk follows it for all but
-- `os.Symlink`.
pub data Effect : Type 0 where
  make_dir : Bytes → Effect
  link : Bytes → Bytes → Effect
  change_mode : Bytes → ℕ → Effect
  change_times : Bytes → Bytes → Effect

abbrev pub path_of : Effect → Bytes
path_of (make_dir path) = path
path_of (link target path) = path
path_of (change_mode path mode) = path
path_of (change_times path mtime) = path

-- `os.FileMode(mode) & 0o777`
abbrev permissions : ℤ → ℕ
permissions (pos n) = n % 512
permissions (negsuc n) = 511 - n % 512

abbrev pub mode_effect : Bytes → Option ℤ → List Effect
mode_effect path none = []
mode_effect path (some mode) = change_mode path (permissions mode) ∷ []

-- The texts that neither `time.Parse` reads are left alone.
unfoldable pub apply_node_meta : (Bytes → Bool) → Bytes → TreeNode → List Effect
apply_node_meta is_time full_path node =
    mode_effect full_path node.mode
    ++ (if not (str_eq node.mtime (codes "")) && is_time node.mtime
        then change_times full_path node.mtime ∷ []
        else [])

-- The effects, and how the operation ended.
abbrev pub Effects : Type 0
Effects = List Effect × Outcome (Unit {0})

-- What is done first, and the rest where that succeeds.
abbrev pub and_then : Effects → Effects → Effects
and_then (es, ok _) next = (es ++ next.0, next.1)
and_then (es, err e) next = (es, err e)
and_then (es, panic) next = (es, panic)

abbrev pub on_path : Outcome Bytes → (Bytes → Effects) → Effects
on_path (ok path) next = next path
on_path (err e) next = ([], err e)
on_path panic next = ([], panic)

module _ (is_time : Bytes → Bool) (target_dir : Bytes) where
  -- The first argument restores a subtree at a path.
  abbrev pub node_effects : (Bytes → Bytes → Effects) → TreeNode → Bytes → Bytes → Effects
  node_effects subtree node rel_path full_path =
      if str_eq node.node_type (codes "dir")
      then and_then (make_dir full_path ∷ [], ok tt)
          (if str_eq node.subtree (codes "") then ([], ok tt) else subtree node.subtree rel_path)
      else if str_eq node.node_type (codes "symlink") && not (str_eq node.target (codes ""))
      then (link node.target full_path ∷ [], ok tt)
      else ([], ok tt)

  abbrev pub restore_node : (Bytes → Bytes → Effects) → Bytes → TreeNode → Effects
  restore_node subtree base_path node = on_path (join_tree_path base_path node.name) λ rel_path.
      on_path (safe_join_target target_dir rel_path) λ full_path.
        and_then (node_effects subtree node rel_path full_path)
          (apply_node_meta is_time full_path node, ok tt)

  unfoldable pub restore_nodes : (Bytes → Bytes → Effects) → Bytes → List TreeNode → Effects
  restore_nodes subtree base_path [] = ([], ok tt)
  restore_nodes subtree base_path (node ∷ nodes) =
      and_then (restore_node subtree base_path node) (restore_nodes subtree base_path nodes)

  abbrev pub nodes_or_none : (Bytes → Bytes → Effects) → Bytes → Option TreeBlob → Effects
  nodes_or_none subtree base_path none = ([], ok tt)
  nodes_or_none subtree base_path (some tree) = restore_nodes subtree base_path tree.nodes

  -- The fuel bounds the depth; where it runs out, the code has no stack left.
  unfoldable pub restore_meta : ℕ → Dict TreeBlob → Bytes → Bytes → Effects
  restore_meta zero trees hash base_path = ([], panic)
  restore_meta (suc depth) trees hash base_path =
      nodes_or_none (restore_meta depth trees) base_path (lookup hash trees)
