-- ===== src/Pipeline/Restore/Download.antt =====
-- About resolveTree, downloadTreeCollections and downloadChunkData of pipeline/restore.go. The
-- packs of a batch are taken one after another, as one worker takes them; progress is left out.
use baas_go_sdk.Base.{
  ℕ, zero, suc, ◌&&◌, Bool, true, false, not, Option, none, some, List, [], ◌∷◌, if◌then◌else◌,
}
use baas_go_sdk.Base.Text.{Bytes, codes, str_eq}
use baas_go_sdk.Base.Dict.{Dict, insert, has_key}
use baas_go_sdk.Errors.{wrap}
use baas_go_sdk.Errors.Kinds.{decode_tree, resolve_tree, request_download_urls}
use baas_go_sdk.Errors.Outcome.{Outcome, ok, panic, ◌>>=◌, map_err}
use baas_go_sdk.Types.{
  TreeNode, TreeBlob, Snapshot, PackDownloadChunk, PackDownloadEntry, DownloadUrlEntry,
  PackDownloadResponse,
}
use baas_go_sdk.Pool.{batch}
use baas_go_sdk.Pipeline.Objects.{Libraries, PackData, decode_pack_chunk, decode_standalone_chunk}
use baas_go_sdk.Pipeline.Restore.{tree_data, join_tree_path}

-- What answers a restore: the three calls that it makes, and `json.Unmarshal` into a tree.
pub record Server : Type 0 where
  pub get_snapshot : Bytes → Outcome Snapshot
  pub request_urls : List Bytes → Outcome PackDownloadResponse
  pub s3_get : Bytes → Outcome PackData
  pub unmarshal_tree : Bytes → Outcome TreeBlob

-- `treeCollections`
pub record Collections : Type 0 where
  pub trees : Dict TreeBlob
  pub file_map : Dict (List Bytes)
  pub node_meta : Dict TreeNode

abbrev pub no_collections : Collections
no_collections = record { trees = []; file_map = []; node_meta = [] }

abbrev pub with_tree : Bytes → TreeBlob → Collections → Collections
with_tree hash tree col = record {
  trees = insert hash tree col.trees;
  file_map = col.file_map;
  node_meta = col.node_meta;
}

abbrev pub with_meta : Bytes → TreeNode → Collections → Collections
with_meta path node col = record {
  trees = col.trees;
  file_map = col.file_map;
  node_meta = insert path node col.node_meta;
}

abbrev pub with_file : Bytes → Option (List Bytes) → Collections → Collections
with_file path none col = col
with_file path (some content) col = record {
  trees = col.trees;
  file_map = insert path content col.file_map;
  node_meta = col.node_meta;
}

abbrev pub is_dir : TreeNode → Bool
is_dir node = str_eq node.node_type (codes "dir") && not (str_eq node.subtree (codes ""))

abbrev pub add_file : Bytes → TreeNode → Collections → Collections
add_file path node col =
    if str_eq node.node_type (codes "file") then with_file path node.content col else col

-- The first argument resolves a subtree at a path.
abbrev pub Resolver : Type 0
Resolver = Bytes → Bytes → Collections → Outcome Collections

abbrev pub resolve_node : Resolver → Bytes → TreeNode → Collections → Outcome Collections
resolve_node subtree base_path node col = do
  rel_path ← join_tree_path base_path node.name
  if is_dir node
      then subtree node.subtree rel_path (with_meta rel_path node col)
      else ok (add_file rel_path node (with_meta rel_path node col))

unfoldable pub resolve_nodes : Resolver → Bytes → List TreeNode → Collections → Outcome Collections
resolve_nodes subtree base_path [] col = ok col
resolve_nodes subtree base_path (node ∷ nodes) col =
    resolve_node subtree base_path node col >>= resolve_nodes subtree base_path nodes

module _ (l : Libraries) (s : Server) (dek : Option Bytes) where
  unfoldable pub fetch_tree : Bytes → Outcome TreeBlob
  fetch_tree hash = do
    resp ← s.request_urls (hash ∷ [])
    text ← tree_data l dek hash s.s3_get resp
    map_err (wrap decode_tree (hash ∷ [])) (s.unmarshal_tree text)

  -- The fuel bounds the depth; where it runs out, the code has no stack left.
  unfoldable pub resolve : ℕ → Resolver
  resolve zero hash base_path col = panic
  resolve (suc depth) hash base_path col = elim (has_key hash col.trees) [
    | true ↦ ok col
    | false ↦ fetch_tree hash >>= λ tree.
        resolve_nodes (resolve depth) base_path tree.nodes (with_tree hash tree col)
  ]

  unfoldable pub download_tree_collections : ℕ → Bytes → Outcome Collections
  download_tree_collections depth root_tree_hash =
      map_err (wrap resolve_tree []) (resolve depth root_tree_hash (codes "") no_collections)

module _ (l : Libraries) (s : Server) (dek : Option Bytes) (verify_checksums : Bool) where
  unfoldable pub store_chunks :
      PackData → List PackDownloadChunk → Dict Bytes → Outcome (Dict Bytes)
  store_chunks pack_data [] cache = ok cache
  store_chunks pack_data (ch ∷ chunks) cache =
      decode_pack_chunk l pack_data ch dek verify_checksums >>= λ bytes.
      store_chunks pack_data chunks (insert ch.hash bytes cache)

  unfoldable pub store_packs : List PackDownloadEntry → Dict Bytes → Outcome (Dict Bytes)
  store_packs [] cache = ok cache
  store_packs (pack ∷ packs) cache =
      (s.s3_get pack.url >>= λ pack_data. store_chunks pack_data pack.chunks cache)
      >>= store_packs packs

  unfoldable pub store_standalone : List DownloadUrlEntry → Dict Bytes → Outcome (Dict Bytes)
  store_standalone [] cache = ok cache
  store_standalone (entry ∷ entries) cache =
      decode_standalone_chunk l (s.s3_get entry.url >>= λ got. ok got.bytes) entry dek
        verify_checksums
      >>= λ bytes. store_standalone entries (insert entry.hash bytes cache)

  abbrev pub store_response : PackDownloadResponse → Dict Bytes → Outcome (Dict Bytes)
  store_response resp cache = store_packs resp.packs cache >>= store_standalone resp.standalone

  unfoldable pub store_batches : List (List Bytes) → Dict Bytes → Outcome (Dict Bytes)
  store_batches [] cache = ok cache
  store_batches (hashes ∷ rest) cache =
      (map_err (wrap request_download_urls []) (s.request_urls hashes) >>= λ resp.
      store_response resp cache)
      >>= store_batches rest

  abbrev pub batches_or_panic : Option (List (List Bytes)) → Outcome (Dict Bytes)
  batches_or_panic none = panic
  batches_or_panic (some hashes) = store_batches hashes []

  unfoldable pub download_chunk_data : List Bytes → Outcome (Dict Bytes)
  download_chunk_data hash_list = batches_or_panic (batch hash_list 500)
