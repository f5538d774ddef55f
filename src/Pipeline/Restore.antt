-- ===== src/Pipeline/Restore.antt =====
-- Parts of pipeline/restore.go: the bytes of a tree object, the paths of its nodes, and the test that
-- every chunk was downloaded; the modules below hold the rest. Maps are association lists; the code
-- visits them in any order.
pub mod Complete
pub mod Target
mod Names
pub mod Inside
pub mod Download
pub mod Write
pub mod Contents
pub mod Confined
pub mod Depth
pub mod Verified
pub mod Run
pub mod Seen
use baas_go_sdk.Base.Int.{ℤ, pos, negsuc}
use baas_go_sdk.Base.{
  ℕ, zero, suc, not, Bool, true, false, ◌||◌, Option, none, some, List, [], ◌∷◌, ◌++◌,
  if◌then◌else◌, length,
}
use baas_go_sdk.Base.Text.{Bytes, codes, str_eq, contains_byte}
use baas_go_sdk.Base.Dict.{Dict, has_key}
use baas_go_sdk.Errors.{Error, text, wrap}
use baas_go_sdk.Errors.Kinds.{
  derive_tree_key, decrypt_tree, decompress_tree, no_download_url, restore_incomplete,
  invalid_node_name,
}
use baas_go_sdk.Errors.Outcome.{Outcome, ok, err, panic, ◌>>=◌, map_err}
use baas_go_sdk.Types.{
  PackDownloadChunk, PackDownloadEntry, DownloadUrlEntry, PackDownloadResponse, RestoreOptions,
}
use baas_go_sdk.Codec.{maybe_decompress_stored_or_infer_zstd}
use baas_go_sdk.Encrypt
use baas_go_sdk.Encrypt.{decrypt_object}
use baas_go_sdk.Pipeline.Objects.{Libraries, PackData, slice}
use baas_go_sdk.Pipeline.Upload.{knows}

module _ (l : Libraries) (dek : Option Bytes) (hash : Bytes) where
  abbrev opened_tree : Option Bytes → Bytes → Outcome Bytes
  opened_tree none stored = ok stored
  opened_tree (some key) stored = do
    tree_key ←
        map_err (wrap derive_tree_key (hash ∷ [])) (Encrypt.derive_tree_key l.primitives key hash)
    map_err (wrap decrypt_tree (hash ∷ [])) (decrypt_object l.primitives tree_key stored)

  unfoldable pub decode_tree_object : Bytes → Bytes → Outcome Bytes
  decode_tree_object compression stored = do
    plain ← opened_tree dek stored
    map_err (wrap decompress_tree (hash ∷ []))
        (maybe_decompress_stored_or_infer_zstd l.zstd plain compression)

  abbrev from_standalone : (Bytes → Outcome PackData) → List DownloadUrlEntry → Outcome Bytes
  from_standalone s3_get [] = err (text no_download_url (hash ∷ []))
  from_standalone s3_get (entry ∷ _) = do
    data_read ← s3_get entry.url
    decode_tree_object (codes "") data_read.bytes

  abbrev from_packs :
      (Bytes → Outcome PackData) → List DownloadUrlEntry → List PackDownloadEntry → Outcome Bytes
  from_packs s3_get standalone [] = from_standalone s3_get standalone
  from_packs s3_get standalone (pack ∷ _) = from_chunks pack.chunks
    where
      from_chunks : List PackDownloadChunk → Outcome Bytes
      from_chunks [] = from_standalone s3_get standalone
      from_chunks (ch ∷ _) = do
        pack_data ← s3_get pack.url
        stored ← slice pack_data ch.offset ch.size
        decode_tree_object ch.compression stored

  -- The serialised tree, once the server has answered: the first chunk of the first pack, or the
  -- first standalone object.
  unfoldable pub tree_data : (Bytes → Outcome PackData) → PackDownloadResponse → Outcome Bytes
  tree_data s3_get resp = from_packs s3_get resp.standalone resp.packs

abbrev default_concurrency : ℕ
default_concurrency = 8

abbrev options_or_default : {E : Type 0} → Option (RestoreOptions E) → RestoreOptions E
options_or_default none = record {
  workspace_id = codes "";
  skip_checksum_verification = false;
  enc_options = none;
}
options_or_default (some options) = options

abbrev concurrency_or_default : ℤ → ℤ
concurrency_or_default (pos zero) = pos default_concurrency
concurrency_or_default (pos (suc n)) = pos (suc n)
concurrency_or_default (negsuc n) = pos default_concurrency

-- The options, whether checksums are verified, and the number of workers.
unfoldable pub normalize_restore_inputs :
    {E : Type 0} → Option (RestoreOptions E) → ℤ → RestoreOptions E × Bool × ℤ
normalize_restore_inputs options concurrency =
    let given = options_or_default options in
    (given, not given.skip_checksum_verification, concurrency_or_default concurrency)

-- A node's name is one component of a path.
unfoldable pub join_tree_path : Bytes → Bytes → Outcome Bytes
join_tree_path base_path name =
    if str_eq name (codes "") || (str_eq name (codes ".") || str_eq name (codes ".."))
    then err (text invalid_node_name (name ∷ []))
    else if contains_byte b'/' name || contains_byte b'\\' name
    then err (text invalid_node_name (name ∷ []))
    else if str_eq base_path (codes "")
    then ok name
    else ok (base_path ++ (codes "/" ++ name))

abbrev pub add_hashes : List Bytes → List Bytes → List Bytes
add_hashes [] found = found
add_hashes (h ∷ hs) found = add_hashes hs (if knows h found then found else h ∷ found)

-- The hashes of all files, each once.
unfoldable pub collect_data_hashes : Dict (List Bytes) → List Bytes
collect_data_hashes [] = []
collect_data_hashes ((path, hs) ∷ rest) = add_hashes hs (collect_data_hashes rest)

unfoldable pub missing_chunks : List Bytes → Dict Bytes → List Bytes
missing_chunks [] cache = []
missing_chunks (h ∷ hs) cache =
    if has_key h cache then missing_chunks hs cache else h ∷ missing_chunks hs cache

abbrev report_missing : List Bytes → Outcome (Unit {0})
report_missing [] = ok tt
report_missing (h ∷ hs) = err (text restore_incomplete ((length (h ∷ hs) ∷ []) ∷ h ∷ []))

-- The message holds the number of missing chunks, here as one item, and the first of them.
unfoldable pub ensure_all_chunks_present : List Bytes → Dict Bytes → Outcome (Unit {0})
ensure_all_chunks_present hashes cache = report_missing (missing_chunks hashes cache)
