-- ===== src/Tests/Runs.antt =====
-- A whole restore of one file, paths that are joined, and what is done to the disk.
use baas_go_sdk.Base.{◌≡◌, refl, Bool, true, false, none, some, List, [], ◌∷◌, if◌then◌else◌, inr}
use baas_go_sdk.Base.Text.{Bytes, codes, str_eq, contains_byte, starts_with}
use baas_go_sdk.Base.Int.{pos}
use baas_go_sdk.Base.All.{All}
use baas_go_sdk.Base.Dict.{Dict, lookup, insert, has_key}
use baas_go_sdk.Encoding.Hex
use baas_go_sdk.Encoding.Hex.{hex_digit}
use baas_go_sdk.Errors.Outcome.{Outcome, ok}
use baas_go_sdk.Types.{Snapshot, TreeNode, TreeBlob, RestoreOptions}
use baas_go_sdk.Codec.{
  maybe_decompress_stored_or_infer_zstd, maybe_decompress_stored, looks_like_zstd_frame,
}
use baas_go_sdk.Encrypt.Keyfile.{Disk, EncryptionOptions}
use baas_go_sdk.Chunk.File.{sha256_hex}
use baas_go_sdk.Pool.{batch, batch_loop}
use baas_go_sdk.Pipeline.Upload.{knows}
use baas_go_sdk.Pipeline.Objects.{decode_standalone_chunk, decode_stored, verify}
use baas_go_sdk.Pipeline.Keys.{load_snapshot_and_dek}
use baas_go_sdk.Pipeline.Restore.{
  normalize_restore_inputs, collect_data_hashes, missing_chunks, ensure_all_chunks_present,
  tree_data, decode_tree_object, join_tree_path,
}
use baas_go_sdk.Pipeline.Restore.Target.{
  safe_join_target, clean_path, clean, split_path, enter_all, is_abs, reverse_onto, parts_of,
  join_parts, render, join, rel_parts, rel, escapes,
}
use baas_go_sdk.Pipeline.Restore.Inside.{IsBelow, safe_join_target-IsBelow}
use baas_go_sdk.Pipeline.Restore.Download.{
  Server, Collections, no_collections, fetch_tree, resolve, resolve_nodes,
  download_tree_collections, store_packs, store_standalone, store_batches, download_chunk_data,
}
use baas_go_sdk.Pipeline.Restore.Write.{
  Refusals, restore_meta, restore_nodes, apply_node_meta, write_restored_files, write_chunks,
  append_bytes, through_slash,
}
use baas_go_sdk.Pipeline.Restore.Contents.{Holds}
use baas_go_sdk.Pipeline.Restore.Verified.{IsVerified, download_chunk_data-IsVerified}
use baas_go_sdk.Pipeline.Restore.Complete.{AllPresent}
use baas_go_sdk.Pipeline.Restore.Confined.{Confined, restore_meta-Confined}
use baas_go_sdk.Pipeline.Restore.Seen.{resolve_twice}
use baas_go_sdk.Pipeline.Restore.Run.{Gathered, gather, perform_restore, perform_restore_lem}
use baas_go_sdk.Tests.Toys.{toy_libraries, toy_keyfiles}

joins : safe_join_target (codes "/r/x") (codes "a/b") ≡ ok (codes "/r/x/a/b")
unfolding safe_join_target clean_path clean split_path enter_all is_abs reverse_onto parts_of
    join_parts render join rel_parts rel escapes str_eq starts_with
joins = refl

safe_join_target-IsBelow_example :
    IsBelow (clean_path (codes "/r/x")) (clean_path (codes "/r/x/a/b"))
safe_join_target-IsBelow_example =
    safe_join_target-IsBelow (codes "/r/x") (codes "a/b") (codes "/r/x/a/b") joins

abbrev file_node : TreeNode
file_node = record {
  name = codes "f";
  node_type = codes "file";
  mode = some (pos 420);
  size = some (pos 2);
  mtime = codes "";
  content = some (codes "02" ∷ []);
  subtree = codes "";
  target = codes "";
}

abbrev small_tree : TreeBlob
small_tree = record { nodes = file_node ∷ [] }

abbrev dir_node : TreeNode
dir_node = record {
  name = codes "d";
  node_type = codes "dir";
  mode = some (pos 493);
  size = none;
  mtime = codes "t";
  content = none;
  subtree = codes "01";
  target = codes "";
}

abbrev trees : Dict TreeBlob
trees = (codes "00", small_tree) ∷ []

-- A directory with one file.
abbrev nested : Dict TreeBlob
nested = (codes "00", record { nodes = dir_node ∷ [] }) ∷ (codes "01", small_tree) ∷ []

restore_meta-Confined_example :
    Confined
      (codes "/r")
      (restore_meta (λ text. true) (codes "/r") 3 nested (codes "00") (codes ""))
restore_meta-Confined_example =
    restore_meta-Confined (codes "/r") (λ text. true) 3 nested (codes "00") (codes "")
      ((inr refl, tt), ((inr refl, tt), tt))

abbrev first_or_empty : List Bytes → Bytes
first_or_empty [] = codes ""
first_or_empty (h ∷ _) = h

abbrev pub snapshot : Snapshot
snapshot = record {
  snapshot_id = codes "s";
  workspace_id = codes "w";
  root_tree_hash = codes "00";
  hostname = codes "h";
  source_id = codes "i";
  paths = [];
  description = codes "";
  tags = [];
  total_size = pos 2;
  total_chunks = pos 1;
  created_at = pos 0;
  wrapped_dek = codes "";
  encryption = none;
}

-- Objects are stored alone, at a URL that is their hash.
abbrev server : Server
server = record {
  get_snapshot = λ id. ok snapshot;
  request_urls = λ hashes. ok (record {
    packs = [];
    standalone = record { hash = first_or_empty hashes; url = first_or_empty hashes } ∷ [];
  });
  s3_get = λ url.
      ok (record {
        bytes = if str_eq url (codes "00") then codes "tree" else codes "ab";
        spare = [];
      });
  unmarshal_tree = λ text. ok small_tree;
}

abbrev collections : Collections
collections = record {
  trees = trees;
  file_map = (codes "f", codes "02" ∷ []) ∷ [];
  node_meta = (codes "f", file_node) ∷ [];
}

abbrev gathered : Gathered
gathered = record {
  root = codes "00";
  collections = collections;
  chunks = (codes "02", codes "ab") ∷ [];
}

abbrev pub options : RestoreOptions EncryptionOptions
options = record { workspace_id = codes ""; skip_checksum_verification = false; enc_options = none }

abbrev pub key_disk : Disk
key_disk = record { files = []; writable = λ path. true }

resolves :
    resolve toy_libraries server none 2 (codes "00") (codes "") no_collections ≡ ok collections
unfolding resolve resolve_nodes fetch_tree tree_data decode_tree_object
    maybe_decompress_stored_or_infer_zstd maybe_decompress_stored looks_like_zstd_frame
    join_tree_path has_key lookup insert str_eq contains_byte starts_with
resolves = refl

resolve_twice_example :
    resolve toy_libraries server none 2 (codes "00") (codes "copy") collections ≡ ok collections
resolve_twice_example =
    resolve_twice toy_libraries server none 2 1 (codes "00") (codes "") (codes "copy")
      no_collections collections resolves

downloads :
    download_chunk_data toy_libraries server none true (codes "02" ∷ [])
    ≡ ok ((codes "02", codes "ab") ∷ [])
unfolding download_chunk_data store_batches store_packs store_standalone batch batch_loop
    decode_standalone_chunk decode_stored maybe_decompress_stored looks_like_zstd_frame verify
    maybe_decompress_stored_or_infer_zstd sha256_hex Hex.encode hex_digit insert str_eq starts_with
downloads = refl

download_chunk_data-IsVerified_example : IsVerified toy_libraries ((codes "02", codes "ab") ∷ [])
download_chunk_data-IsVerified_example =
    download_chunk_data-IsVerified toy_libraries server none (codes "02" ∷ [])
      ((codes "02", codes "ab") ∷ []) downloads

gathers : gather toy_libraries toy_keyfiles server key_disk 2 (codes "s") options true ≡ ok gathered
unfolding gather load_snapshot_and_dek download_tree_collections collect_data_hashes knows
    ensure_all_chunks_present missing_chunks has_key lookup resolve resolve_nodes fetch_tree
    tree_data decode_tree_object maybe_decompress_stored_or_infer_zstd maybe_decompress_stored
    looks_like_zstd_frame join_tree_path download_chunk_data store_batches store_packs
    store_standalone batch batch_loop decode_standalone_chunk decode_stored verify sha256_hex
    Hex.encode hex_digit insert str_eq starts_with contains_byte
gathers = refl

-- A disk that refuses nothing.
abbrev pub allowed : Refusals
allowed = record { make_dirs = λ path. none; create = λ path. none; write = λ path bytes. none }

abbrev pub no_time : Bytes → Bool
no_time text = false

abbrev restored : Outcome (Unit {0})
restored =
    (perform_restore toy_libraries toy_keyfiles server key_disk 2 allowed no_time (codes "/r")
      (codes "s") (some options) (pos 1) []).result

ends : restored ≡ ok tt
unfolding perform_restore normalize_restore_inputs gather load_snapshot_and_dek
    download_tree_collections collect_data_hashes knows ensure_all_chunks_present missing_chunks
    has_key lookup resolve resolve_nodes fetch_tree tree_data decode_tree_object
    maybe_decompress_stored_or_infer_zstd maybe_decompress_stored looks_like_zstd_frame
    join_tree_path download_chunk_data store_batches store_packs store_standalone batch batch_loop
    decode_standalone_chunk decode_stored verify sha256_hex Hex.encode hex_digit insert str_eq
    starts_with contains_byte write_restored_files write_chunks append_bytes through_slash
    restore_meta restore_nodes apply_node_meta safe_join_target clean_path clean split_path
    enter_all is_abs reverse_onto parts_of join_parts render join rel_parts rel escapes
ends = refl

perform_restore_lem_example :
    IsVerified toy_libraries gathered.chunks
    × AllPresent gathered.chunks gathered.collections.file_map
    × All
        (Holds allowed gathered.chunks
          (codes "/r")
          (perform_restore toy_libraries toy_keyfiles server key_disk 2 allowed no_time
            (codes "/r")
            (codes "s")
            (some options)
            (pos 1)
            []).files)
        gathered.collections.file_map
perform_restore_lem_example =
    perform_restore_lem toy_libraries toy_keyfiles server key_disk 2 allowed no_time (codes "/r")
      (codes "s") options (pos 1) [] gathered refl gathers ((λ path e. tt), tt) ends
