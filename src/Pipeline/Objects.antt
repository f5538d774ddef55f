-- ===== src/Pipeline/Objects.antt =====
-- How one object is stored by the backup and read by the restore: the encoding in
-- `processFileChunks` and `buildAndUploadTrees` of pipeline/backup.go, and `decodePackChunk` and
-- `decodeStandaloneChunk` of pipeline/restore.go. `none` is a nil DEK.
pub mod Laws
pub mod Guess
use baas_go_sdk.Base.{
  ℕ, ◌+◌, ◌-◌, ◌≤◌, ◌≡◌, Bool, true, false, not, ◌&&◌, ◌||◌, Option, none, some, List, [], ◌∷◌,
  ◌++◌, ltb, leb, if◌then◌else◌, length, take, drop,
}
use baas_go_sdk.Base.Text.{Bytes, codes, str_eq}
use baas_go_sdk.Base.Int.{ℤ, pos, negsuc}
use baas_go_sdk.Errors.{Error, Kind, text, wrap}
use baas_go_sdk.Errors.Kinds.{
  derive_data_key, derive_tree_key, encrypt_chunk, encrypt_tree, decrypt_chunk, decompress_chunk,
  checksum_mismatch,
}
use baas_go_sdk.Errors.Outcome.{Outcome, ok, err, panic, ◌>>=◌, map_err}
use baas_go_sdk.Types.{ChunkData, PackDownloadChunk, DownloadUrlEntry}
use baas_go_sdk.Chunk.File.{sha256_hex}
use baas_go_sdk.Codec.{Zstd, Compressed, maybe_zstd_compress, maybe_decompress_stored_or_infer_zstd}
use baas_go_sdk.Encrypt
use baas_go_sdk.Encrypt.{Primitives, Random, encrypt_object, decrypt_object}

-- The libraries that the pipeline calls.
pub record Libraries : Type 0 where
  pub zstd : Zstd
  pub primitives : Primitives
  pub sha256 : Bytes → Bytes

-- `packChunk`
pub record PackChunk : Type 0 where
  pub hash : Bytes
  pub bytes : Bytes
  pub chunk_typ : Bytes
  pub compression : Bytes
  pub uncompressed_size : ℕ

module _ (l : Libraries) where
  -- Compression, unless it is disabled.
  unfoldable pub compress : Bool → Bytes → Compressed
  compress disabled raw =
      if disabled
      then record { stored = raw; compression = codes ""; uncompressed_size = length raw }
      else maybe_zstd_compress l.zstd raw

  -- Encryption under a key that is derived from the DEK and the hash.
  unfoldable pub encrypt_stored :
      Kind → Kind → Outcome Bytes → Random → Bytes → Bytes → Outcome Bytes
  encrypt_stored derive_kind encrypt_kind derived r hash stored = do
    key ← map_err (wrap derive_kind (hash ∷ [])) derived
    map_err (wrap encrypt_kind (hash ∷ [])) (encrypt_object l.primitives r key stored)

  abbrev pub sealed_chunk : Option Bytes → Random → Bytes → Bytes → Outcome Bytes
  sealed_chunk none r hash stored = ok stored
  sealed_chunk (some dek) r hash stored =
      encrypt_stored derive_data_key encrypt_chunk (Encrypt.derive_data_key l.primitives dek hash) r
        hash stored

  abbrev sealed_tree : Option Bytes → Random → Bytes → Bytes → Outcome Bytes
  sealed_tree none r hash stored = ok stored
  sealed_tree (some dek) r hash stored =
      encrypt_stored derive_tree_key encrypt_tree (Encrypt.derive_tree_key l.primitives dek hash) r
        hash stored

  -- The pack chunk for a data chunk.
  unfoldable pub store_chunk : Bool → Option Bytes → Random → ChunkData → Outcome PackChunk
  store_chunk disabled dek r c =
      let packed = compress disabled c.bytes in
      sealed_chunk dek r c.hash packed.stored >>= λ stored. ok (record {
        hash = c.hash;
        bytes = stored;
        chunk_typ = codes "data";
        compression = packed.compression;
        uncompressed_size = packed.uncompressed_size;
      })

  -- The pack chunk for a serialised tree.
  unfoldable pub store_tree : Bool → Option Bytes → Random → Bytes → Bytes → Outcome PackChunk
  store_tree disabled dek r hash serialised =
      let packed = compress disabled serialised in
      sealed_tree dek r hash packed.stored >>= λ stored. ok (record {
        hash = hash;
        bytes = stored;
        chunk_typ = codes "tree";
        compression = packed.compression;
        uncompressed_size = packed.uncompressed_size;
      })

-- A downloaded pack: its bytes, and what the array behind the slice holds beyond them. Go bounds a
-- slice expression by the capacity and not by the length.
pub record PackData : Type 0 where
  pub bytes : Bytes
  pub spare : Bytes

-- `packData[offset : offset+size]`, which panics out of range.
unfoldable pub slice : PackData → ℤ → ℤ → Outcome Bytes
slice d (pos offset) (pos size) =
    let array = d.bytes ++ d.spare in
    if leb (offset + size) (length array) then ok (take size (drop offset array)) else panic
slice d _ _ = panic

module _ (l : Libraries) where
  abbrev opened_chunk : Option Bytes → Bytes → Bytes → Outcome Bytes
  opened_chunk none hash stored = ok stored
  opened_chunk (some dek) hash stored = do
    key ← map_err (wrap derive_data_key (hash ∷ [])) (Encrypt.derive_data_key l.primitives dek hash)
    map_err (wrap decrypt_chunk (hash ∷ [])) (decrypt_object l.primitives key stored)

  -- `if verifyChecksums { … }`
  unfoldable pub verify : Bool → Bytes → Bytes → Outcome Bytes
  verify checked hash raw =
      let actual = sha256_hex l.sha256 raw in
      if checked && not (str_eq actual hash)
      then err (text checksum_mismatch (hash ∷ actual ∷ []))
      else ok raw

  -- Decryption, decompression and the checksum, which both decoders share.
  unfoldable pub decode_stored : Option Bytes → Bool → Bytes → Bytes → Bytes → Outcome Bytes
  decode_stored dek checked hash compression stored = do
    plain ← opened_chunk dek hash stored
    raw ←
        map_err (wrap decompress_chunk (hash ∷ []))
          (maybe_decompress_stored_or_infer_zstd l.zstd plain compression)
    verify checked hash raw

  unfoldable pub decode_pack_chunk :
      PackData → PackDownloadChunk → Option Bytes → Bool → Outcome Bytes
  decode_pack_chunk pack_data ch_meta dek checked = do
    stored ← slice pack_data ch_meta.offset ch_meta.size
    decode_stored dek checked ch_meta.hash ch_meta.compression stored

  -- The first argument is what `S3Get` gives for the entry's URL.
  unfoldable pub decode_standalone_chunk :
      Outcome Bytes → DownloadUrlEntry → Option Bytes → Bool → Outcome Bytes
  decode_standalone_chunk got entry dek checked = do
    stored ← got
    decode_stored dek checked entry.hash (codes "") stored
