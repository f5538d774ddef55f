-- ===== src/Types.antt =====
-- types/types.go: the data that the components exchange.
use baas_go_sdk.Base.{ℕ, ◌*◌, List, Option, Bool}
use baas_go_sdk.Base.Text.{Bytes}
use baas_go_sdk.Base.Int.{ℤ, pos}

-- Go's int may be negative, and nothing in the code checks these sizes.
pub record ChunkOptions : Type 0 where
  pub min_size : ℤ
  pub avg_size : ℤ
  pub max_size : ℤ

abbrev pub default_chunk_options : ChunkOptions
default_chunk_options = record {
  min_size = pos (1 * 1024 * 1024);
  avg_size = pos (4 * 1024 * 1024);
  max_size = pos (16 * 1024 * 1024);
}

pub record ChunkData : Type 0 where
  pub hash : Bytes
  pub bytes : Bytes
  pub size : ℕ

pub record EncryptionMeta : Type 0 where
  pub scheme : Bytes
  pub dek_wrapped_with : Bytes

pub record PackChunkMeta : Type 0 where
  pub hash : Bytes
  pub size : ℕ
  pub offset : ℕ
  pub type_name : Bytes
  pub compression : Bytes
  pub uncompressed_size : ℕ

-- Sent by the server, so offset and size may be any int.
pub record PackDownloadChunk : Type 0 where
  pub hash : Bytes
  pub offset : ℤ
  pub size : ℤ
  pub compression : Bytes
  pub uncompressed_size : ℤ

pub record DownloadUrlEntry : Type 0 where
  pub hash : Bytes
  pub url : Bytes

pub record PackDownloadEntry : Type 0 where
  pub pack_id : Bytes
  pub url : Bytes
  pub chunks : List PackDownloadChunk

pub record PackDownloadResponse : Type 0 where
  pub packs : List PackDownloadEntry
  pub standalone : List DownloadUrlEntry

pub record PackUploadUrlResponse : Type 0 where
  pub pack_id : Bytes
  pub url : Bytes
  pub key : Bytes

pub record BloomResponse : Type 0 where
  pub num_bits : ℤ
  pub num_hashes : ℤ
  pub data_text : Bytes
  pub count : ℤ

-- A nil `Encryption` is `none`; `Tags` is left as its entries.
pub record Snapshot : Type 0 where
  pub snapshot_id : Bytes
  pub workspace_id : Bytes
  pub root_tree_hash : Bytes
  pub hostname : Bytes
  pub source_id : Bytes
  pub paths : List Bytes
  pub description : Bytes
  pub tags : List (Bytes × Bytes)
  pub total_size : ℤ
  pub total_chunks : ℤ
  pub created_at : ℤ
  pub wrapped_dek : Bytes
  pub encryption : Option EncryptionMeta

pub record SnapshotEncryptionUpdate : Type 0 where
  pub wrapped_dek : Bytes
  pub encryption : Option EncryptionMeta

-- A nil pointer is `none`, and nil `Content` too.
pub record TreeNode : Type 0 where
  pub name : Bytes
  pub node_type : Bytes
  pub mode : Option ℤ
  pub size : Option ℤ
  pub mtime : Bytes
  pub content : Option (List Bytes)
  pub subtree : Bytes
  pub target : Bytes

pub record TreeBlob : Type 0 where
  pub nodes : List TreeNode

-- `OnProgress` is left out. `enc_options` is the path of the keyfile, the passphrase and what the
-- callback for it gives, where encryption is set.
pub record RestoreOptions (E : Type 0) : Type 0 where
  pub workspace_id : Bytes
  pub skip_checksum_verification : Bool
  pub enc_options : Option E
