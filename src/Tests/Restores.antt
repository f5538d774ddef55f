-- ===== src/Tests/Restores.antt =====
-- The key of a snapshot, the id of a source and the test for missing chunks.
use baas_go_sdk.Base.{
  ◌≡◌, refl, true, none, some, List, [], ◌∷◌, arith, length, replicate, ℕ, zero, suc,
}
use baas_go_sdk.Base.Text.{Bytes, codes, str_eq}
use baas_go_sdk.Base.Int.{pos}
use baas_go_sdk.Base.All.{All}
use baas_go_sdk.Base.Dict.{Dict, lookup, has_key}
use baas_go_sdk.Encoding.Hex.{IsByte}
use baas_go_sdk.Errors.Outcome.{Outcome, ok}
use baas_go_sdk.Types.{Snapshot, SnapshotEncryptionUpdate}
use baas_go_sdk.Encoding.Base64
use baas_go_sdk.Encrypt.{aes_gcm_open, check_key}
use baas_go_sdk.Encrypt.Dek.{wrapped, unwrap_dek_lem}
use baas_go_sdk.Encrypt.Keyfile.{
  Disk, EncryptionOptions, keyfile_of, default_argon2_params, load_tmk, open_keyfile,
}
use baas_go_sdk.Pipeline.Keys.{
  BackupKeys, init_backup_encryption, load_snapshot_and_dek, rotate_snapshot_tmk,
}
use baas_go_sdk.Pipeline.Keys.Lifecycle.{
  load_snapshot_and_dek-init_backup_encryption, load_snapshot_and_dek-rotate_snapshot_tmk,
}
use baas_go_sdk.Pipeline.Restore.{collect_data_hashes, missing_chunks, ensure_all_chunks_present}
use baas_go_sdk.Pipeline.Upload.{knows}
use baas_go_sdk.SourceId.{get_or_generate_source_id}
use baas_go_sdk.SourceId.Kept.{get_or_generate_source_id_lem}
use baas_go_sdk.Tests.Toys.{toy_primitives, toy_primitives-IsAead, toy_keyfiles}

abbrev empty_disk : Disk
empty_disk = record { files = []; writable = λ path. true }

get_or_generate_source_id_lem_example :
    (id : Bytes) × (disk' : Disk) × (length id ≡ 32)
    × (get_or_generate_source_id (codes "f") true (some (replicate 16 7)) empty_disk
        ≡ (ok id, disk'))
    × (get_or_generate_source_id (codes "f") true none disk' ≡ (ok id, disk'))
get_or_generate_source_id_lem_example =
    get_or_generate_source_id_lem (codes "f") (replicate 16 7) none empty_disk
      (unfold lookup in refl) refl refl

abbrev one_file : Dict (List Bytes)
one_file = (codes "f", codes "a" ∷ codes "b" ∷ codes "a" ∷ []) ∷ []

abbrev cache : Dict Bytes
cache = (codes "b", []) ∷ (codes "a", []) ∷ []

all_there : ensure_all_chunks_present (collect_data_hashes one_file) cache ≡ ok tt
unfolding ensure_all_chunks_present collect_data_hashes missing_chunks knows has_key lookup str_eq
all_there = refl

abbrev nonce : Bytes
nonce = replicate 12 9

abbrev dek : Bytes
dek = replicate 32 3

abbrev tmk : Bytes
tmk = replicate 32 1

replicated-bytes : (n b : ℕ) → IsByte b → All IsByte (replicate n b)
replicated-bytes zero b h = tt
replicated-bytes (suc n) b h = (h, replicated-bytes n b h)

-- A disk that holds the tenant key under a passphrase of four characters.
abbrev key_disk : Disk
key_disk = record {
  files =
      (
        codes "k",
        toy_keyfiles.marshal (
            keyfile_of default_argon2_params nonce nonce
              (toy_primitives.gcm_seal (replicate 32 4) nonce tmk)),
      )
      ∷ [];
  writable = λ path. true;
}

abbrev options : EncryptionOptions
options = record { keyfile_path = codes "k"; passphrase = codes "pass"; passphrase_func = none }

loads : load_tmk toy_primitives toy_keyfiles options key_disk ≡ ok tmk
unfolding load_tmk open_keyfile lookup str_eq Base64.encode Base64.decode Base64.digit Base64.value
    Base64.last_group Base64.groups Base64.strip aes_gcm_open check_key
loads = refl

abbrev snapshot : Snapshot
snapshot = record {
  snapshot_id = codes "s";
  workspace_id = codes "w";
  root_tree_hash = codes "00";
  hostname = codes "h";
  source_id = codes "i";
  paths = [];
  description = codes "";
  tags = [];
  total_size = pos 0;
  total_chunks = pos 0;
  created_at = pos 0;
  wrapped_dek = wrapped toy_primitives toy_primitives-IsAead (replicate 32 2) dek nonce;
  encryption = none;
}

load_snapshot_and_dek-init_backup_encryption_example :
    (keys : BackupKeys) × (init_backup_encryption toy_primitives toy_keyfiles
        (some dek)
        (some nonce)
        (some options)
        key_disk
      ≡ ok (some keys))
    × (keys.dek ≡ dek)
    × (load_snapshot_and_dek toy_primitives toy_keyfiles
          (ok (record snapshot { wrapped_dek = keys.wrapped_dek }))
          (some options)
          key_disk
        ≡ ok (record snapshot { wrapped_dek = keys.wrapped_dek }, some dek))
load_snapshot_and_dek-init_backup_encryption_example =
    load_snapshot_and_dek-init_backup_encryption toy_primitives toy_keyfiles (some nonce) options
      key_disk tmk dek nonce snapshot toy_primitives-IsAead loads refl
      (record { drawn = refl; twelve = refl }) (replicated-bytes 12 9 (omega arith))
      (replicated-bytes 32 3 (omega arith))

abbrev accept : SnapshotEncryptionUpdate → Outcome Snapshot
accept update = ok (record snapshot { wrapped_dek = update.wrapped_dek })

load_snapshot_and_dek-rotate_snapshot_tmk_example :
    (update : SnapshotEncryptionUpdate) × ((rotate_snapshot_tmk toy_primitives accept
        (codes "s")
        (some nonce)
        (replicate 32 2)
        tmk
        (ok snapshot)).1
      ≡ update ∷ [])
    × (update.encryption ≡ none)
    × (load_snapshot_and_dek toy_primitives toy_keyfiles
          (ok (record snapshot { wrapped_dek = update.wrapped_dek }))
          (some options)
          key_disk
        ≡ ok (record snapshot { wrapped_dek = update.wrapped_dek }, some dek))
load_snapshot_and_dek-rotate_snapshot_tmk_example =
    load_snapshot_and_dek-rotate_snapshot_tmk toy_primitives toy_keyfiles accept (codes "s")
      (some nonce) (replicate 32 2) tmk dek nonce snapshot options key_disk toy_primitives-IsAead
      refl (record { drawn = refl; twelve = refl }) (replicated-bytes 12 9 (omega arith))
      (replicated-bytes 32 3 (omega arith))
      (unwrap_dek_lem toy_primitives toy_primitives-IsAead (replicate 32 2) dek nonce refl refl
        (replicated-bytes 12 9 (omega arith)) (replicated-bytes 32 3 (omega arith)))
      loads
