-- ===== src/Pipeline/Keys/Lifecycle.antt =====
-- About the data key of a snapshot in a backup, a rotation and a restore.
use baas_go_sdk.Base.{◌≡◌, refl, false, some, [], ◌∷◌}
use baas_go_sdk.Base.Text.{Bytes, codes, str_eq}
use baas_go_sdk.Base.All.{All}
use baas_go_sdk.Encoding.Base64
use baas_go_sdk.Encoding.Hex.{IsByte}
use baas_go_sdk.Errors.Outcome.{Outcome, ok}
use baas_go_sdk.Types.{Snapshot, SnapshotEncryptionUpdate}
use baas_go_sdk.Encrypt.{
  Primitives, IsAead, Random, generate_dek, unwrap_dek, open_blob, new_encryption_meta,
}
use baas_go_sdk.Encrypt.Objects.{IsKey, IsNonce}
use baas_go_sdk.Encrypt.Dek.{unwrap_dek-wrap_dek, rewrap_dek_idempotent_lem}
use baas_go_sdk.Encrypt.Keyfile.{KeyfileLibrary, EncryptionOptions, Disk, load_tmk}
use baas_go_sdk.Pipeline.Keys.{
  BackupKeys, init_backup_encryption, load_snapshot_and_dek, rotate_snapshot_tmk,
}

-- A text that unwraps is not empty.
unwrapped-full :
    (p : Primitives) (tmk w dek : Bytes) → unwrap_dek p tmk w ≡ ok dek → str_eq w (codes "") ≡ false
unfolding unwrap_dek open_blob Base64.decode Base64.strip Base64.groups str_eq
unwrapped-full p tmk [] dek h = cc
unwrapped-full p tmk (b ∷ w) dek h = refl

-- For an AEAD that opens what it seals: where the tenant key loads and has 32 bytes, and the random
-- source gives a data key of bytes and a nonce of 12 bytes, a backup makes a wrapped key, and a restore of a snapshot that carries it, with the
-- same options and disk, opens it to the data key of the backup.
pub load_snapshot_and_dek-init_backup_encryption :
    (p : Primitives) (k : KeyfileLibrary) (nonce_r : Random) (opts : EncryptionOptions)
    (disk : Disk) (tmk dek nonce : Bytes) (snap : Snapshot)
    → IsAead p
    → load_tmk p k opts disk ≡ ok tmk
    → IsKey tmk
    → IsNonce nonce_r nonce
    → All IsByte nonce
    → All IsByte dek
    → (keys : BackupKeys) × (init_backup_encryption p k (some dek) nonce_r (some opts) disk
        ≡ ok (some keys))
      × (keys.dek ≡ dek)
      × (load_snapshot_and_dek p k
            (ok (record snap { wrapped_dek = keys.wrapped_dek }))
            (some opts)
            disk
          ≡ ok (record snap { wrapped_dek = keys.wrapped_dek }, some dek))
unfolding init_backup_encryption load_snapshot_and_dek generate_dek
load_snapshot_and_dek-init_backup_encryption p k nonce_r opts disk tmk dek nonce snap aead loads key
      drawn nb db =
    let (w, wraps, opens) = unwrap_dek-wrap_dek p nonce_r tmk dek nonce aead key drawn nb db in
    (
      record { dek = dek; wrapped_dek = w; enc_meta = new_encryption_meta; tmk = tmk },
      rw (loads, wraps),
      refl,
      rw (loads, unwrapped-full p tmk w dek opens, opens),
    )

-- For an AEAD that opens what it seals, a new tenant key of 32 bytes and a drawn nonce of 12 bytes: a
-- rotation of a snapshot whose key the old tenant key opens to a data key of bytes sends one update, which keeps the
-- encryption settings, and a restore of the snapshot with the updated key, whose options load the
-- new tenant key, opens it to the same data key.
pub load_snapshot_and_dek-rotate_snapshot_tmk :
    (p : Primitives) (k : KeyfileLibrary) (on_update : SnapshotEncryptionUpdate → Outcome Snapshot)
    (id : Bytes) (r : Random) (old_tmk new_tmk dek nonce : Bytes) (snap : Snapshot)
    (opts : EncryptionOptions) (disk : Disk)
    → IsAead p
    → IsKey new_tmk
    → IsNonce r nonce
    → All IsByte nonce
    → All IsByte dek
    → unwrap_dek p old_tmk snap.wrapped_dek ≡ ok dek
    → load_tmk p k opts disk ≡ ok new_tmk
    → (update : SnapshotEncryptionUpdate) × ((rotate_snapshot_tmk p on_update id r old_tmk new_tmk
          (ok snap)).1
        ≡ update ∷ [])
      × (update.encryption ≡ snap.encryption)
      × (load_snapshot_and_dek p k
            (ok (record snap { wrapped_dek = update.wrapped_dek }))
            (some opts)
            disk
          ≡ ok (record snap { wrapped_dek = update.wrapped_dek }, some dek))
unfolding rotate_snapshot_tmk load_snapshot_and_dek
load_snapshot_and_dek-rotate_snapshot_tmk p k on_update id r old_tmk new_tmk dek nonce snap opts
      disk aead key drawn nb db old_opens loads =
    let (w, rewraps, opens) =
      rewrap_dek_idempotent_lem p r old_tmk new_tmk snap.wrapped_dek dek nonce aead key drawn nb db
        old_opens in
    (
      record { wrapped_dek = w; encryption = snap.encryption },
      rw (unwrapped-full p old_tmk snap.wrapped_dek dek old_opens, rewraps),
      refl,
      rw (loads, unwrapped-full p new_tmk w dek opens, opens),
    )
