-- ===== src/Pipeline/Keys.antt =====
-- The data key of a snapshot: `initBackupEncryption` of pipeline/backup.go makes it,
-- pipeline/rotation.go rewraps it, and `loadSnapshotAndDEK` of pipeline/restore.go unwraps it. The
-- answers of the server are arguments.
pub mod Lifecycle
use baas_go_sdk.Base.{Bool, true, false, Option, none, some, List, [], ◌∷◌, if◌then◌else◌}
use baas_go_sdk.Base.Text.{Bytes, codes, str_eq}
use baas_go_sdk.Errors.{Error, text, wrap}
use baas_go_sdk.Errors.Kinds
use baas_go_sdk.Errors.Kinds.{
  load_encryption_key, no_encryption_options, get_snapshot, get_snapshot_id, no_wrapped_dek,
  rewrap_snapshot, update_snapshot,
}
use baas_go_sdk.Errors.Outcome.{Outcome, ok, err, panic, ◌>>=◌, map_err}
use baas_go_sdk.Types.{EncryptionMeta, Snapshot, SnapshotEncryptionUpdate}
use baas_go_sdk.Encrypt.{
  Primitives, Random, generate_dek, wrap_dek, unwrap_dek, rewrap_dek_idempotent,
  new_encryption_meta,
}
use baas_go_sdk.Encrypt.Keyfile.{KeyfileLibrary, EncryptionOptions, Disk, load_tmk}

-- What a backup without encryption has nothing of.
pub record BackupKeys : Type 0 where
  pub dek : Bytes
  pub wrapped_dek : Bytes
  pub enc_meta : EncryptionMeta
  pub tmk : Bytes

module _ (p : Primitives) (k : KeyfileLibrary) where
  abbrev make_keys : Random → Random → EncryptionOptions → Disk → Outcome BackupKeys
  make_keys dek_r nonce_r opts disk = do
    tmk ← map_err (wrap load_encryption_key []) (load_tmk p k opts disk)
    dek ← map_err (wrap Kinds.generate_dek []) (generate_dek dek_r)
    wrapped ← map_err (wrap Kinds.wrap_dek []) (wrap_dek p nonce_r tmk dek)
    ok (record { dek = dek; wrapped_dek = wrapped; enc_meta = new_encryption_meta; tmk = tmk })

  abbrev present : Outcome BackupKeys → Outcome (Option BackupKeys)
  present o = o >>= λ keys. ok (some keys)

  unfoldable pub init_backup_encryption :
      Random → Random → Option EncryptionOptions → Disk → Outcome (Option BackupKeys)
  init_backup_encryption dek_r wrap_r none disk = ok none
  init_backup_encryption dek_r wrap_r (some opts) disk = present (make_keys dek_r wrap_r opts disk)

  abbrev open_dek : Snapshot → Option EncryptionOptions → Disk → Outcome (Snapshot × Option Bytes)
  open_dek snapshot none disk = err (text no_encryption_options [])
  open_dek snapshot (some opts) disk = do
    tmk ← map_err (wrap load_encryption_key []) (load_tmk p k opts disk)
    dek ← map_err (wrap Kinds.unwrap_dek []) (unwrap_dek p tmk snapshot.wrapped_dek)
    ok (snapshot, some dek)

  -- The first argument is what `GetSnapshot` gives.
  unfoldable pub load_snapshot_and_dek :
      Outcome Snapshot → Option EncryptionOptions → Disk → Outcome (Snapshot × Option Bytes)
  load_snapshot_and_dek got opts disk = map_err (wrap get_snapshot []) got >>= λ snapshot.
      if str_eq snapshot.wrapped_dek (codes "")
      then ok (snapshot, none)
      else open_dek snapshot opts disk

-- The result, and the updates that were sent to the server.
abbrev pub Rotation : Type 0
Rotation = Outcome (Snapshot × Bool) × List SnapshotEncryptionUpdate

module _ (p : Primitives) (on_update : SnapshotEncryptionUpdate → Outcome Snapshot) where
  abbrev updated : Bytes → SnapshotEncryptionUpdate → Rotation
  updated id update = (
    map_err (wrap update_snapshot (id ∷ [])) (on_update update) >>= λ snap. ok (snap, true),
    update ∷ [],
  )

  abbrev after_rewrap : Bytes → Snapshot → Outcome (Bytes × Bool) → Rotation
  after_rewrap id snap (ok (w, true)) =
      updated id (record { wrapped_dek = w; encryption = snap.encryption })
  after_rewrap id snap (ok (w, false)) = (ok (snap, false), [])
  after_rewrap id snap (err e) = (err (wrap rewrap_snapshot (id ∷ []) e), [])
  after_rewrap id snap panic = (panic, [])

  abbrev rotate_from : Bytes → Random → Bytes → Bytes → Outcome Snapshot → Rotation
  rotate_from id r old_tmk new_tmk (ok snap) =
      if str_eq snap.wrapped_dek (codes "")
      then (err (text no_wrapped_dek (id ∷ [])), [])
      else after_rewrap id snap (rewrap_dek_idempotent p r old_tmk new_tmk snap.wrapped_dek)
  rotate_from id r old_tmk new_tmk (err e) = (err (wrap get_snapshot_id (id ∷ []) e), [])
  rotate_from id r old_tmk new_tmk panic = (panic, [])

  -- The last argument is what `GetSnapshot` gives.
  unfoldable pub rotate_snapshot_tmk : Bytes → Random → Bytes → Bytes → Outcome Snapshot → Rotation
  rotate_snapshot_tmk id r old_tmk new_tmk got = rotate_from id r old_tmk new_tmk got
