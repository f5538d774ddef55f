-- ===== src/Client/Transfer.antt =====
-- About Restore and RotateTMK of BackupClient in client/client.go, on the pipelines.
use baas_go_sdk.Base.{ℕ, Bool, Option, none, some, []}
use baas_go_sdk.Base.Text.{Bytes, codes}
use baas_go_sdk.Base.Dict.{Dict}
use baas_go_sdk.Json.{Json}
use baas_go_sdk.Errors.{Error}
use baas_go_sdk.Errors.Outcome.{Outcome, ok, err, panic, ◌>>=◌}
use baas_go_sdk.Types.{
  Snapshot, SnapshotEncryptionUpdate, RestoreOptions, TreeBlob, PackDownloadResponse,
}
use baas_go_sdk.Encrypt.{Primitives, Random}
use baas_go_sdk.Encrypt.Keyfile.{Disk, EncryptionOptions, KeyfileLibrary}
use baas_go_sdk.Api.{HttpClient, Net, Decoder, HttpResponse}
use baas_go_sdk.Api.Endpoints
use baas_go_sdk.Api.S3.{s3_get}
use baas_go_sdk.Pipeline.Objects.{Libraries, PackData}
use baas_go_sdk.Pipeline.Keys.{Rotation, rotate_snapshot_tmk}
use baas_go_sdk.Pipeline.Restore.Download.{Server}
use baas_go_sdk.Pipeline.Restore.Write.{Refusals}
use baas_go_sdk.Pipeline.Restore.Run.{Restored, perform_restore}
use baas_go_sdk.Client.{BackupClient, ensure_auth, ensure_workspace, http_for_op}

-- How the responses of a restore are read, and getting an object by its URL, whose slice may have
-- an array of any length behind it.
pub record Readers : Type 0 where
  pub snapshot_d : Decoder Snapshot
  pub urls_d : Decoder PackDownloadResponse
  pub unmarshal_tree : Bytes → Outcome TreeBlob
  pub fetch : Bytes → Outcome HttpResponse
  pub as_slice : Bytes → PackData

-- The calls of a restore, made with a client.
unfoldable pub server_of : Net → Readers → HttpClient → Server
server_of net rs http = record {
  get_snapshot = λ id. (Endpoints.get_snapshot net http id rs.snapshot_d).0;
  request_urls = λ hashes. (Endpoints.request_download_urls net http hashes rs.urls_d).0;
  s3_get = λ url. s3_get rs.fetch url >>= λ bytes. ok (rs.as_slice bytes);
  unmarshal_tree = rs.unmarshal_tree;
}

abbrev pub not_started : Dict Bytes → Error → Restored
not_started disk e = record { files = disk; effects = []; result = err e }

abbrev pub workspace_of : Option (RestoreOptions EncryptionOptions) → Bytes
workspace_of none = codes ""
workspace_of (some options) = options.workspace_id

module _ (net : Net) (rs : Readers) (l : Libraries) (k : KeyfileLibrary) (key_disk : Disk)
    (depth : ℕ) (r : Refusals) (is_time : Bytes → Bool) where
  abbrev pub restore_with :
      Outcome HttpClient
      → BackupClient
      → Bytes
      → Bytes
      → Option (RestoreOptions EncryptionOptions)
      → Dict Bytes
      → Restored
  restore_with (ok http) c snapshot_id target_dir options disk =
      perform_restore l k (server_of net rs http) key_disk depth r is_time target_dir snapshot_id
        options c.concurrency disk
  restore_with (err e) c snapshot_id target_dir options disk = not_started disk e
  restore_with panic c snapshot_id target_dir options disk = record {
    files = disk;
    effects = [];
    result = panic;
  }

  abbrev pub restore_unless :
      Option Error
      → BackupClient
      → Bytes
      → Bytes
      → Option (RestoreOptions EncryptionOptions)
      → Dict Bytes
      → Restored
  restore_unless (some e) c snapshot_id target_dir options disk = not_started disk e
  restore_unless none c snapshot_id target_dir options disk =
      restore_with (http_for_op (workspace_of options) c) c snapshot_id target_dir options disk

  unfoldable pub restore :
      BackupClient
      → Bytes
      → Bytes
      → Option (RestoreOptions EncryptionOptions)
      → Dict Bytes
      → Restored
  restore c = restore_unless (ensure_auth c) c

abbrev rotate_unless : Option Error → Option Error → Rotation → Rotation
rotate_unless (some e) _ next = (err e, [])
rotate_unless none (some e) next = (err e, [])
rotate_unless none none next = next

-- The update is given as the JSON that it marshals to.
module _ (net : Net) (rs : Readers) (p : Primitives)
    (to_json : SnapshotEncryptionUpdate → Json) where
  unfoldable pub rotate_tmk : BackupClient → Bytes → Random → Bytes → Bytes → Rotation
  rotate_tmk c snapshot_id nonce_r old_tmk new_tmk =
      rotate_unless (ensure_auth c) (ensure_workspace c) (
        rotate_snapshot_tmk p
          (λ update.
            (Endpoints.update_snapshot_encryption net c.http snapshot_id (to_json update)
              rs.snapshot_d).0)
          snapshot_id nonce_r old_tmk new_tmk
          (Endpoints.get_snapshot net c.http snapshot_id rs.snapshot_d).0)
