-- ===== src/Pipeline/Restore/Run.antt =====
-- About PerformRestore of pipeline/restore.go.
use mathlib.Core.Path.{subst}
use baas_go_sdk.Base.{ℕ, ◌≡◌, refl, sym, ap, ◌∙◌, Bool, true, false, not, Option, some, List, []}
use baas_go_sdk.Base.Text.{Bytes, codes}
use baas_go_sdk.Base.Int.{ℤ}
use baas_go_sdk.Base.All.{All}
use baas_go_sdk.Base.Dict.{Dict}
use baas_go_sdk.Errors.Outcome.{Outcome, ok, err, panic, ◌>>=◌, >>=-eq-ok, ok-injective}
use baas_go_sdk.Types.{RestoreOptions}
use baas_go_sdk.Encrypt.Keyfile.{Disk, EncryptionOptions, KeyfileLibrary}
use baas_go_sdk.Pipeline.Objects.{Libraries}
use baas_go_sdk.Pipeline.Keys.{load_snapshot_and_dek}
use baas_go_sdk.Pipeline.Restore.{
  normalize_restore_inputs, collect_data_hashes, ensure_all_chunks_present,
}
use baas_go_sdk.Pipeline.Restore.Complete.{AllPresent, ensure_all_chunks_present_lem}
use baas_go_sdk.Pipeline.Restore.Download.{
  Server, Collections, download_tree_collections, download_chunk_data,
}
use baas_go_sdk.Pipeline.Restore.Write.{
  Refusals, Written, Effect, Effects, write_restored_files, restore_meta,
}
use baas_go_sdk.Pipeline.Restore.Contents.{Apart, Holds, write_restored_files_lem}
use baas_go_sdk.Pipeline.Restore.Verified.{IsVerified, download_chunk_data-IsVerified}

-- What was downloaded: the hash of the root, the trees with the files, and the chunks.
pub record Gathered : Type 0 where
  pub root : Bytes
  pub collections : Collections
  pub chunks : Dict Bytes

-- The files on the disk, what else was done to it, and how the restore ended.
pub record Restored : Type 0 where
  pub files : Dict Bytes
  pub effects : List Effect
  pub result : Outcome (Unit {0})

module _ (l : Libraries) (k : KeyfileLibrary) (s : Server) (key_disk : Disk) (depth : ℕ) where
  abbrev download_chunks : Bytes → Option Bytes → Bool → Collections → Outcome Gathered
  download_chunks root dek verify_checksums col =
      let hashes = collect_data_hashes col.file_map in
      download_chunk_data l s dek verify_checksums hashes >>= λ cache.
      ensure_all_chunks_present hashes cache >>= λ _.
      ok (record { root = root; collections = col; chunks = cache })

  -- The part of a restore before the first file is written.
  unfoldable pub gather : Bytes → RestoreOptions EncryptionOptions → Bool → Outcome Gathered
  gather snapshot_id options verify_checksums =
      load_snapshot_and_dek l.primitives k (s.get_snapshot snapshot_id) options.enc_options key_disk
      >>= λ loaded.
          download_tree_collections l s loaded.1 depth loaded.0.root_tree_hash
          >>= download_chunks loaded.0.root_tree_hash loaded.1 verify_checksums

  module _ (r : Refusals) (is_time : Bytes → Bool) (target_dir : Bytes) where
    abbrev with_effects : Dict Bytes → Effects → Restored
    with_effects files done = record { files = files; effects = done.0; result = done.1 }

    abbrev finish : Gathered → Written → Restored
    finish g (files, ok _) =
        with_effects files
          (restore_meta is_time target_dir depth g.collections.trees g.root (codes ""))
    finish g (files, err e) = record { files = files; effects = []; result = err e }
    finish g (files, panic) = record { files = files; effects = []; result = panic }

    abbrev write_gathered : Dict Bytes → Outcome Gathered → Restored
    write_gathered disk (ok g) =
        finish g (write_restored_files r g.chunks target_dir g.collections.file_map disk)
    write_gathered disk (err e) = record { files = disk; effects = []; result = err e }
    write_gathered disk panic = record { files = disk; effects = []; result = panic }

    unfoldable pub perform_restore :
        Bytes → Option (RestoreOptions EncryptionOptions) → ℤ → Dict Bytes → Restored
    perform_restore snapshot_id options concurrency disk =
        let given = normalize_restore_inputs options concurrency in
        write_gathered disk (gather snapshot_id given.0 given.1)

    finish-ok :
        (g : Gathered) (w : Written) → (finish g w).result ≡ ok tt → w ≡ ((finish g w).files, ok tt)
    finish-ok g (files, ok tt) h = refl
    finish-ok g (files, err e) h = cc
    finish-ok g (files, panic) h = cc

  gather_sound :
      (snapshot_id : Bytes) (options : RestoreOptions EncryptionOptions) (g : Gathered)
      → gather snapshot_id options true ≡ ok g
      → IsVerified l g.chunks × AllPresent g.chunks g.collections.file_map
  unfolding gather
  gather_sound snapshot_id options g h =
      let (loaded, next, _) =
        >>=-eq-ok
          (load_snapshot_and_dek l.primitives k (s.get_snapshot snapshot_id) options.enc_options
            key_disk)
          _ h in
      let (col, chunks, _) =
        >>=-eq-ok (download_tree_collections l s loaded.1 depth loaded.0.root_tree_hash)
          (download_chunks loaded.0.root_tree_hash loaded.1 true) next in
      let hashes = collect_data_hashes col.file_map in
      let (cache, checked, downloaded) =
        >>=-eq-ok (download_chunk_data l s loaded.1 true hashes) _ chunks in
      let (_, made, present) = >>=-eq-ok (ensure_all_chunks_present hashes cache) _ checked in
      subst (λ w. IsVerified l w.chunks × AllPresent w.chunks w.collections.file_map)
        (ok-injective made)
        (
          download_chunk_data-IsVerified l s loaded.1 hashes cache downloaded,
          ensure_all_chunks_present_lem col.file_map cache present,
        )

  module _ (r : Refusals) (is_time : Bytes → Bool) (target_dir : Bytes) where
    -- Where a restore that verifies checksums has downloaded its trees and chunks and ends without
    -- an error, and no two of its files are written to the same path, every chunk that was
    -- downloaded has the SHA-256 that it stands under, every chunk of every file was downloaded,
    -- and each file on the disk holds its chunks, one after another, and nothing else.
    pub perform_restore_lem :
        (snapshot_id : Bytes) (options : RestoreOptions EncryptionOptions) (concurrency : ℤ)
        (disk : Dict Bytes) (g : Gathered)
        → options.skip_checksum_verification ≡ false
        → gather snapshot_id options true ≡ ok g
        → Apart r g.chunks target_dir g.collections.file_map
        → (perform_restore r is_time target_dir snapshot_id (some options) concurrency disk).result
          ≡ ok tt
        → IsVerified l g.chunks
          × AllPresent g.chunks g.collections.file_map
          × All
              (Holds r g.chunks target_dir
                (perform_restore r is_time target_dir snapshot_id
                  (some options)
                  concurrency
                  disk).files)
              g.collections.file_map
    unfolding perform_restore normalize_restore_inputs
    perform_restore_lem snapshot_id options concurrency disk g checks gathered apart h =
        let (verified, present) = gather_sound snapshot_id options g gathered in
        let written = write_restored_files r g.chunks target_dir g.collections.file_map disk in
        let same =
          ap (λ b. write_gathered r is_time target_dir disk (gather snapshot_id options (not b)))
            checks
          ∙ ap (write_gathered r is_time target_dir disk) gathered in
        let out = finish r is_time target_dir g written in
        let done = finish-ok r is_time target_dir g written (sym (ap (λ w. w.result) same) ∙ h) in
        let holds =
          write_restored_files_lem r g.chunks target_dir g.collections.file_map disk out.files apart
            done in
        (
          verified,
          present,
          subst (λ w. All (Holds r g.chunks target_dir w.files) g.collections.file_map) (sym same)
              holds,
        )
