-- ===== src/Pipeline/Restore/Contents.antt =====
-- About writeRestoredFiles of pipeline/restore.go: what the files hold.
use baas_go_sdk.Base.{
  ◌≡◌, ◌≢◌, refl, sym, ap, ◌∙◌, false, Option, none, some, List, [], ◌∷◌, ◌++◌, append_assoc,
  append-nil, if◌then◌else◌, inl, inr, Bool-cases,
}
use baas_go_sdk.Base.Text.{Bytes, str_eq, str_eq_iff, str_eq_refl}
use baas_go_sdk.Base.All.{All}
use baas_go_sdk.Base.Dict.{Dict, lookup, insert, lookup-insert}
use baas_go_sdk.Errors.{Error, wrap}
use baas_go_sdk.Errors.Kinds.{mkdir_for, create_file, write_file}
use baas_go_sdk.Errors.Outcome.{Outcome, ok, err, panic}
use baas_go_sdk.Pipeline.Restore.Target.{safe_join_target}
use baas_go_sdk.Pipeline.Restore.Write.{
  Refusals, Written, append_bytes, unless_refused, write_chunk, write_chunks, write_file_at,
  then_written, with_path, write_restored_files, bytes_of, dir_of,
}

-- The bytes of the chunks, one after another; a chunk that is not in the cache has none.
unfoldable pub file_bytes : Dict Bytes → List Bytes → Bytes
file_bytes cache [] = []
file_bytes cache (h ∷ hashes) = bytes_of (lookup h cache) ++ file_bytes cache hashes

lookup-insert_same :
    {V : Type 0} (k : Bytes) (v : V) (m : Dict V) → lookup k (insert k v m) ≡ some v
lookup-insert_same k v m =
    lookup-insert k k v m ∙ ap (λ b. if b then some v else lookup k m) (str_eq_refl k)

str_eq_other : (k j : Bytes) → k ≢ j → str_eq k j ≡ false
str_eq_other k j ne = elim (Bool-cases (str_eq k j)) [
  | inl e ↦ absurd (ne ((str_eq_iff k j).0 e))
  | inr e ↦ e
]

lookup-insert_other :
    {V : Type 0} (k j : Bytes) (v : V) (m : Dict V) → k ≢ j → lookup j (insert k v m) ≡ lookup j m
lookup-insert_other k j v m ne =
    lookup-insert k j v m ∙ ap (λ b. if b then some v else lookup j m) (str_eq_other k j ne)

abbrev Done : Written → Dict Bytes → Type 0
Done w disk = w ≡ (disk, ok tt)

unless_refused-Done :
    (o : Option Error) (f : Error → Error) (disk out : Dict Bytes) (next : Written)
    → Done (unless_refused o f disk next) out
    → Done next out
unless_refused-Done none f disk out next h = h
unless_refused-Done (some e) f disk out next h = let failed = ap (λ w. w.1) h in cc

module _ (r : Refusals) (cache : Dict Bytes) where
  write_chunk-Done :
      (path rel_path x : Bytes) (disk out : Dict Bytes) (next : Dict Bytes → Written)
      (o : Option Bytes)
      → Done (write_chunk r cache path rel_path x disk next o) out
      → (bytes : Bytes) × (o ≡ some bytes) × Done (next (append_bytes path bytes disk)) out
  write_chunk-Done path rel_path x disk out next none h = let failed = ap (λ w. w.1) h in cc
  write_chunk-Done path rel_path x disk out next (some bytes) h = (
    bytes,
    refl,
    unless_refused-Done (r.write path bytes) (wrap write_file (rel_path ∷ [])) disk out
        (next (append_bytes path bytes disk)) h,
  )

  write_chunks-Done :
      (path rel_path : Bytes) (hashes : List Bytes) (old : Bytes) (disk out : Dict Bytes)
      → lookup path disk ≡ some old
      → Done (write_chunks r cache path rel_path hashes disk) out
      → (lookup path out ≡ some (old ++ file_bytes cache hashes))
        × ((other : Bytes) → path ≢ other → lookup other out ≡ lookup other disk)
  unfolding write_chunks file_bytes append_bytes
  write_chunks-Done path rel_path [] old disk out held h =
      let same = ap (λ w. w.0) h in
      (
        ap (lookup path) (sym same) ∙ held ∙ ap some (sym (append-nil old)),
        λ other ne. ap (lookup other) (sym same),
      )
  write_chunks-Done path rel_path (x ∷ hashes) old disk out held h =
      let (bytes, cached, next) =
        write_chunk-Done path rel_path x disk out (write_chunks r cache path rel_path hashes)
          (lookup x cache) h in
      let now =
        lookup-insert_same path (bytes_of (lookup path disk) ++ bytes) disk
        ∙ ap (λ o. some (bytes_of o ++ bytes)) held in
      let (here, elsewhere) =
        write_chunks-Done path rel_path hashes (old ++ bytes) (append_bytes path bytes disk) out now
          next in
      (
        here
            ∙ ap some (
                append_assoc old bytes (file_bytes cache hashes)
                ∙ ap (λ o. old ++ (bytes_of o ++ file_bytes cache hashes)) (sym cached)),
        λ other ne.
            elsewhere other ne
            ∙ lookup-insert_other path other (bytes_of (lookup path disk) ++ bytes) disk ne,
      )

  write_file_at-Done :
      (path rel_path : Bytes) (hashes : List Bytes) (disk out : Dict Bytes)
      → Done (write_file_at r cache path rel_path hashes disk) out
      → (lookup path out ≡ some (file_bytes cache hashes))
        × ((other : Bytes) → path ≢ other → lookup other out ≡ lookup other disk)
  write_file_at-Done path rel_path hashes disk out h =
      let written = write_chunks r cache path rel_path hashes (insert path [] disk) in
      let create_it =
        unless_refused (r.create path) (wrap create_file (rel_path ∷ [])) disk written in
      let made =
        unless_refused-Done (r.make_dirs (dir_of path)) (wrap mkdir_for (rel_path ∷ [])) disk out
          create_it h in
      let created =
        unless_refused-Done (r.create path) (wrap create_file (rel_path ∷ [])) disk out written
          made in
      let (here, elsewhere) =
        write_chunks-Done path rel_path hashes [] (insert path [] disk) out
          (lookup-insert_same path [] disk) created in
      (here, λ other ne. elsewhere other ne ∙ lookup-insert_other path other [] disk ne)

  with_path-Done :
      (o : Outcome Bytes) (disk out : Dict Bytes) (next : Bytes → Written)
      → Done (with_path r cache o disk next) out
      → (path : Bytes) × (o ≡ ok path) × Done (next path) out
  with_path-Done (ok path) disk out next h = (path, refl, h)
  with_path-Done (err e) disk out next h = let failed = ap (λ w. w.1) h in cc
  with_path-Done panic disk out next h = let failed = ap (λ w. w.1) h in cc

  then_written-Done :
      (w : Written) (out : Dict Bytes) (next : Dict Bytes → Written)
      → Done (then_written r cache w next) out
      → (disk : Dict Bytes) × Done w disk × Done (next disk) out
  then_written-Done (disk, ok _) out next h = (disk, refl, h)
  then_written-Done (disk, err e) out next h = let failed = ap (λ w. w.1) h in cc
  then_written-Done (disk, panic) out next h = let failed = ap (λ w. w.1) h in cc

  module _ (target_dir : Bytes) where
    -- One file and then the others.
    write_restored_files-step :
        (rel_path : Bytes) (hashes : List Bytes) (files : Dict (List Bytes)) (disk out : Dict Bytes)
        → Done (write_restored_files r cache target_dir ((rel_path, hashes) ∷ files) disk) out
        → (path : Bytes) × (between : Dict Bytes) × (safe_join_target target_dir rel_path ≡ ok path)
          × Done (write_file_at r cache path rel_path hashes disk) between
          × Done (write_restored_files r cache target_dir files between) out
    unfolding write_restored_files
    write_restored_files-step rel_path hashes files disk out h =
        let rest = write_restored_files r cache target_dir files in
        let (path, joined, next) =
          with_path-Done (safe_join_target target_dir rel_path) disk out
            (λ path. then_written r cache (write_file_at r cache path rel_path hashes disk) rest)
            h in
        let (between, first, others) =
          then_written-Done (write_file_at r cache path rel_path hashes disk) out rest next in
        (path, between, joined, first, others)

    -- A path that no file is written to.
    abbrev Spared : Bytes → Dict (List Bytes) → Type 0
    Spared path files = All (λ file. safe_join_target target_dir file.0 ≢ ok path) files

    write_restored_files-spares :
        (files : Dict (List Bytes)) (path : Bytes) (disk out : Dict Bytes)
        → Spared path files
        → Done (write_restored_files r cache target_dir files disk) out
        → lookup path out ≡ lookup path disk
    unfolding write_restored_files
    write_restored_files-spares [] path disk out hs h = ap (λ w. lookup path w.0) (sym h)
    write_restored_files-spares ((rel_path, hashes) ∷ files) path disk out (ne, hs) h =
        let (full, between, joined, first, others) =
          write_restored_files-step rel_path hashes files disk out h in
        let (_, elsewhere) = write_file_at-Done full rel_path hashes disk between first in
        write_restored_files-spares files path between out hs others
        ∙ elsewhere path (λ e. ne (joined ∙ ap ok e))

    -- No two files are written to the same path.
    abbrev pub Apart : Dict (List Bytes) → Type 0
    Apart [] = Unit
    Apart ((rel_path, hashes) ∷ files) =
        ((path : Bytes) → safe_join_target target_dir rel_path ≡ ok path → Spared path files)
        × Apart files

    -- Where the files of a restore are written to, and what they hold then.
    abbrev pub Holds : Dict Bytes → Bytes × List Bytes → Type 0
    Holds out file =
        (path : Bytes) × (safe_join_target target_dir file.0 ≡ ok path)
        × (lookup path out ≡ some (file_bytes cache file.1))

    -- Where `writeRestoredFiles` succeeds on files that are written to different paths, each path
    -- holds the chunks of its file, one after another, and nothing else.
    pub write_restored_files_lem :
        (files : Dict (List Bytes)) (disk out : Dict Bytes)
        → Apart files
        → write_restored_files r cache target_dir files disk ≡ (out, ok tt)
        → All (Holds out) files
    write_restored_files_lem [] disk out ap_ h = tt
    write_restored_files_lem ((rel_path, hashes) ∷ files) disk out (spared, rest) h =
        let (path, between, joined, first, others) =
          write_restored_files-step rel_path hashes files disk out h in
        let (here, _) = write_file_at-Done path rel_path hashes disk between first in
        (
          (
            path,
            joined,
            write_restored_files-spares files path between out (spared path joined) others ∙ here,
          ),
          write_restored_files_lem files between out rest others,
        )
