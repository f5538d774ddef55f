-- ===== src/Pipeline/Upload/Files.antt =====
-- About `processFileChunks` of pipeline/backup.go: the loop over the files, and its result.
use mathlib.Core.Path.{subst}
use baas_go_sdk.Base.{
  ◌≡◌, inl, inr, refl, ap, sym, true, false, leb→le, Bool, ◌&&◌, if◌then◌else◌, arith, Option, none,
  some, List, [], ◌∷◌, ◌++◌, Bool-cases,
}
use baas_go_sdk.Base.Text.{Bytes, str_eq, str_eq_iff}
use baas_go_sdk.Base.Int.{ℤ, pos, negsuc, leb_ℤ}
use baas_go_sdk.Base.All.{All, All-mono, All-In, In, In-left, In-right, In-split}
use baas_go_sdk.Base.Dict.{Dict, insert, lookup}
use baas_go_sdk.Errors.{wrap}
use baas_go_sdk.Errors.Kinds.{chunk_path}
use baas_go_sdk.Errors.Outcome.{ok, map_err}
use baas_go_sdk.Chunk.File.{chunk_file}
use baas_go_sdk.Pipeline.Objects.{Libraries}
use baas_go_sdk.Pipeline.Session.{Outside, Session, pure}
use baas_go_sdk.Pipeline.Pack.Flush.{continue-eq-ok}
use baas_go_sdk.Pipeline.Upload.{
  FileEntry, Settings, Totals, PrevFileInfo, unchanged, in_index, remember, process_chunks, counted,
  chunk_entry, skip_or, process_files, process_file_chunks, regular_files,
}
use baas_go_sdk.Pipeline.Upload.Accounts.{reused, Accounted, spared, Reused}
use baas_go_sdk.Pipeline.Upload.Seen.{
  AllAccounted, Kept, Kept-trans, Accounted-remember, hashes, process_chunks_lem,
}

-- Every hash that is listed for a file is known.
abbrev Listed : Session → Dict (List Bytes) → Type 0
Listed s [] = Unit
Listed s ((path, hs) ∷ rest) = All (λ h. In h s.known_hashes) hs × Listed s rest

Listed-mono :
    (o : Outside) (files : List FileEntry) (st : Settings) (s t : Session) (d : Dict (List Bytes))
    → Kept o files st s t
    → Listed s d
    → Listed t d
Listed-mono o files st s t [] kept h = tt
Listed-mono o files st s t ((path, hs) ∷ d) kept (x, h) = (
  All-mono (λ y. In y s.known_hashes) (λ y. In y t.known_hashes) hs kept.grows x,
  Listed-mono o files st s t d kept h,
)

Listed-insert :
    (s : Session) (path : Bytes) (hs : List Bytes) (d : Dict (List Bytes))
    → All (λ h. In h s.known_hashes) hs
    → Listed s d
    → Listed s (insert path hs d)
unfolding insert
Listed-insert s path hs [] x h = (x, tt)
Listed-insert s path hs ((k, ks) ∷ d) x (y, h) = elim (Bool-cases (str_eq k path)) [
  | inl same ↦ rw same (x, h)
  | inr other ↦ rw other (y, Listed-insert s path hs d x h)
]

-- What a stretch of the loop leaves behind.
abbrev Left : Outside → List FileEntry → Settings → Session → Totals → Session → Type 0
Left o files st s totals t = Kept o files st s t × Listed t totals.file_chunk_hashes

ok_inj : {A : Type 0} (a b : A) → ok a ≡ ok b → a ≡ b
ok_inj a b e = cc

-- What holds of the result that an action gives holds of the result that it was said to give.
finish :
    {A : Type 0} (P : A → Session → Type 0) (a b : A) (s t : Session)
    → pure a s ≡ pure b t
    → P a s
    → P b t
finish P a b s t e p =
    subst (λ u. P b u) (ap (λ r. r.1) e) (subst (λ x. P x s) (ok_inj a b (ap (λ r. r.0) e)) p)

-- Equality of the sizes, from the two comparisons.
leb_ℤ-antisym : (x y : ℤ) → leb_ℤ x y ≡ true → leb_ℤ y x ≡ true → x ≡ y
leb_ℤ-antisym (pos m) (pos n) h k = ap pos (omega (arith, leb→le _ _ h, leb→le _ _ k))
leb_ℤ-antisym (pos m) (negsuc n) h k = let never : ⊥ = omega (arith, leb→le _ _ h) in absurd never
leb_ℤ-antisym (negsuc m) (pos n) h k = let never : ⊥ = omega (arith, leb→le _ _ k) in absurd never
leb_ℤ-antisym (negsuc m) (negsuc n) h k = ap negsuc (omega (arith, leb→le _ _ h, leb→le _ _ k))

some_if :
    (b : Bool) (x y : List Bytes) → (if b then some x else none) ≡ some y → (b ≡ true) × (x ≡ y)
some_if true x y h = (refl, cc)
some_if false x y h = cc

and_true : (x y : Bool) → (x && y) ≡ true → (x ≡ true) × (y ≡ true)
and_true true y h = (refl, h)
and_true false y h = cc

-- An entry that the loop skips has not changed since the parent snapshot.
unchanged-Reused :
    (files : List FileEntry) (st : Settings) (e : FileEntry) (index : Dict PrevFileInfo)
    (found : Option PrevFileInfo) (content : List Bytes)
    → In e files
    → e.regular ≡ true
    → st.prev_index ≡ some index
    → lookup e.relative_path index ≡ found
    → unchanged e found ≡ some content
    → (h : Bytes) → In h content
    → Reused files st h
unchanged-Reused files st e index none content i r g l u h x = cc
unchanged-Reused files st e index (some prev) content i r g l u h x =
    let (b, same) = some_if _ prev.content content u in
    let (time, sizes) = and_true _ _ b in
    let (le, ge) = and_true _ _ sizes in
    record {
      entry = e;
      walked = i;
      is_regular = r;
      index = index;
      given = g;
      prev = prev;
      found = l;
      same_time = (str_eq_iff prev.mtime e.modified).0 time;
      same_size = leb_ℤ-antisym prev.size e.file_size le ge;
      within = subst (λ c. In h c) (sym same) x;
    }

in_index-Reused :
    (files : List FileEntry) (st : Settings) (e : FileEntry)
    (prev_index : Option (Dict PrevFileInfo)) (content : List Bytes)
    → In e files
    → e.regular ≡ true
    → st.prev_index ≡ prev_index
    → in_index e prev_index ≡ some content
    → (h : Bytes) → In h content
    → Reused files st h
in_index-Reused files st e none content i r g u h x = cc
in_index-Reused files st e (some index) content i r g u h x =
    unchanged-Reused files st e index (lookup e.relative_path index) content i r g refl u h x

-- The loop goes over regular files of the walk only.
regular_files-In :
    (es : List FileEntry) (e : FileEntry) → In e (regular_files es) → In e es × (e.regular ≡ true)
regular_files-In [] e i = absurd i
regular_files-In (x ∷ es) e i = elim (Bool-cases x.regular) [
  | inl kept ↦
      elim (subst (λ b. In e (if b then x ∷ regular_files es else regular_files es)) kept i) [
        | inl same ↦ (inl same, subst (λ y. y.regular ≡ true) same kept)
        | inr j ↦ let (k, r) = regular_files-In es e j in (inr k, r)
      ]
  | inr left_out ↦
      let (k, r) =
        regular_files-In es e
          (subst (λ b. In e (if b then x ∷ regular_files es else regular_files es)) left_out i) in
      (inr k, r)
]

module _ (o : Outside) (files : List FileEntry) (l : Libraries) (st : Settings) where
  skip_lem :
      (e : FileEntry) (content : List Bytes) (s : Session)
      → In e files
      → e.regular ≡ true
      → in_index e st.prev_index ≡ some content
      → AllAccounted o files st s
      → Kept o files st s (remember content s).1
        × All (λ h. In h (content ++ s.known_hashes)) content
  skip_lem e content s walked regular found all = (
    record {
      all = λ h i. elim (In-split h content s.known_hashes i) [
        | inl x ↦ spared (
            reused (in_index-Reused files st e st.prev_index content walked regular refl found h x))
        | inr x ↦ Accounted-remember o files st content s h (all h x)
      ];
      grows = λ h i. In-right h content s.known_hashes i;
    },
    All-In content (content ++ s.known_hashes) (λ h i. In-left h content s.known_hashes i),
  )

  chunk_entry_lem :
      (e : FileEntry) (s t : Session) (tot tot' : Totals)
      → chunk_entry o l st e tot s ≡ (ok tot', t)
      → AllAccounted o files st s
      → Listed s tot.file_chunk_hashes
      → Left o files st s tot' t
  unfolding chunk_entry
  chunk_entry_lem e s t tot tot' h all listed =
      let (cs, _, h1) =
        continue-eq-ok
          (map_err (wrap chunk_path (e.relative_path ∷ []))
            (chunk_file l.sha256 (o.open_file e.full_path) st.chunk_opts))
          _ s tot' t h in
      let s1 = (process_chunks o l st cs s).1 in
      let (_, done, h2) = continue-eq-ok (process_chunks o l st cs s).0 _ s1 tot' t h1 in
      let (kept, have) = process_chunks_lem o files l st cs s s1 (ap (λ a. (a, s1)) done) all in
      finish (Left o files st s) (counted e.relative_path cs tot) tot' s1 t h2 (
        kept,
        Listed-insert s1 e.relative_path (hashes cs) tot.file_chunk_hashes have
            (Listed-mono o files st s s1 tot.file_chunk_hashes kept listed),
      )

  skip_or_lem :
      (e : FileEntry) (found : Option (List Bytes)) (s t : Session) (tot tot' : Totals)
      → In e files
      → e.regular ≡ true
      → in_index e st.prev_index ≡ found
      → skip_or o l st e tot found s ≡ (ok tot', t)
      → AllAccounted o files st s
      → Listed s tot.file_chunk_hashes
      → Left o files st s tot' t
  skip_or_lem e none s t tot tot' walked regular is h all listed =
      chunk_entry_lem e s t tot tot' h all listed
  skip_or_lem e (some content) s t tot tot' walked regular is h all listed =
      let s1 = (remember content s).1 in
      let (kept, have) = skip_lem e content s walked regular is all in
      finish (Left o files st s)
        (record tot { file_chunk_hashes = insert e.relative_path content tot.file_chunk_hashes })
        tot' s1 t h
        (
          kept,
          Listed-insert s1 e.relative_path content tot.file_chunk_hashes have
              (Listed-mono o files st s s1 tot.file_chunk_hashes kept listed),
        )

  process_files_lem :
      (es : List FileEntry) (s t : Session) (tot tot' : Totals)
      → ((e : FileEntry) → In e es → In e files × (e.regular ≡ true))
      → process_files o l st es tot s ≡ (ok tot', t)
      → AllAccounted o files st s
      → Listed s tot.file_chunk_hashes
      → Left o files st s tot' t
  unfolding process_files
  process_files_lem [] s t tot tot' walked h all listed =
      finish (Left o files st s) tot tot' s t h (record { all = all; grows = λ x i. i }, listed)
  process_files_lem (e ∷ es) s t tot tot' walked h all listed =
      let (mine, regular) = walked e (inl refl) in
      let found = in_index e st.prev_index in
      let s1 = (skip_or o l st e tot found s).1 in
      let (mid, done, h1) = continue-eq-ok (skip_or o l st e tot found s).0 _ s1 tot' t h in
      let (kept, listed') =
        skip_or_lem e found s s1 tot mid mine regular refl (ap (λ a. (a, s1)) done) all listed in
      let (kept', res) =
        process_files_lem es s1 t mid tot' (λ x i. walked x (inr i)) h1 kept.all listed' in
      (Kept-trans o files st s s1 t kept kept', res)

-- Every hash that is listed for a file is accounted for.
abbrev pub AllListed : Outside → List FileEntry → Settings → Session → Dict (List Bytes) → Type 0
AllListed o files st s [] = Unit
AllListed o files st s ((path, hs) ∷ rest) =
    All (Accounted o files st s) hs × AllListed o files st s rest

Listed-AllListed :
    (o : Outside) (files : List FileEntry) (st : Settings) (s : Session) (d : Dict (List Bytes))
    → AllAccounted o files st s
    → Listed s d
    → AllListed o files st s d
Listed-AllListed o files st s [] all h = tt
Listed-AllListed o files st s ((path, hs) ∷ d) all (x, h) = (
  All-mono (λ y. In y s.known_hashes) (Accounted o files st s) hs all x,
  Listed-AllListed o files st s d all h,
)

-- When `processFileChunks` succeeds, every chunk hash that it lists for a file is accounted for: the
-- chunk is still in the buffer; or it was in a pack whose bytes the store took and whose places the
-- server then accepted; or the filter says that the server has it; or the parent snapshot lists it
-- for a file at the path of a regular file of the walk, with the same time and the same size.
pub process_file_chunks_lem :
    (o : Outside) (l : Libraries) (st : Settings) (entries : List FileEntry) (s t : Session)
    (totals : Totals)
    → process_file_chunks o l st entries s ≡ (ok totals, t)
    → AllListed o entries st t totals.file_chunk_hashes
unfolding process_file_chunks
process_file_chunks_lem o l st entries s t totals h =
    let (kept, listed) =
      process_files_lem o entries l st (regular_files entries) (record s { known_hashes = [] }) t
        (record { file_chunk_hashes = []; total_size = 0; total_chunks = 0 }) totals
        (regular_files-In entries) h (λ x i. absurd i) tt in
    Listed-AllListed o entries st t totals.file_chunk_hashes kept.all listed
