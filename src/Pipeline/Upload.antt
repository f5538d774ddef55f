-- ===== src/Pipeline/Upload.antt =====
-- `processFileChunks` of pipeline/backup.go: the files are chunked, and the chunks that are not
-- known are stored in packs.
pub mod Accounts
pub mod Seen
pub mod Files
use baas_go_sdk.Base.{
  ℕ, ◌+◌, ◌*◌, Bool, true, false, ◌&&◌, Option, none, some, List, [], ◌∷◌, ◌++◌, map, leb, length,
  if◌then◌else◌,
}
use baas_go_sdk.Base.Text.{Bytes, str_eq}
use baas_go_sdk.Base.Int.{ℤ, leb_ℤ}
use baas_go_sdk.Base.Dict.{Dict, lookup, insert}
use baas_go_sdk.Errors.{Error, wrap}
use baas_go_sdk.Errors.Kinds.{chunk_path}
use baas_go_sdk.Errors.Outcome.{Outcome, ok, err, panic, map_err}
use baas_go_sdk.Types.{BloomResponse, ChunkOptions, ChunkData}
use baas_go_sdk.Chunk.File.{chunk_file}
use baas_go_sdk.Dedup.{BloomFilter, BloomTester, bloom, empty_bloom, new_bloom_filter, tester_test}
use baas_go_sdk.Encrypt.{Random}
use baas_go_sdk.Pipeline.Objects.{Libraries, PackChunk, store_chunk}
use baas_go_sdk.Pipeline.Session.{
  Outside, PackBuffer, Session, Action, pure, continue, ◌>>=◌, ◌>>◌, lift,
}
use baas_go_sdk.Pipeline.Pack.{flush_pack}

abbrev pub pack_target_size : ℕ
pack_target_size = 256 * 1024 * 1024

-- `fileEntry`, with what `info` tells of it: is it a regular file, its time as it is formatted, and
-- its size.
pub record FileEntry : Type 0 where
  pub full_path : Bytes
  pub relative_path : Bytes
  pub regular : Bool
  pub modified : Bytes
  pub file_size : ℤ

-- `prevFileInfo`
pub record PrevFileInfo : Type 0 where
  pub mtime : Bytes
  pub size : ℤ
  pub content : List Bytes

-- The parameters of the call; a nil index is `none`.
pub record Settings : Type 0 where
  pub prev_index : Option (Dict PrevFileInfo)
  pub bloom : BloomTester
  pub chunk_opts : ChunkOptions
  pub disable_compression : Bool
  pub dek : Option Bytes

-- What the function returns.
pub record Totals : Type 0 where
  pub file_chunk_hashes : Dict (List Bytes)
  pub total_size : ℕ
  pub total_chunks : ℕ

abbrev filter_or_empty : Outcome BloomFilter → BloomTester
filter_or_empty (ok bf) = bloom bf
filter_or_empty _ = empty_bloom

abbrev then_filter : Outcome BloomResponse → Outcome BloomFilter
then_filter (ok resp) = new_bloom_filter resp
then_filter (err e) = err e
then_filter panic = panic

-- The argument is what `GetBloomFilter` gives; without a filter nothing is skipped.
unfoldable pub build_bloom_tester : Outcome BloomResponse → BloomTester
build_bloom_tester got = filter_or_empty (then_filter got)

-- `knownHashes[h]`
unfoldable pub knows : Bytes → List Bytes → Bool
knows h [] = false
knows h (k ∷ ks) = if str_eq k h then true else knows h ks

abbrev pub unchanged : FileEntry → Option PrevFileInfo → Option (List Bytes)
unchanged entry none = none
unchanged entry (some prev) =
    if str_eq prev.mtime entry.modified
      && (leb_ℤ prev.size entry.file_size && leb_ℤ entry.file_size prev.size)
    then some prev.content
    else none

abbrev pub in_index : FileEntry → Option (Dict PrevFileInfo) → Option (List Bytes)
in_index entry none = none
in_index entry (some index) = unchanged entry (lookup entry.relative_path index)

-- `fileEntries`
abbrev pub regular_files : List FileEntry → List FileEntry
regular_files [] = []
regular_files (e ∷ es) = if e.regular then e ∷ regular_files es else regular_files es

-- `pack.chunks = append(…); pack.totalSize += …`
abbrev pub append_chunk : PackChunk → Action (Unit {0})
append_chunk pc s = (
  ok tt,
  record s {
    pack = record {
      chunks = s.pack.chunks ++ pc ∷ [];
      total_size = s.pack.total_size + length pc.bytes;
    };
  },
)

-- `knownHashes[h] = true`, for one hash and for several.
abbrev pub remember : List Bytes → Action (Unit {0})
remember hs s = (ok tt, record s { known_hashes = hs ++ s.known_hashes })

abbrev pub known_then : Bytes → Action (Unit {0}) → Action (Unit {0})
known_then h other s = if knows h s.known_hashes then (ok tt, s) else other s

abbrev pub chunk_sizes : List ChunkData → ℕ
chunk_sizes [] = 0
chunk_sizes (c ∷ cs) = c.size + chunk_sizes cs

module _ (o : Outside) where
  -- A nonce is drawn only for encryption.
  abbrev pub draw : Option Bytes → Action Random
  draw none s = (ok none, s)
  draw (some dek) s = (ok (o.random s.draws), record s { draws = s.draws + 1 })

  unfoldable pub flush_if_full : Action (Unit {0})
  flush_if_full s = if leb pack_target_size s.pack.total_size then flush_pack o s else (ok tt, s)

-- `totalSize` and `totalChunks` of the chunks of one file.
abbrev pub counted : Bytes → List ChunkData → Totals → Totals
counted path chunks t = record {
  file_chunk_hashes = insert path (map (λ c. c.hash) chunks) t.file_chunk_hashes;
  total_size = t.total_size + chunk_sizes chunks;
  total_chunks = t.total_chunks + length chunks;
}

module _ (o : Outside) (l : Libraries) (st : Settings) where
  -- The body of the loop behind the test of the filter.
  unfoldable pub add_chunk : ChunkData → Action (Unit {0})
  add_chunk c = do
    r ← draw o st.dek
    pc ← lift (store_chunk l st.disable_compression st.dek r c)
    append_chunk pc
    flush_if_full o

  abbrev pub unless_seen : ChunkData → Bool → Action (Unit {0})
  unless_seen c true = pure tt
  unless_seen c false = add_chunk c

  abbrev pub new_chunk : ChunkData → Action (Unit {0})
  new_chunk c = do
    remember (c.hash ∷ [])
    seen ← lift (tester_test st.bloom c.hash)
    unless_seen c seen

  unfoldable pub process_chunk : ChunkData → Action (Unit {0})
  process_chunk c = known_then c.hash (new_chunk c)

  unfoldable pub process_chunks : List ChunkData → Action (Unit {0})
  process_chunks [] = pure tt
  process_chunks (c ∷ cs) = do process_chunk c; process_chunks cs

  unfoldable pub chunk_entry : FileEntry → Totals → Action Totals
  chunk_entry entry t = do
    chunks ← lift (
        map_err (wrap chunk_path (entry.relative_path ∷ []))
          (chunk_file l.sha256 (o.open_file entry.full_path) st.chunk_opts))
    process_chunks chunks
    pure (counted entry.relative_path chunks t)

  abbrev pub skip_or : FileEntry → Totals → Option (List Bytes) → Action Totals
  skip_or entry t none = chunk_entry entry t
  skip_or entry t (some content) = do
    remember content
    pure (record t { file_chunk_hashes = insert entry.relative_path content t.file_chunk_hashes })

  unfoldable pub process_files : List FileEntry → Totals → Action Totals
  process_files [] t = pure t
  process_files (e ∷ es) t = skip_or e t (in_index e st.prev_index) >>= λ t'. process_files es t'

  -- `knownHashes` starts empty.
  unfoldable pub process_file_chunks : List FileEntry → Action Totals
  process_file_chunks entries s =
      process_files (regular_files entries)
        (record { file_chunk_hashes = []; total_size = 0; total_chunks = 0 })
        (record s { known_hashes = [] })
