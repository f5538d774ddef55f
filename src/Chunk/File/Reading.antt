-- ===== src/Chunk/File/Reading.antt =====
-- About `ChunkFile` of chunk/chunker.go: the chunks and the reads of a file's content.
use mathlib.Core.List.{map-append}
use baas_go_sdk.Base.{
  ◌≡◌, refl, sym, ap, ◌∙◌, ◌++◌, List, [], ◌∷◌, map, Option, none, some, arith, append_assoc,
  append-nil, length, concat, if◌then◌else◌, ◌==◌, Option-cases, inl, inr,
}
use baas_go_sdk.Base.Text.{Bytes}
use baas_go_sdk.Base.All.{All, All-append}
use baas_go_sdk.Errors.Outcome.{ok}
use baas_go_sdk.Types.{ChunkOptions, ChunkData}
use baas_go_sdk.Chunk.{Chunker, make_chunker, new_chunker, push, flush}
use baas_go_sdk.Chunk.Refine.{IsScanned, push-scan}
use baas_go_sdk.Chunk.Spec.{scan}
use baas_go_sdk.Chunk.Stream.{push-IsScanned, concat-push, push-append, flush_lem}
use baas_go_sdk.Chunk.File.{
  Reads, more, eof, failed, content, sha256_hex, chunk_data, last_chunk, feed, read_loop,
  chunk_file,
}

-- No read reports an error.
abbrev pub Succeeds : Reads → Type 0
Succeeds (more bytes rest) = Succeeds rest
Succeeds (eof bytes) = Unit
Succeeds (failed bytes e) = ⊥

push-nil : (c : Chunker) → IsScanned c → push c [] ≡ (c, [])
push-nil c scanned = rw (push-scan c [] scanned) (unfold scan in cc (append-nil c.buf, scanned))

module _ (sha256 : Bytes → Bytes) where
  feed-push :
      (c : Chunker) (bytes : Bytes)
      → IsScanned c
      → feed sha256 c bytes ≡ ((push c bytes).0, map (chunk_data sha256) (push c bytes).1)
  unfolding feed
  feed-push c [] scanned = rw (push-nil c scanned)
  feed-push c (b ∷ bytes) scanned = ground arith

  -- All chunks of a text that is read from the state `c`, the last one included.
  abbrev all_chunks : Chunker → Bytes → List ChunkData
  all_chunks c text =
      map (chunk_data sha256) (push c text).1 ++ last_chunk sha256 (flush (push c text).0).1

  read_loop_lem :
      (reads : Reads) (c : Chunker) (chunks : List ChunkData)
      → IsScanned c
      → Succeeds reads
      → read_loop sha256 reads c chunks ≡ ok (chunks ++ all_chunks c (content reads))
  unfolding read_loop
  read_loop_lem (more bytes rest) c chunks scanned good =
      let next = (push c bytes).0 in
      rw
        (
          feed-push c bytes scanned,
          read_loop_lem rest next (chunks ++ map (chunk_data sha256) (push c bytes).1)
              (push-IsScanned c bytes scanned) good,
          push-append c bytes (content rest) scanned,
        )
        (simp (map-append, append_assoc))
  read_loop_lem (eof bytes) c chunks scanned good =
      rw (feed-push c bytes scanned) (simp append_assoc)
  read_loop_lem (failed bytes e) c chunks scanned good = absurd good

-- A chunk carries the hash and the length of its bytes.
abbrev pub IsChunkData : (Bytes → Bytes) → ChunkData → Type 0
IsChunkData sha256 c = (c.hash ≡ sha256_hex sha256 c.bytes) × (c.size ≡ length c.bytes)

abbrev pub bytes_of : List ChunkData → Bytes
bytes_of [] = []
bytes_of (c ∷ cs) = c.bytes ++ bytes_of cs

module _ (sha256 : Bytes → Bytes) where
  bytes_of-map :
      (xs : List Bytes) (rest : List ChunkData)
      → bytes_of (map (chunk_data sha256) xs ++ rest) ≡ concat xs ++ bytes_of rest
  unfolding chunk_data
  bytes_of-map [] rest = refl
  bytes_of-map (x ∷ xs) rest = rw (bytes_of-map xs rest, append_assoc x (concat xs) (bytes_of rest))

  last_of :
      (buf : Bytes)
      → bytes_of (last_chunk sha256 (if length buf == 0 then none else some buf)) ≡ buf
  unfolding chunk_data
  last_of [] = refl
  last_of (b ∷ buf) = ground (arith, append-nil buf)

  last_chunk_bytes : (c : Chunker) → bytes_of (last_chunk sha256 (flush c).1) ≡ c.buf
  last_chunk_bytes c = rw (flush_lem c).0 (last_of c.buf)

  map-IsChunkData : (xs : List Bytes) → All (IsChunkData sha256) (map (chunk_data sha256) xs)
  unfolding chunk_data
  map-IsChunkData [] = tt
  map-IsChunkData (x ∷ xs) = ((refl, refl), map-IsChunkData xs)

  last_chunk-IsChunkData : (o : Option Bytes) → All (IsChunkData sha256) (last_chunk sha256 o)
  unfolding chunk_data
  last_chunk-IsChunkData none = tt
  last_chunk-IsChunkData (some x) = ((refl, refl), tt)

-- A new chunker holds nothing.
fresh : (opts : ChunkOptions) (c : Chunker) → new_chunker opts ≡ some c → (c.buf ≡ []) × IsScanned c
unfolding new_chunker make_chunker
fresh opts c e = ground arith

chunk_file_runs :
    (sha256 : Bytes → Bytes) (reads : Reads) (opts : ChunkOptions) (c : Chunker)
    → new_chunker opts ≡ some c
    → Succeeds reads
    → chunk_file sha256 (ok reads) opts ≡ ok (all_chunks sha256 c (content reads))
unfolding chunk_file
chunk_file_runs sha256 reads opts c made good =
    rw made (read_loop_lem sha256 reads c [] (fresh opts c made).1 good)

-- Where the options give a chunker and no read fails, `ChunkFile` returns chunks whose bytes, put
-- together, are the content of the file, each with the hash and the length of its bytes.
pub chunk_file_lem :
    (sha256 : Bytes → Bytes) (reads : Reads) (opts : ChunkOptions) (c : Chunker)
    → new_chunker opts ≡ some c
    → Succeeds reads
    → (chunks : List ChunkData) × (chunk_file sha256 (ok reads) opts ≡ ok chunks)
      × (bytes_of chunks ≡ content reads)
      × All (IsChunkData sha256) chunks
chunk_file_lem sha256 reads opts c made good =
    let text = content reads in
    let (empty, scanned) = fresh opts c made in
    let (d, found) = push c text in
    (
      all_chunks sha256 c text,
      chunk_file_runs sha256 reads opts c made good,
      rw (bytes_of-map sha256 found (last_chunk sha256 (flush d).1), last_chunk_bytes sha256 d)
          (concat-push c text scanned ∙ ap (λ xs. xs ++ text) empty),
      All-append (IsChunkData sha256) (map (chunk_data sha256) found)
          (last_chunk sha256 (flush d).1) (map-IsChunkData sha256 found)
          (last_chunk-IsChunkData sha256 (flush d).1),
    )

-- How the reads cut the content does not matter: two runs of reads with the same content, none of
-- which fails, give the same result.
pub chunk_file_reads :
    (sha256 : Bytes → Bytes) (reads others : Reads) (opts : ChunkOptions)
    → Succeeds reads
    → Succeeds others
    → content reads ≡ content others
    → chunk_file sha256 (ok reads) opts ≡ chunk_file sha256 (ok others) opts
chunk_file_reads sha256 reads others opts good good' same = elim (Option-cases (new_chunker opts)) [
  | inl panics ↦ unfold chunk_file in rw panics
  | inr (c, made) ↦
      rw (chunk_file_runs sha256 reads opts c made good, same)
        (sym (chunk_file_runs sha256 others opts c made good'))
]
