-- ===== src/Chunk/File.antt =====
-- chunk/chunker.go: `SHA256Hex` and `ChunkFile`. The hash function is a parameter, and a file is
-- the results of the calls of `Read` on it.
pub mod Reading
use baas_go_sdk.Base.{
  ℕ, ◌≡◌, refl, ◌++◌, List, [], ◌∷◌, map, Option, none, some, arith, append_assoc, append-nil,
  length, concat, concat-append, if◌then◌else◌, ◌==◌,
}
use baas_go_sdk.Base.Text.{Bytes, codes}
use baas_go_sdk.Base.All.{All}
use baas_go_sdk.Encoding.Hex
use baas_go_sdk.Errors.{Error, library}
use baas_go_sdk.Errors.Outcome.{Outcome, ok, err, panic, ◌>>=◌}
use baas_go_sdk.Types.{ChunkOptions, ChunkData}
use baas_go_sdk.Chunk.{Chunker, make_chunker, new_chunker, push, flush}
use baas_go_sdk.Chunk.Refine.{IsScanned}
use baas_go_sdk.Chunk.Stream.{push-IsScanned, concat-push, push-append}

-- Each call of `Read` fills in some bytes and reports an error, the end of the file, or neither.
pub data Reads : Type 0 where
  more : Bytes → Reads → Reads
  eof : Bytes → Reads
  failed : Bytes → Error → Reads

-- The bytes that reach the chunker, in order.
abbrev pub content : Reads → Bytes
content (more bytes rest) = bytes ++ content rest
content (eof bytes) = bytes
content (failed bytes e) = bytes

module _ (sha256 : Bytes → Bytes) where
  unfoldable pub sha256_hex : Bytes → Bytes
  sha256_hex bytes = Hex.encode (sha256 bytes)

  unfoldable pub chunk_data : Bytes → ChunkData
  chunk_data raw = record { hash = sha256_hex raw; bytes = raw; size = length raw }

  abbrev last_chunk : Option Bytes → List ChunkData
  last_chunk none = []
  last_chunk (some raw) = chunk_data raw ∷ []

  -- `if n > 0 { … }`: with no byte there is nothing to push.
  unfoldable pub feed : Chunker → Bytes → Chunker × List ChunkData
  feed cdc bytes =
      if length bytes == 0
      then (cdc, [])
      else ((push cdc bytes).0, map chunk_data (push cdc bytes).1)

  -- The loop and the flush behind it.
  unfoldable pub read_loop : Reads → Chunker → List ChunkData → Outcome (List ChunkData)
  read_loop (more bytes rest) cdc chunks =
      let (cdc', found) = feed cdc bytes in read_loop rest cdc' (chunks ++ found)
  read_loop (eof bytes) cdc chunks =
      let (cdc', found) = feed cdc bytes in ok ((chunks ++ found) ++ last_chunk (flush cdc').1)
  read_loop (failed bytes e) cdc chunks = err e

  abbrev started : Reads → Option Chunker → Outcome (List ChunkData)
  started reads none = panic
  started reads (some cdc) = read_loop reads cdc []

  -- The first argument is what `os.Open` gives.
  unfoldable pub chunk_file : Outcome Reads → ChunkOptions → Outcome (List ChunkData)
  chunk_file opened opts = opened >>= λ reads. started reads (new_chunker opts)
