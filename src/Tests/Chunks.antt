-- ===== src/Tests/Chunks.antt =====
-- Runs of the chunker.
use baas_go_sdk.Base.{
  ◌<◌, ◌≡◌, ◌⊎◌, ◌↔◌, refl, List, [], ◌∷◌, ◌++◌, arith, length, concat, some, none,
}
use baas_go_sdk.Base.Text.{Bytes}
use baas_go_sdk.Base.Int.{pos}
use baas_go_sdk.Base.All.{All}
use baas_go_sdk.Errors.Outcome.{ok}
use baas_go_sdk.Types.{ChunkOptions, ChunkData}
use baas_go_sdk.Chunk.{
  Chunker, push, make_chunker, new_chunker, ilog2, ilog2_loop, low_mask, push_loop, advance,
  cut_here, restart, roll,
}
use baas_go_sdk.Chunk.Spec.{scan, with_state}
use baas_go_sdk.Chunk.Refine.{push-scan}
use baas_go_sdk.Chunk.Stream.{concat-push, push-append}
use baas_go_sdk.Chunk.Bounds.{HasSizes, InSizes, push_bounds}
use baas_go_sdk.Chunk.Log.{new_chunker_panics}
use baas_go_sdk.Chunk.File.{Reads, more, eof, chunk_file}
use baas_go_sdk.Chunk.File.Reading.{IsChunkData, bytes_of, chunk_file_lem}

-- Chunks of 2 to 4 bytes.
abbrev small_options : ChunkOptions
small_options = record { min_size = pos 2; avg_size = pos 3; max_size = pos 4 }

abbrev small : Chunker
small = make_chunker small_options 1

abbrev text : Bytes
text = 1 ∷ 2 ∷ 3 ∷ 4 ∷ 5 ∷ 6 ∷ 7 ∷ []

small_new : new_chunker small_options ≡ some small
unfolding new_chunker ilog2 ilog2_loop
small_new = refl

small_cuts : (push small text).1 ≡ (1 ∷ 2 ∷ 3 ∷ []) ∷ (4 ∷ 5 ∷ 6 ∷ []) ∷ []
unfolding push push_loop advance cut_here restart roll make_chunker low_mask
small_cuts = refl

push-scan_example : push small text ≡ (
  with_state small (scan small [] 0 text).cur [] (scan small [] 0 text).hash,
  (scan small [] 0 text).chunks,
)
unfolding make_chunker
push-scan_example = push-scan small text refl

concat-push_example : concat (push small text).1 ++ (push small text).0.buf ≡ text
unfolding make_chunker
concat-push_example = concat-push small text refl

push-append_example :
    push small (text ++ text)
    ≡ ((push (push small text).0 text).0, (push small text).1 ++ (push (push small text).0 text).1)
unfolding make_chunker
push-append_example = push-append small text text refl

abbrev small_sizes : HasSizes small 2 4
small_sizes =
    unfold make_chunker in
    record { min_eq = refl; max_eq = refl; ordered = omega arith; positive = omega arith }

push_bounds_example : All (InSizes 2 4) (push small text).1 × (length (push small text).0.buf < 4)
unfolding make_chunker
push_bounds_example = push_bounds small 2 4 text small_sizes refl (omega arith)

abbrev flat_options : ChunkOptions
flat_options = record { min_size = pos 0; avg_size = pos 1; max_size = pos 4 }

new_chunker_panics_example :
    (new_chunker flat_options ≡ none)
    ↔ ((flat_options.avg_size ≡ pos 0) ⊎ (flat_options.avg_size ≡ pos 1))
new_chunker_panics_example = new_chunker_panics flat_options (omega arith)

abbrev sum_hash : Bytes → Bytes
sum_hash bytes = length bytes ∷ []

abbrev two_reads : Reads
two_reads = more (1 ∷ 2 ∷ 3 ∷ []) (eof (4 ∷ 5 ∷ 6 ∷ 7 ∷ []))

chunk_file_lem_example :
    (chunks : List ChunkData) × (chunk_file sum_hash (ok two_reads) small_options ≡ ok chunks)
    × (bytes_of chunks ≡ text)
    × All (IsChunkData sum_hash) chunks
chunk_file_lem_example = chunk_file_lem sum_hash two_reads small_options small small_new tt
