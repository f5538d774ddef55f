-- ===== src/Tests/Stored.antt =====
-- Compression, and objects that are stored and read back, with the toy libraries.
use baas_go_sdk.Base.{
  ◌≤◌, ◌≡◌, ◌≢◌, refl, true, false, none, some, [], ◌∷◌, ◌++◌, arith, length, replicate,
}
use mathlib.Core.Bool.{false≢true}
use baas_go_sdk.Base.Text.{Bytes, codes, str_eq, str_eq_iff}
use baas_go_sdk.Base.Int.{pos}
use baas_go_sdk.Encoding.Hex
use baas_go_sdk.Errors.{text}
use baas_go_sdk.Errors.Kinds.{checksum_mismatch}
use baas_go_sdk.Errors.Outcome.{ok, err}
use baas_go_sdk.Types.{ChunkData, PackDownloadChunk, DownloadUrlEntry}
use baas_go_sdk.Chunk.File.{sha256_hex}
use baas_go_sdk.Codec.{
  maybe_zstd_compress, maybe_decompress_stored, maybe_decompress_stored_or_infer_zstd,
  looks_like_zstd_frame,
}
use baas_go_sdk.Codec.RoundTrip.{maybe_decompress_stored-maybe_zstd_compress}
use baas_go_sdk.Encrypt.{derive_data_key, derive_object_key}
use baas_go_sdk.Pipeline.Objects.{
  PackChunk, store_chunk, slice, verify, decode_stored, decode_pack_chunk, decode_standalone_chunk,
}
use baas_go_sdk.Pipeline.Objects.Laws.{CanSeal}
use baas_go_sdk.Pipeline.Objects.Guess.{decode_pack_chunk_frame}
use baas_go_sdk.Tests.Toys.{toy_libraries, toy_zstd, toy_zstd-IsZstd}

abbrev run : Bytes
run = replicate 10 7

maybe_decompress_stored-maybe_zstd_compress_example :
    (maybe_decompress_stored toy_zstd
        (maybe_zstd_compress toy_zstd run).stored
        (maybe_zstd_compress toy_zstd run).compression
      ≡ ok run)
    × (length (maybe_zstd_compress toy_zstd run).stored ≤ 10)
maybe_decompress_stored-maybe_zstd_compress_example =
    maybe_decompress_stored-maybe_zstd_compress toy_zstd toy_zstd-IsZstd run

abbrev dek : Bytes
dek = replicate 32 3

abbrev nonce : Bytes
nonce = replicate 12 9

abbrev chunk : ChunkData
chunk = record { hash = sha256_hex toy_libraries.sha256 run; bytes = run; size = 10 }

chunk-CanSeal : CanSeal toy_libraries (some dek) (some nonce) chunk.hash
chunk-CanSeal = (
  replicate 32 5,
  nonce,
  unfold derive_data_key derive_object_key sha256_hex in
      rw (Hex.decode-encode (10 ∷ []) (omega arith, tt)),
  refl,
  record { drawn = refl; twelve = refl },
)

-- Two plain bytes and the report of them.
abbrev plain_hash : Bytes
plain_hash = sha256_hex toy_libraries.sha256 (7 ∷ 8 ∷ [])

abbrev plain_place : PackDownloadChunk
plain_place = record {
  hash = plain_hash;
  offset = pos 1;
  size = pos 2;
  compression = codes "";
  uncompressed_size = pos 0;
}

decoded_plain :
    decode_pack_chunk toy_libraries
      (record { bytes = 6 ∷ 7 ∷ 8 ∷ []; spare = [] })
      plain_place
      none
      true
    ≡ ok (7 ∷ 8 ∷ [])
unfolding decode_pack_chunk decode_stored slice verify maybe_decompress_stored_or_infer_zstd
    maybe_decompress_stored looks_like_zstd_frame str_eq sha256_hex Hex.encode Hex.hex_digit
decoded_plain = refl

abbrev plain_entry : DownloadUrlEntry
plain_entry = record { hash = plain_hash; url = codes "u" }

decoded_standalone :
    decode_standalone_chunk toy_libraries (ok (7 ∷ 8 ∷ [])) plain_entry none true ≡ ok (7 ∷ 8 ∷ [])
unfolding decode_standalone_chunk decode_stored verify maybe_decompress_stored_or_infer_zstd
    maybe_decompress_stored looks_like_zstd_frame str_eq sha256_hex Hex.encode Hex.hex_digit
decoded_standalone = refl

-- A file that is a frame.
abbrev frame : Bytes
frame = 0x28 ∷ 0xb5 ∷ 0x2f ∷ 0xfd ∷ 0 ∷ 9 ∷ []

abbrev frame_chunk : ChunkData
frame_chunk = record { hash = sha256_hex toy_libraries.sha256 frame; bytes = frame; size = 6 }

other_content : sha256_hex toy_libraries.sha256 (9 ∷ []) ≢ frame_chunk.hash
unfolding sha256_hex Hex.encode Hex.hex_digit str_eq
other_content e =
    false≢true ((str_eq_iff (sha256_hex toy_libraries.sha256 (9 ∷ [])) frame_chunk.hash).1 e)

decode_pack_chunk_frame_example :
    (pc : PackChunk) × (store_chunk toy_libraries false none none frame_chunk ≡ ok pc)
    × (pc.bytes ≡ frame)
    × (decode_pack_chunk toy_libraries
          (record { bytes = [] ++ (pc.bytes ++ []); spare = [] })
          (record {
            hash = pc.hash;
            offset = pos 0;
            size = pos (length pc.bytes);
            compression = pc.compression;
            uncompressed_size = pos pc.uncompressed_size;
          })
          none
          true
        ≡ err (
            text checksum_mismatch
              (frame_chunk.hash ∷ sha256_hex toy_libraries.sha256 (9 ∷ []) ∷ [])))
decode_pack_chunk_frame_example =
    decode_pack_chunk_frame toy_libraries false none frame_chunk (9 ∷ []) [] [] []
      (unfold str_eq in omega arith) (unfold looks_like_zstd_frame in refl) (unfold str_eq in refl)
      other_content
