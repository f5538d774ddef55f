-- ===== src/Pipeline/Objects/Guess.antt =====
-- About codec/zstd.go in the restore: the guess at a zstd frame, and a file that is one.
use baas_go_sdk.Base.{
  ◌≤◌, ◌≡◌, ◌≢◌, refl, Bool, true, none, some, [], ◌∷◌, ◌++◌, arith, le→ltb, length,
}
use baas_go_sdk.Base.Text.{Bytes, codes, str_eq, str_eq_iff}
use baas_go_sdk.Base.Int.{pos}
use baas_go_sdk.Errors.{text}
use baas_go_sdk.Errors.Kinds.{checksum_mismatch}
use baas_go_sdk.Errors.Outcome.{ok, err}
use baas_go_sdk.Types.{ChunkData}
use baas_go_sdk.Chunk.File.{sha256_hex}
use baas_go_sdk.Codec.{
  maybe_zstd_compress, maybe_decompress_stored_or_infer_zstd, maybe_decompress_stored,
  looks_like_zstd_frame,
}
use baas_go_sdk.Encrypt.{Random}
use baas_go_sdk.Pipeline.Objects.{
  Libraries, PackChunk, compress, store_chunk, verify, decode_stored, decode_pack_chunk,
}
use baas_go_sdk.Pipeline.Objects.Laws.{slice_middle}

-- A chunk that is itself a zstd frame, which the encoder does not make smaller, cannot be restored
-- with verification: without encryption it is stored as it is, and decoding what was stored
-- decompresses it and reports a checksum mismatch, if the content of the frame has another hash.
pub decode_pack_chunk_frame :
    (l : Libraries) (disabled : Bool) (r : Random) (c : ChunkData)
    (inner before after spare : Bytes)
    → length c.bytes ≤ length (l.zstd.encode_all c.bytes)
    → looks_like_zstd_frame c.bytes ≡ true
    → l.zstd.decode_all c.bytes ≡ some inner
    → sha256_hex l.sha256 inner ≢ c.hash
    → (pc : PackChunk) × (store_chunk l disabled none r c ≡ ok pc)
      × (pc.bytes ≡ c.bytes)
      × (decode_pack_chunk l
            (record { bytes = before ++ (pc.bytes ++ after); spare = spare })
            (record {
              hash = pc.hash;
              offset = pos (length before);
              size = pos (length pc.bytes);
              compression = pc.compression;
              uncompressed_size = pos pc.uncompressed_size;
            })
            none
            true
          ≡ err (text checksum_mismatch (c.hash ∷ sha256_hex l.sha256 inner ∷ [])))
decode_pack_chunk_frame l disabled r c inner before after spare incompressible frame decodes
      differs =
    (
      record {
        hash = c.hash;
        bytes = c.bytes;
        chunk_typ = codes "data";
        compression = codes "";
        uncompressed_size = length c.bytes;
      },
      unfold store_chunk compress maybe_zstd_compress in
          ground
            (arith, le→ltb (length (l.zstd.encode_all c.bytes)) (length c.bytes) incompressible),
      refl,
      unfold decode_pack_chunk in
          rw (slice_middle before c.bytes after spare) (
            unfold decode_stored maybe_decompress_stored_or_infer_zstd maybe_decompress_stored
              str_eq in
            rw (frame, decodes)
              (unfold verify in ground (arith, str_eq_iff (sha256_hex l.sha256 inner) c.hash))),
    )
