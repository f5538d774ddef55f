-- ===== src/Pipeline/Objects/Laws.antt =====
-- About the encoding and the decoding of one object, in backup.go and restore.go of pipeline/.
use mathlib.Core.Path.{subst}
use baas_go_sdk.Base.{
  ◌+◌, ◌≡◌, refl, sym, ◌∙◌, ap, Bool, true, false, Option, none, some, ◌++◌, append_assoc, arith,
  le→leb, length, length-append, take-append, drop-append,
}
use baas_go_sdk.Base.Text.{Bytes, codes, str_eq, str_eq_iff, str_eq_refl}
use baas_go_sdk.Base.Int.{pos}
use baas_go_sdk.Errors.Outcome.{Outcome, ok, >>=-eq-ok}
use baas_go_sdk.Types.{ChunkData, PackDownloadChunk, DownloadUrlEntry}
use baas_go_sdk.Chunk.File.{sha256_hex}
use baas_go_sdk.Codec.{
  IsZstd, maybe_decompress_stored_or_infer_zstd, maybe_decompress_stored, looks_like_zstd_frame,
}
use baas_go_sdk.Codec.RoundTrip.{guess, infer-maybe_zstd_compress}
use baas_go_sdk.Encrypt
use baas_go_sdk.Encrypt.{Primitives, IsAead, Random, encrypt_object, decrypt_object}
use baas_go_sdk.Encrypt.Objects.{IsKey, IsNonce, decrypt_object-encrypt_object}
use baas_go_sdk.Pipeline.Objects.{
  Libraries, PackChunk, PackData, compress, encrypt_stored, sealed_chunk, store_chunk, slice,
  opened_chunk, verify, decode_stored, decode_pack_chunk, decode_standalone_chunk,
}

module _ (l : Libraries) where
  verify-eq-ok :
      (hash raw out : Bytes) → verify l true hash raw ≡ ok out → sha256_hex l.sha256 out ≡ hash
  unfolding verify
  verify-eq-ok hash raw out h = ground (arith, str_eq_iff (sha256_hex l.sha256 raw) hash)

  decode_stored_verified :
      (dek : Option Bytes) (hash compression stored out : Bytes)
      → decode_stored l dek true hash compression stored ≡ ok out
      → sha256_hex l.sha256 out ≡ hash
  unfolding decode_stored
  decode_stored_verified dek hash compression stored out h =
      let (plain, h1, _) = >>=-eq-ok (opened_chunk l dek hash stored) _ h in
      let (raw, h2, _) = >>=-eq-ok _ (verify l true hash) h1 in verify-eq-ok hash raw out h2

-- With verification on, whatever the server sends, a chunk that `decodePackChunk` accepts has the
-- hash under which it was asked for.
pub decode_pack_chunk_verified :
    (l : Libraries) (d : PackData) (m : PackDownloadChunk) (dek : Option Bytes) (out : Bytes)
    → decode_pack_chunk l d m dek true ≡ ok out
    → sha256_hex l.sha256 out ≡ m.hash
unfolding decode_pack_chunk
decode_pack_chunk_verified l d m dek out h =
    let (stored, rest, _) = >>=-eq-ok (slice d m.offset m.size) _ h in
    decode_stored_verified l dek m.hash m.compression stored out rest

-- The same of `decodeStandaloneChunk`.
pub decode_standalone_chunk_verified :
    (l : Libraries) (got : Outcome Bytes) (entry : DownloadUrlEntry) (dek : Option Bytes)
    (out : Bytes)
    → decode_standalone_chunk l got entry dek true ≡ ok out
    → sha256_hex l.sha256 out ≡ entry.hash
unfolding decode_standalone_chunk
decode_standalone_chunk_verified l got entry dek out h =
    let (stored, rest, _) = >>=-eq-ok got _ h in
    decode_stored_verified l dek entry.hash (codes "") stored out rest

-- With a DEK, deriving the object's key gives 32 bytes and the random source gives a nonce of 12.
abbrev pub CanSeal : Libraries → Option Bytes → Random → Bytes → Type 0
CanSeal l none r hash = Unit
CanSeal l (some dek) r hash =
    (key : Bytes) × (nonce : Bytes) × (Encrypt.derive_data_key l.primitives dek hash ≡ ok key)
    × IsKey key
    × IsNonce r nonce

module _ (l : Libraries) (aead : IsAead l.primitives) (zstd : IsZstd l.zstd) where
  -- Opening gives back what was sealed.
  opened-sealed :
      (dek : Option Bytes) (r : Random) (hash plain : Bytes)
      → CanSeal l dek r hash
      → (stored : Bytes) × (sealed_chunk l dek r hash plain ≡ ok stored)
        × (opened_chunk l dek hash stored ≡ ok plain)
  opened-sealed none r hash plain can = (plain, refl, refl)
  opened-sealed (some dek) r hash plain (key, nonce, derives, is_key, is_nonce) =
      let (blob, sealed, _, opens) =
        decrypt_object-encrypt_object l.primitives r key nonce plain aead is_key is_nonce in
      (blob, unfold encrypt_stored in rw (derives, sealed), rw (derives, opens))

  -- A text that does not look like a frame comes out of compression as it went in.
  infer-compress :
      (disabled : Bool) (raw : Bytes)
      → looks_like_zstd_frame raw ≡ false
      → maybe_decompress_stored_or_infer_zstd l.zstd
          (compress l disabled raw).stored
          (compress l disabled raw).compression
        ≡ ok raw
  infer-compress true raw plain =
      unfold compress maybe_decompress_stored_or_infer_zstd maybe_decompress_stored str_eq in
      rw plain
  infer-compress false raw plain =
      unfold compress in (infer-maybe_zstd_compress l.zstd zstd raw ∙ ap ok (unguessed raw plain))
    where
      unguessed : (raw : Bytes) → looks_like_zstd_frame raw ≡ false → guess l.zstd zstd raw ≡ raw
      unguessed raw plain = ground arith

  verify_own :
      (checked : Bool) (raw : Bytes) → verify l checked (sha256_hex l.sha256 raw) raw ≡ ok raw
  unfolding verify
  verify_own checked raw = ground (arith, str_eq_refl (sha256_hex l.sha256 raw))

  -- What is opened is decompressed and verified.
  decode_own :
      (disabled checked : Bool) (dek : Option Bytes) (c : ChunkData) (stored : Bytes)
      → opened_chunk l dek c.hash stored ≡ ok (compress l disabled c.bytes).stored
      → c.hash ≡ sha256_hex l.sha256 c.bytes
      → looks_like_zstd_frame c.bytes ≡ false
      → decode_stored l dek checked c.hash (compress l disabled c.bytes).compression stored
        ≡ ok c.bytes
  unfolding decode_stored
  decode_own disabled checked dek c stored opens hash plain =
      rw (opens, infer-compress disabled c.bytes plain)
        (subst (λ h. verify l checked h c.bytes ≡ ok c.bytes) (sym hash)
          (verify_own checked c.bytes))

-- A part of the pack is read at its offset and size.
pub slice_middle :
    (before x after spare : Bytes)
    → slice
        (record { bytes = before ++ (x ++ after); spare = spare })
        (pos (length before))
        (pos (length x))
      ≡ ok x
unfolding slice
slice_middle before x after spare = rw (
  append_assoc before (x ++ after) spare,
  append_assoc x after spare,
  drop-append (length before) before (x ++ (after ++ spare)) refl,
  take-append (length x) x (after ++ spare) refl,
  le→leb (length before + length x) (length (before ++ (x ++ (after ++ spare)))) (
      omega
        (arith, length-append before (x ++ (after ++ spare)), length-append x (after ++ spare))),
)

-- Decoding what was stored, once it has been cut out of its pack.
pub decode_stored-store_chunk :
    (l : Libraries) (disabled checked : Bool) (dek : Option Bytes) (r : Random) (c : ChunkData)
    → IsAead l.primitives
    → IsZstd l.zstd
    → CanSeal l dek r c.hash
    → c.hash ≡ sha256_hex l.sha256 c.bytes
    → looks_like_zstd_frame c.bytes ≡ false
    → (pc : PackChunk) × (store_chunk l disabled dek r c ≡ ok pc)
      × (pc.hash ≡ c.hash)
      × (decode_stored l dek checked c.hash pc.compression pc.bytes ≡ ok c.bytes)
decode_stored-store_chunk l disabled checked dek r c aead zstd can hash plain =
    let packed = compress l disabled c.bytes in
    let (stored, seals, opens) = opened-sealed l aead zstd dek r c.hash packed.stored can in
    (
      record {
        hash = c.hash;
        bytes = stored;
        chunk_typ = codes "data";
        compression = packed.compression;
        uncompressed_size = packed.uncompressed_size;
      },
      unfold store_chunk in rw seals,
      refl,
      decode_own l aead zstd disabled checked dek c stored opens hash plain,
    )

-- Backup then restore of one chunk, for an AEAD and a zstd that undo what they do: with the same DEK
-- under a derived key of 32 bytes and a nonce of 12, or with no DEK, a chunk whose hash is that of its
-- bytes and whose bytes do not begin like a zstd frame is stored, and decoding what was stored,
-- from any pack in which it stands at the offset and size that are reported, gives its bytes back,
-- with and without verification.
pub decode_pack_chunk-store_chunk :
    (l : Libraries) (disabled checked : Bool) (dek : Option Bytes) (r : Random) (c : ChunkData)
    (before after spare : Bytes)
    → IsAead l.primitives
    → IsZstd l.zstd
    → CanSeal l dek r c.hash
    → c.hash ≡ sha256_hex l.sha256 c.bytes
    → looks_like_zstd_frame c.bytes ≡ false
    → (pc : PackChunk) × (store_chunk l disabled dek r c ≡ ok pc)
      × (decode_pack_chunk l
            (record { bytes = before ++ (pc.bytes ++ after); spare = spare })
            (record {
              hash = pc.hash;
              offset = pos (length before);
              size = pos (length pc.bytes);
              compression = pc.compression;
              uncompressed_size = pos pc.uncompressed_size;
            })
            dek
            checked
          ≡ ok c.bytes)
decode_pack_chunk-store_chunk l disabled checked dek r c before after spare aead zstd can hash
      plain =
    let (pc, stores, named, decodes) =
      decode_stored-store_chunk l disabled checked dek r c aead zstd can hash plain in
    (
      pc,
      stores,
      unfold decode_pack_chunk in rw (slice_middle before pc.bytes after spare, named) decodes,
    )
