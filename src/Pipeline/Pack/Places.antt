-- ===== src/Pipeline/Pack/Places.antt =====
-- About `flushPack` of pipeline/backup.go: the places that it reports, and the restore from them.
use baas_go_sdk.Base.{
  ◌≡◌, refl, sym, ◌∙◌, Bool, false, Option, List, [], ◌∷◌, ◌++◌, append_assoc, length,
  length-append,
}
use mathlib.Core.Path.{subst}
use baas_go_sdk.Base.Text.{Bytes}
use baas_go_sdk.Base.Int.{pos}
use baas_go_sdk.Errors.Outcome.{ok}
use baas_go_sdk.Types.{ChunkData, PackChunkMeta, PackDownloadChunk}
use baas_go_sdk.Chunk.File.{sha256_hex}
use baas_go_sdk.Codec.{IsZstd, looks_like_zstd_frame}
use baas_go_sdk.Encrypt.{IsAead, Random}
use baas_go_sdk.Pipeline.Objects.{
  Libraries, PackChunk, PackData, slice, store_chunk, decode_pack_chunk,
}
use baas_go_sdk.Pipeline.Objects.Laws.{CanSeal, slice_middle, decode_stored-store_chunk}
use baas_go_sdk.Pipeline.Pack.{pack_bytes, pack_metas, chunk_meta}

-- The n-th report is about the n-th chunk: its hash, its compression, and a range of the pack that
-- holds its bytes.
abbrev pub Found : PackData → List PackChunk → List PackChunkMeta → Type 0
Found d [] [] = Unit
Found d [] (_ ∷ _) = ⊥
Found d (_ ∷ _) [] = ⊥
Found d (c ∷ cs) (m ∷ ms) =
    ((m.hash ≡ c.hash)
      × (m.compression ≡ c.compression)
      × (slice d (pos m.offset) (pos m.size) ≡ ok c.bytes))
    × Found d cs ms

places_from :
    (before : Bytes) (cs : List PackChunk) (spare : Bytes) (whole : Bytes)
    → before ++ pack_bytes cs ≡ whole
    → Found (record { bytes = whole; spare = spare }) cs (pack_metas (length before) cs)
unfolding pack_bytes pack_metas chunk_meta
places_from before [] spare whole e = tt
places_from before (c ∷ cs) spare whole e = (
  (
    refl,
    refl,
    subst
        (λ w.
          slice (record { bytes = w; spare = spare }) (pos (length before)) (pos (length c.bytes))
          ≡ ok c.bytes)
        e (slice_middle before c.bytes (pack_bytes cs) spare),
  ),
  subst (λ n. Found (record { bytes = whole; spare = spare }) cs (pack_metas n cs))
      (length-append before c.bytes)
      (places_from (before ++ c.bytes) cs spare whole
        (append_assoc before c.bytes (pack_bytes cs) ∙ e)),
)

-- Each chunk of a pack stands in the uploaded object at the offset and with the size that are
-- reported for it, in the order of the chunks.
pub pack_metas_lem :
    (cs : List PackChunk) (spare : Bytes)
    → Found (record { bytes = pack_bytes cs; spare = spare }) cs (pack_metas 0 cs)
pack_metas_lem cs spare = places_from [] cs spare (pack_bytes cs) refl

-- The pack chunk was made from the chunk by `processFileChunks`, with keys and nonces of the right
-- sizes, and the chunk does not begin like a zstd frame.
pub record StoredFrom (l : Libraries) (disabled : Bool) (dek : Option Bytes) (c : ChunkData)
    (pc : PackChunk) : Type 0 where
  pub drawn : Random
  pub can_seal : CanSeal l dek drawn c.hash
  pub own_hash : c.hash ≡ sha256_hex l.sha256 c.bytes
  pub no_frame : looks_like_zstd_frame c.bytes ≡ false
  pub stores : store_chunk l disabled dek drawn c ≡ ok pc

-- What the server hands out for a confirmed chunk.
abbrev pub as_download : PackChunkMeta → PackDownloadChunk
as_download m = record {
  hash = m.hash;
  offset = pos m.offset;
  size = pos m.size;
  compression = m.compression;
  uncompressed_size = pos m.uncompressed_size;
}

abbrev pub AllStored : Libraries → Bool → Option Bytes → List ChunkData → List PackChunk → Type 0
AllStored l disabled dek [] [] = Unit
AllStored l disabled dek [] (_ ∷ _) = ⊥
AllStored l disabled dek (_ ∷ _) [] = ⊥
AllStored l disabled dek (c ∷ cs) (pc ∷ pcs) =
    StoredFrom l disabled dek c pc × AllStored l disabled dek cs pcs

-- The n-th report leads the restore to the bytes of the n-th chunk.
abbrev pub AllRestored :
    Libraries → PackData → Option Bytes → Bool → List ChunkData → List PackChunkMeta → Type 0
AllRestored l d dek checked [] [] = Unit
AllRestored l d dek checked [] (_ ∷ _) = ⊥
AllRestored l d dek checked (_ ∷ _) [] = ⊥
AllRestored l d dek checked (c ∷ cs) (m ∷ ms) =
    (decode_pack_chunk l d (as_download m) dek checked ≡ ok c.bytes)
    × AllRestored l d dek checked cs ms

ok_inj : {A : Type 0} (a b : A) → ok a ≡ ok b → a ≡ b
ok_inj a b e = cc

-- One stored chunk, led to by one report.
restored :
    (l : Libraries) (disabled checked : Bool) (dek : Option Bytes) (d : PackData) (c : ChunkData)
    (pc : PackChunk) (m : PackChunkMeta)
    → IsAead l.primitives
    → IsZstd l.zstd
    → StoredFrom l disabled dek c pc
    → m.hash ≡ pc.hash
    → m.compression ≡ pc.compression
    → slice d (pos m.offset) (pos m.size) ≡ ok pc.bytes
    → decode_pack_chunk l d (as_download m) dek checked ≡ ok c.bytes
unfolding decode_pack_chunk
restored l disabled checked dek d c pc m aead zstd st eh ec found =
    let (pc', stores, same, decodes) =
      decode_stored-store_chunk l disabled checked dek st.drawn c aead zstd st.can_seal st.own_hash
        st.no_frame in
    let e = ok_inj pc' pc (sym stores ∙ st.stores) in rw (found, eh, ec, ← e, same, decodes)

all_restored :
    (l : Libraries) (disabled checked : Bool) (dek : Option Bytes) (d : PackData)
    (cs : List ChunkData) (pcs : List PackChunk) (ms : List PackChunkMeta)
    → IsAead l.primitives
    → IsZstd l.zstd
    → AllStored l disabled dek cs pcs
    → Found d pcs ms
    → AllRestored l d dek checked cs ms
all_restored l disabled checked dek d [] [] [] aead zstd stored found = tt
all_restored l disabled checked dek d (c ∷ cs) (pc ∷ pcs) (m ∷ ms) aead zstd (st, stored)
      (at, found) =
    (
      restored l disabled checked dek d c pc m aead zstd st at.0 at.1 at.2,
      all_restored l disabled checked dek d cs pcs ms aead zstd stored found,
    )
all_restored l disabled checked dek d [] [] (_ ∷ _) aead zstd stored found = absurd found
all_restored l disabled checked dek d [] (_ ∷ _) ms aead zstd stored found = absurd stored
all_restored l disabled checked dek d (_ ∷ _) [] ms aead zstd stored found = absurd stored
all_restored l disabled checked dek d (_ ∷ _) (_ ∷ _) [] aead zstd stored found = absurd found

-- Backup then restore of a whole pack, for an AEAD and a zstd that undo what they do: if every chunk
-- carries the hash of its bytes, does not begin like a zstd frame, and was stored with the DEK (or
-- with none) under a key of 32 bytes and a nonce of 12, then the restore with that DEK, led by the
-- reports of `flushPack` into the uploaded object, gives back the bytes of every chunk, with and
-- without verification.
pub restore_pack :
    (l : Libraries) (disabled checked : Bool) (dek : Option Bytes) (cs : List ChunkData)
    (pcs : List PackChunk) (spare : Bytes)
    → IsAead l.primitives
    → IsZstd l.zstd
    → AllStored l disabled dek cs pcs
    → AllRestored l
        (record { bytes = pack_bytes pcs; spare = spare })
        dek
        checked
        cs
        (pack_metas 0 pcs)
restore_pack l disabled checked dek cs pcs spare aead zstd stored =
    all_restored l disabled checked dek (record { bytes = pack_bytes pcs; spare = spare }) cs pcs
      (pack_metas 0 pcs) aead zstd stored (pack_metas_lem pcs spare)
