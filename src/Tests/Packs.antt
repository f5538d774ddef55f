-- ===== src/Tests/Packs.antt =====
-- Packs of two chunks.
use baas_go_sdk.Base.{
  ℕ, ◌≡◌, refl, true, false, some, List, [], ◌∷◌, ◌++◌, replicate, length, arith,
}
use baas_go_sdk.Base.Text.{Bytes, codes, str_eq}
use baas_go_sdk.Encoding.Hex
use baas_go_sdk.Errors.{library, wrap}
use baas_go_sdk.Errors.Kinds.{upload_pack}
use baas_go_sdk.Errors.Outcome.{ok, err}
use baas_go_sdk.Types.{ChunkData}
use baas_go_sdk.Chunk.File.{sha256_hex}
use baas_go_sdk.Codec.{maybe_zstd_compress, looks_like_zstd_frame}
use baas_go_sdk.Encrypt.{
  derive_data_key, derive_object_key, encrypt_object, aes_gcm_seal, check_key,
}
use baas_go_sdk.Pipeline.Objects.{PackChunk, store_chunk, encrypt_stored, compress}
use baas_go_sdk.Pipeline.Objects.Laws.{CanSeal}
use baas_go_sdk.Pipeline.Session.{Outside, Session}
use baas_go_sdk.Pipeline.Pack.{
  pack_bytes, pack_metas, report_pack, upload_chunks, flush_pack, total_bytes,
}
use baas_go_sdk.Pipeline.Pack.Places.{StoredFrom, AllRestored, restore_pack}
use baas_go_sdk.Pipeline.Pack.Flush.{Flushed, flush_pack_lem, flush_pack-keeps}
use baas_go_sdk.Tests.Toys.{toy_libraries, toy_primitives, toy_zstd-IsZstd, toy_primitives-IsAead}

abbrev dek : Bytes
dek = replicate 32 3

abbrev nonce : Bytes
nonce = replicate 12 9

abbrev derived_key : Bytes
derived_key = replicate 32 5

abbrev chunk_of : Bytes → ChunkData
chunk_of bytes = record {
  hash = sha256_hex toy_libraries.sha256 bytes;
  bytes = bytes;
  size = length bytes;
}

-- Ten 7s, which are compressed, and two bytes, which are not.
abbrev first_chunk : ChunkData
first_chunk = chunk_of (replicate 10 7)

abbrev second_chunk : ChunkData
second_chunk = chunk_of (1 ∷ 2 ∷ [])

abbrev first_stored : PackChunk
first_stored = record {
  hash = first_chunk.hash;
  bytes =
      nonce
      ++ toy_primitives.gcm_seal derived_key nonce (0x28 ∷ 0xb5 ∷ 0x2f ∷ 0xfd ∷ 1 ∷ 7 ∷ 7 ∷ []);
  chunk_typ = codes "data";
  compression = codes "zstd";
  uncompressed_size = 10;
}

abbrev second_stored : PackChunk
second_stored = record {
  hash = second_chunk.hash;
  bytes = nonce ++ toy_primitives.gcm_seal derived_key nonce (1 ∷ 2 ∷ []);
  chunk_typ = codes "data";
  compression = codes "";
  uncompressed_size = 2;
}

can_seal :
    (n : ℕ) → Hex.IsByte n → CanSeal toy_libraries (some dek) (some nonce) (Hex.encode (n ∷ []))
can_seal n h = (
  derived_key,
  nonce,
  unfold derive_data_key derive_object_key in rw (Hex.decode-encode (n ∷ []) (h, tt)),
  refl,
  record { drawn = refl; twelve = refl },
)

first_StoredFrom : StoredFrom toy_libraries false (some dek) first_chunk first_stored
first_StoredFrom = record {
  drawn = some nonce;
  can_seal = unfold sha256_hex in can_seal 10 (omega arith);
  own_hash = refl;
  no_frame = unfold looks_like_zstd_frame in refl;
  stores =
      unfold store_chunk compress maybe_zstd_compress encrypt_stored derive_data_key
        derive_object_key encrypt_object aes_gcm_seal check_key str_eq sha256_hex Hex.encode
        Hex.hex_digit Hex.decode Hex.from_hex in
      refl;
}

second_StoredFrom : StoredFrom toy_libraries false (some dek) second_chunk second_stored
second_StoredFrom = record {
  drawn = some nonce;
  can_seal = unfold sha256_hex in can_seal 2 (omega arith);
  own_hash = refl;
  no_frame = unfold looks_like_zstd_frame in refl;
  stores =
      unfold store_chunk compress maybe_zstd_compress encrypt_stored derive_data_key
        derive_object_key encrypt_object aes_gcm_seal check_key str_eq sha256_hex Hex.encode
        Hex.hex_digit Hex.decode Hex.from_hex in
      refl;
}

abbrev chunks : List ChunkData
chunks = first_chunk ∷ second_chunk ∷ []

abbrev pack_chunks : List PackChunk
pack_chunks = first_stored ∷ second_stored ∷ []

restore_pack_example :
    AllRestored toy_libraries
      (record { bytes = pack_bytes pack_chunks; spare = [] })
      (some dek)
      true
      chunks
      (pack_metas 0 pack_chunks)
restore_pack_example =
    restore_pack toy_libraries false true (some dek) chunks pack_chunks [] toy_primitives-IsAead
      toy_zstd-IsZstd (first_StoredFrom, (second_StoredFrom, tt))

-- A server that takes everything, and a store that fails.
abbrev willing : Outside
willing = record {
  on_pack_upload_url =
      λ calls size. ok (record { pack_id = codes "12345678"; url = codes "u"; key = codes "k" });
  on_s3_put = λ calls url bytes. ok tt;
  on_confirm_pack = λ calls pack_id metas. ok tt;
  open_file = λ path. err (library (codes "open"));
  random = λ n. some nonce;
}

abbrev failing : Outside
failing = record willing { on_s3_put = λ calls url bytes. err (library (codes "put")) }

abbrev full : Session
full = record {
  calls = [];
  pack = record { chunks = pack_chunks; total_size = total_bytes pack_chunks };
  draws = 2;
  known_hashes = [];
}

abbrev flushed : Session
flushed = (flush_pack willing full).1

flushes : flush_pack willing full ≡ (ok tt, flushed)
unfolding flush_pack upload_chunks report_pack
flushes = refl

flush_pack_lem_example : Flushed willing pack_chunks full flushed
flush_pack_lem_example = flush_pack_lem willing full flushed (λ e. cc) flushes

abbrev stopped : Session
stopped = (flush_pack failing full).1

stops : flush_pack failing full ≡ (err (wrap upload_pack [] (library (codes "put"))), stopped)
unfolding flush_pack upload_chunks
stops = refl

flush_pack-keeps_example : stopped.pack ≡ full.pack
flush_pack-keeps_example =
    flush_pack-keeps failing full stopped (wrap upload_pack [] (library (codes "put"))) stops
