-- ===== src/Codec.antt =====
-- codec/zstd.go: compression of what is stored. The zstd library is a parameter: a function that
-- compresses and one that decodes, where `none` is its error.
pub mod RoundTrip
use baas_go_sdk.Base.{
  ℕ, ◌≤◌, ◌≡◌, Bool, true, false, not, ◌&&◌, ◌||◌, Option, none, some, List, [], ◌∷◌, ltb, leb,
  ◌==◌, if◌then◌else◌, length,
}
use baas_go_sdk.Base.Text.{Bytes, codes, str_eq}
use baas_go_sdk.Errors.{Kind, Error, text, wrap, library}
use baas_go_sdk.Errors.Kinds.{zstd_decompress, unsupported_compression}
use baas_go_sdk.Errors.Outcome.{Outcome, ok, err, ◌>>=◌}

pub record Zstd : Type 0 where
  pub encode_all : Bytes → Bytes
  pub decode_all : Bytes → Option Bytes

-- What the code relies on: a decoder reads what the encoder wrote.
pub record IsZstd (z : Zstd) : Type 0 where
  pub decode-encode : (raw : Bytes) → z.decode_all (z.encode_all raw) ≡ some raw

pub record Compressed : Type 0 where
  pub stored : Bytes
  pub compression : Bytes
  pub uncompressed_size : ℕ

module _ (z : Zstd) where
  unfoldable pub maybe_zstd_compress : Bytes → Compressed
  maybe_zstd_compress raw =
      let compressed = z.encode_all raw in
      if ltb (length compressed) (length raw)
      then record {
        stored = compressed;
        compression = codes "zstd";
        uncompressed_size = length raw;
      }
      else record { stored = raw; compression = codes ""; uncompressed_size = length raw }

  abbrev decoded : Option Bytes → Outcome Bytes
  decoded none = err (wrap zstd_decompress [] (library []))
  decoded (some out) = ok out

  unfoldable pub maybe_decompress_stored : Bytes → Bytes → Outcome Bytes
  maybe_decompress_stored stored compression =
      if str_eq compression (codes "") || str_eq compression (codes "none")
      then ok stored
      else if str_eq compression (codes "zstd")
      then decoded (z.decode_all stored)
      else err (text unsupported_compression (compression ∷ []))

-- `looksLikeZstdFrame`: at least four bytes, and the first four are the magic.
unfoldable pub looks_like_zstd_frame : Bytes → Bool
looks_like_zstd_frame (a ∷ b ∷ c ∷ d ∷ _) = a == 0x28 && (b == 0xb5 && (c == 0x2f && d == 0xfd))
looks_like_zstd_frame _ = false

abbrev pub or_keep : Bytes → Option Bytes → Bytes
or_keep out none = out
or_keep out (some decoded) = decoded

module _ (z : Zstd) where
  unfoldable pub maybe_decompress_stored_or_infer_zstd : Bytes → Bytes → Outcome Bytes
  maybe_decompress_stored_or_infer_zstd stored compression =
      maybe_decompress_stored z stored compression >>= λ out.
      if not (str_eq compression (codes "")) && not (str_eq compression (codes "none"))
      then ok out
      else if looks_like_zstd_frame out
      then ok (or_keep out (z.decode_all out))
      else ok out
