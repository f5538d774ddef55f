-- ===== src/Codec/RoundTrip.antt =====
-- About codec/zstd.go: compression, and decompression behind it.
use baas_go_sdk.Base.{◌≤◌, ◌≡◌, arith, ltb, if◌then◌else◌, length}
use baas_go_sdk.Base.Text.{Bytes, str_eq}
use baas_go_sdk.Errors.Outcome.{ok}
use baas_go_sdk.Codec.{
  Zstd, IsZstd, maybe_zstd_compress, maybe_decompress_stored, looks_like_zstd_frame,
  maybe_decompress_stored_or_infer_zstd, or_keep,
}

module _ (z : Zstd) (good : IsZstd z) (raw : Bytes) where
  -- Where decoding undoes encoding, decompressing by the method that compression reports gives the
  -- text back, and what is stored is never longer than the text.
  pub maybe_decompress_stored-maybe_zstd_compress :
      (maybe_decompress_stored z
          (maybe_zstd_compress z raw).stored
          (maybe_zstd_compress z raw).compression
        ≡ ok raw)
      × (length (maybe_zstd_compress z raw).stored ≤ length raw)
  unfolding maybe_decompress_stored maybe_zstd_compress str_eq
  maybe_decompress_stored-maybe_zstd_compress = ground (arith, good.decode-encode raw)

  -- The text is kept as it is and reads as a frame that the decoder accepts: the case in which the
  -- guess goes wrong.
  abbrev pub guess : Bytes
  guess =
      if ltb (length (z.encode_all raw)) (length raw)
      then raw
      else if looks_like_zstd_frame raw
      then or_keep raw (z.decode_all raw)
      else raw

  -- Where decoding undoes encoding, with the guess on top, the result is the text, except where compression did not pay and the
  -- text itself is a frame that the decoder accepts: then it is the content of that frame.
  pub infer-maybe_zstd_compress :
      maybe_decompress_stored_or_infer_zstd z
        (maybe_zstd_compress z raw).stored
        (maybe_zstd_compress z raw).compression
      ≡ ok guess
  unfolding maybe_decompress_stored_or_infer_zstd maybe_decompress_stored maybe_zstd_compress str_eq
  infer-maybe_zstd_compress = ground (arith, good.decode-encode raw)
