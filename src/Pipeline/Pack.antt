-- ===== src/Pipeline/Pack.antt =====
-- `flushPack` of pipeline/backup.go: the chunks of the buffer go into one object, and their places
-- in it are reported.
pub mod Places
pub mod Flush
use baas_go_sdk.Base.{
  ℕ, ◌+◌, ◌≡◌, Bool, true, false, List, [], ◌∷◌, ◌++◌, ltb, ◌==◌, if◌then◌else◌, length,
}
use baas_go_sdk.Base.Text.{Bytes, codes, str_eq}
use baas_go_sdk.Errors.{Error, wrap}
use baas_go_sdk.Errors.Kinds.{request_pack_upload_url, upload_pack}
use baas_go_sdk.Errors.Kinds
use baas_go_sdk.Errors.Outcome.{Outcome, ok, err, panic, map_err}
use baas_go_sdk.Types.{PackChunkMeta, PackUploadUrlResponse}
use baas_go_sdk.Pipeline.Objects.{PackChunk}
use baas_go_sdk.Pipeline.Session.{
  Call, pack_upload_url, s3_put, confirm_pack, Outside, PackBuffer, Session, Action, pure, continue,
  ◌>>=◌, ◌>>◌, lift, ask,
}

-- The sizes of the chunks, summed up.
unfoldable pub total_bytes : List PackChunk → ℕ
total_bytes [] = 0
total_bytes (c ∷ cs) = length c.bytes + total_bytes cs

-- The bytes of the chunks, one behind the other.
unfoldable pub pack_bytes : List PackChunk → Bytes
pack_bytes [] = []
pack_bytes (c ∷ cs) = c.bytes ++ pack_bytes cs

unfoldable pub chunk_meta : ℕ → PackChunk → PackChunkMeta
chunk_meta offset c = record {
  hash = c.hash;
  size = length c.bytes;
  offset = offset;
  type_name = c.chunk_typ;
  compression = c.compression;
  uncompressed_size = if str_eq c.compression (codes "") then 0 else c.uncompressed_size;
}

-- The loop that fills `metas`, from an offset.
unfoldable pub pack_metas : ℕ → List PackChunk → List PackChunkMeta
pack_metas offset [] = []
pack_metas offset (c ∷ cs) = chunk_meta offset c ∷ pack_metas (offset + length c.bytes) cs

abbrev pub empty_pack : PackBuffer
empty_pack = record { chunks = []; total_size = 0 }

-- The progress message cuts `resp.PackID[:8]`, which panics on a shorter id.
unfoldable pub report_pack : Bytes → Action (Unit {0})
report_pack pack_id =
    if ltb (length pack_id) 8 then lift panic else λ s. (ok tt, record s { pack = empty_pack })

module _ (o : Outside) where
  unfoldable pub upload_chunks : List PackChunk → Action (Unit {0})
  upload_chunks chunks = do
    resp ← ask (pack_upload_url (total_bytes chunks)) (λ calls.
        map_err (wrap request_pack_upload_url []) (o.on_pack_upload_url calls (total_bytes chunks)))
    ask (s3_put resp.url (pack_bytes chunks))
        (λ calls. map_err (wrap upload_pack []) (o.on_s3_put calls resp.url (pack_bytes chunks)))
    ask (confirm_pack resp.pack_id (pack_metas 0 chunks)) (λ calls.
        map_err (wrap Kinds.confirm_pack [])
          (o.on_confirm_pack calls resp.pack_id (pack_metas 0 chunks)))
    report_pack resp.pack_id

  abbrev pub flush_chunks : List PackChunk → Action (Unit {0})
  flush_chunks [] = pure tt
  flush_chunks (c ∷ cs) = upload_chunks (c ∷ cs)

  unfoldable pub flush_pack : Action (Unit {0})
  flush_pack s = flush_chunks s.pack.chunks s
