-- ===== src/Pipeline/Restore/Verified.antt =====
-- About downloadChunkData of pipeline/restore.go: what the cache of chunks holds.
use mathlib.Core.Path.{subst}
use baas_go_sdk.Base.{
  ◌≡◌, refl, sym, ap, ◌∙◌, Bool, true, false, Option, none, some, List, [], ◌∷◌, if◌then◌else◌,
}
use baas_go_sdk.Base.Text.{Bytes, str_eq, str_eq_iff}
use baas_go_sdk.Base.All.{All}
use baas_go_sdk.Base.Dict.{Dict, insert, lookup}
use baas_go_sdk.Errors.{wrap}
use baas_go_sdk.Errors.Kinds.{request_download_urls}
use baas_go_sdk.Errors.Outcome.{ok, ◌>>=◌, map_err, >>=-eq-ok, ok-injective}
use baas_go_sdk.Types.{PackDownloadChunk, PackDownloadEntry, DownloadUrlEntry}
use baas_go_sdk.Chunk.File.{sha256_hex}
use baas_go_sdk.Pool.{batch}
use baas_go_sdk.Pipeline.Objects.{Libraries, PackData, decode_pack_chunk, decode_standalone_chunk}
use baas_go_sdk.Pipeline.Objects.Laws.{decode_pack_chunk_verified, decode_standalone_chunk_verified}
use baas_go_sdk.Pipeline.Restore.Download.{
  Server, store_chunks, store_packs, store_standalone, store_response, store_batches,
  download_chunk_data, batches_or_panic,
}

some-injective : {a b : Bytes} → some a ≡ some b → a ≡ b
some-injective h = cc

module _ (l : Libraries) where
  -- Every chunk stands under its SHA-256.
  abbrev pub IsVerified : Dict Bytes → Type 0
  IsVerified cache = All (λ entry. sha256_hex l.sha256 entry.1 ≡ entry.0) cache

  insert-IsVerified :
      (hash bytes : Bytes) (cache : Dict Bytes)
      → sha256_hex l.sha256 bytes ≡ hash
      → IsVerified cache
      → IsVerified (insert hash bytes cache)
  unfolding insert
  insert-IsVerified hash bytes [] e h = (e, tt)
  insert-IsVerified hash bytes ((j, w) ∷ cache) e (ew, h) =
      elim (str_eq j hash)
        as (λ b.
          IsVerified (if b then (hash, bytes) ∷ cache else (j, w) ∷ insert hash bytes cache)) [
            | true ↦ (e, h)
            | false ↦ (ew, insert-IsVerified hash bytes cache e h)
          ]

  either_verified :
      (hash bytes j w : Bytes) (same : Bool) (other : Option Bytes)
      → (same ≡ true → j ≡ hash)
      → sha256_hex l.sha256 w ≡ j
      → (other ≡ some bytes → sha256_hex l.sha256 bytes ≡ hash)
      → (if same then some w else other) ≡ some bytes
      → sha256_hex l.sha256 bytes ≡ hash
  either_verified hash bytes j w true other eq ew rest h =
      ap (sha256_hex l.sha256) (sym (some-injective h)) ∙ ew ∙ eq refl
  either_verified hash bytes j w false other eq ew rest h = rest h

  pub lookup-IsVerified :
      (hash bytes : Bytes) (cache : Dict Bytes)
      → IsVerified cache
      → lookup hash cache ≡ some bytes
      → sha256_hex l.sha256 bytes ≡ hash
  unfolding lookup
  lookup-IsVerified hash bytes [] h e = cc
  lookup-IsVerified hash bytes ((j, w) ∷ cache) (ew, h) e =
      either_verified hash bytes j w (str_eq j hash) (lookup hash cache) (str_eq_iff j hash).0 ew
        (lookup-IsVerified hash bytes cache h) e

  module _ (s : Server) (dek : Option Bytes) where
    store_chunks-IsVerified :
        (pack_data : PackData) (chunks : List PackDownloadChunk) (cache out : Dict Bytes)
        → IsVerified cache
        → store_chunks l s dek true pack_data chunks cache ≡ ok out
        → IsVerified out
    unfolding store_chunks
    store_chunks-IsVerified pack_data [] cache out hc h = subst IsVerified (ok-injective h) hc
    store_chunks-IsVerified pack_data (ch ∷ chunks) cache out hc h =
        let (bytes, next, decoded) = >>=-eq-ok (decode_pack_chunk l pack_data ch dek true) _ h in
        store_chunks-IsVerified pack_data chunks (insert ch.hash bytes cache) out
          (insert-IsVerified ch.hash bytes cache
            (decode_pack_chunk_verified l pack_data ch dek bytes decoded) hc)
          next

    store_packs-IsVerified :
        (packs : List PackDownloadEntry) (cache out : Dict Bytes)
        → IsVerified cache
        → store_packs l s dek true packs cache ≡ ok out
        → IsVerified out
    unfolding store_packs
    store_packs-IsVerified [] cache out hc h = subst IsVerified (ok-injective h) hc
    store_packs-IsVerified (pack ∷ packs) cache out hc h =
        let (between, next, first) =
          >>=-eq-ok (s.s3_get pack.url >>= λ d. store_chunks l s dek true d pack.chunks cache)
            (store_packs l s dek true packs) h in
        let (pack_data, stored, _) = >>=-eq-ok (s.s3_get pack.url) _ first in
        store_packs-IsVerified packs between out
          (store_chunks-IsVerified pack_data pack.chunks cache between hc stored) next

    store_standalone-IsVerified :
        (entries : List DownloadUrlEntry) (cache out : Dict Bytes)
        → IsVerified cache
        → store_standalone l s dek true entries cache ≡ ok out
        → IsVerified out
    unfolding store_standalone
    store_standalone-IsVerified [] cache out hc h = subst IsVerified (ok-injective h) hc
    store_standalone-IsVerified (entry ∷ entries) cache out hc h =
        let got = s.s3_get entry.url >>= λ got. ok got.bytes in
        let (bytes, next, decoded) = >>=-eq-ok (decode_standalone_chunk l got entry dek true) _ h in
        store_standalone-IsVerified entries (insert entry.hash bytes cache) out
          (insert-IsVerified entry.hash bytes cache
            (decode_standalone_chunk_verified l got entry dek bytes decoded) hc)
          next

    -- With verification, storing a batch keeps the cache verified.
    pub store_batches-IsVerified :
        (batches : List (List Bytes)) (cache out : Dict Bytes)
        → IsVerified cache
        → store_batches l s dek true batches cache ≡ ok out
        → IsVerified out
    unfolding store_batches
    store_batches-IsVerified [] cache out hc h = subst IsVerified (ok-injective h) hc
    store_batches-IsVerified (hashes ∷ rest) cache out hc h =
        let request = map_err (wrap request_download_urls []) (s.request_urls hashes) in
        let (between, next, first) =
          >>=-eq-ok (request >>= λ resp. store_response l s dek true resp cache)
            (store_batches l s dek true rest) h in
        let (resp, responded, _) = >>=-eq-ok request _ first in
        let (packed, standalone, packs) =
          >>=-eq-ok (store_packs l s dek true resp.packs cache)
            (store_standalone l s dek true resp.standalone) responded in
        store_batches-IsVerified rest between out
          (store_standalone-IsVerified resp.standalone packed between
            (store_packs-IsVerified resp.packs cache packed hc packs) standalone)
          next

    batches_or_panic-IsVerified :
        (o : Option (List (List Bytes))) (out : Dict Bytes)
        → batches_or_panic l s dek true o ≡ ok out
        → IsVerified out
    batches_or_panic-IsVerified none out h = cc
    batches_or_panic-IsVerified (some batches) out h = store_batches-IsVerified batches [] out tt h

    -- Where `downloadChunkData` succeeds with verification, every chunk in the cache has the
    -- SHA-256 that it stands under.
    pub download_chunk_data-IsVerified :
        (hash_list : List Bytes) (out : Dict Bytes)
        → download_chunk_data l s dek true hash_list ≡ ok out
        → IsVerified out
    unfolding download_chunk_data
    download_chunk_data-IsVerified hash_list out h =
        batches_or_panic-IsVerified (batch hash_list 500) out h
