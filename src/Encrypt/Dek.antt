-- ===== src/Encrypt/Dek.antt =====
-- About encrypt/encryption.go: the data key wrapped by the tenant key, and its rotation.
use baas_go_sdk.Base.{◌≡◌, true, false, [], ◌++◌, arith, length}
use baas_go_sdk.Base.Text.{Bytes}
use baas_go_sdk.Base.All.{All, All-append}
use baas_go_sdk.Encoding.Base64
use baas_go_sdk.Encoding.Hex.{IsByte}
use baas_go_sdk.Errors.{Error, text, wrap}
use baas_go_sdk.Errors.Kinds.{wrapped_dek_too_short, unwrap_failed}
use baas_go_sdk.Errors.Outcome.{ok, err}
use baas_go_sdk.Encrypt.{Primitives, IsAead, wrap_dek, unwrap_dek, rewrap_dek_idempotent, Random}
use baas_go_sdk.Encrypt.Objects.{IsNonce, IsKey, seal_lem, open_blob-append}

module _ (p : Primitives) (aead : IsAead p) where
  -- What `WrapDEK` returns.
  abbrev pub wrapped : Bytes → Bytes → Bytes → Bytes
  wrapped tmk dek nonce = Base64.encode (nonce ++ p.gcm_seal tmk nonce dek)

  pub wrap_dek_lem :
      (r : Random) (tmk dek nonce : Bytes)
      → IsKey tmk
      → IsNonce r nonce
      → wrap_dek p r tmk dek ≡ ok (wrapped tmk dek nonce)
  unfolding wrap_dek
  wrap_dek_lem r tmk dek nonce hk hr = rw (seal_lem p r tmk nonce dek hk hr)

  pub unwrap_dek_lem :
      (tmk dek nonce : Bytes)
      → IsKey tmk
      → length nonce ≡ 12
      → All IsByte nonce
      → All IsByte dek
      → unwrap_dek p tmk (wrapped tmk dek nonce) ≡ ok dek
  unfolding unwrap_dek
  unwrap_dek_lem tmk dek nonce hk hn hb hd =
      let sealed = p.gcm_seal tmk nonce dek in
      rw (
        Base64.decode-encode (nonce ++ sealed)
            (All-append IsByte nonce sealed hb (aead.seal-bytes tmk nonce dek hd)),
        open_blob-append p (text wrapped_dek_too_short []) tmk nonce sealed hk hn
            (omega (arith, aead.length-seal tmk nonce dek)),
        aead.open-seal tmk nonce dek,
      )

-- For an AEAD that opens what it seals, a tenant key of 32 bytes, a drawn nonce of 12 bytes and a
-- data key of bytes, wrapping a data key succeeds, and unwrapping
-- with the same tenant key gives the data key back.
pub unwrap_dek-wrap_dek :
    (p : Primitives) (r : Random) (tmk dek nonce : Bytes)
    → IsAead p
    → IsKey tmk
    → IsNonce r nonce
    → All IsByte nonce
    → All IsByte dek
    → (w : Bytes) × (wrap_dek p r tmk dek ≡ ok w) × (unwrap_dek p tmk w ≡ ok dek)
unwrap_dek-wrap_dek p r tmk dek nonce aead hk hr hb hd = (
  wrapped p aead tmk dek nonce,
  wrap_dek_lem p aead r tmk dek nonce hk hr,
  unwrap_dek_lem p aead tmk dek nonce hk hr.twelve hb hd,
)

-- For an AEAD that opens what it seals, a new tenant key of 32 bytes and a drawn nonce of 12 bytes:
-- a wrapped key that the old tenant key opens to a data key of bytes is wrapped anew, and the new
-- tenant key opens the result to the same data key.
pub rewrap_dek_idempotent_lem :
    (p : Primitives) (r : Random) (old_tmk new_tmk w dek nonce : Bytes)
    → IsAead p
    → IsKey new_tmk
    → IsNonce r nonce
    → All IsByte nonce
    → All IsByte dek
    → unwrap_dek p old_tmk w ≡ ok dek
    → (w' : Bytes) × (rewrap_dek_idempotent p r old_tmk new_tmk w ≡ ok (w', true))
      × (unwrap_dek p new_tmk w' ≡ ok dek)
unfolding rewrap_dek_idempotent
rewrap_dek_idempotent_lem p r old_tmk new_tmk w dek nonce aead hk hr hb hd opens = (
  wrapped p aead new_tmk dek nonce,
  rw (opens, wrap_dek_lem p aead r new_tmk dek nonce hk hr),
  unwrap_dek_lem p aead new_tmk dek nonce hk hr.twelve hb hd,
)

-- Rotating a second time is harmless, for an AEAD that opens what it seals, a new tenant key of 32
-- bytes, a drawn nonce of 12 bytes and a data key of bytes: if the old tenant key opens `w`, the
-- first rotation made `w'` of it, and the old tenant key gives an error on `w'`, then rotating `w'`
-- returns it as it is and reports no change.
pub rewrap_dek_idempotent_twice :
    (p : Primitives) (r r2 : Random) (old_tmk new_tmk w w' dek nonce : Bytes) (e : Error)
    → IsAead p
    → IsKey new_tmk
    → IsNonce r nonce
    → All IsByte nonce
    → All IsByte dek
    → unwrap_dek p old_tmk w ≡ ok dek
    → rewrap_dek_idempotent p r old_tmk new_tmk w ≡ ok (w', true)
    → unwrap_dek p old_tmk w' ≡ err e
    → rewrap_dek_idempotent p r2 old_tmk new_tmk w' ≡ ok (w', false)
rewrap_dek_idempotent_twice p r r2 old_tmk new_tmk w w' dek nonce e aead hk hr hb hd opens first
      fails =
    let (v, made, again) =
      rewrap_dek_idempotent_lem p r old_tmk new_tmk w dek nonce aead hk hr hb hd opens in
    let same : v ≡ w' = cc (made, first) in
    unfold rewrap_dek_idempotent in rw (fails, ← same, again)

-- A wrapped key that neither tenant key opens is reported with the error of the old key, and
-- nothing is wrapped.
pub rewrap_dek_idempotent_fails :
    (p : Primitives) (r : Random) (old_tmk new_tmk w : Bytes) (e e' : Error)
    → unwrap_dek p old_tmk w ≡ err e
    → unwrap_dek p new_tmk w ≡ err e'
    → rewrap_dek_idempotent p r old_tmk new_tmk w ≡ err (wrap unwrap_failed [] e)
unfolding rewrap_dek_idempotent
rewrap_dek_idempotent_fails p r old_tmk new_tmk w e e' h h' = rw (h, h')
