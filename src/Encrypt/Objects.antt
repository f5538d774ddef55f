-- ===== src/Encrypt/Objects.antt =====
-- About `EncryptObject` and `DecryptObject` of encrypt/encryption.go.
use baas_go_sdk.Base.{
  ◌+◌, ◌≤◌, ◌≡◌, ◌≢◌, some, ◌++◌, arith, length, length-append, take-append, drop-append,
  length-take, le→ltb,
}
use baas_go_sdk.Base.Text.{Bytes}
use baas_go_sdk.Errors.{Error}
use baas_go_sdk.Errors.Outcome.{ok, panic}
use baas_go_sdk.Encrypt.{
  Primitives, IsAead, check_key, aes_gcm_seal, open_blob, opened, encrypt_object, decrypt_object,
  Random,
}

-- What `rand.Read` fills a nonce of 12 bytes with.
pub record IsNonce (r : Random) (nonce : Bytes) : Type 0 where
  pub drawn : r ≡ some nonce
  pub twelve : length nonce ≡ 12

abbrev pub IsKey : Bytes → Type 0
IsKey key = length key ≡ 32

module _ (p : Primitives) where
  pub check_key-IsKey : (key : Bytes) → IsKey key → check_key key ≡ ok tt
  unfolding check_key
  check_key-IsKey key e = rw e

  -- Opening a blob that is a nonce and a sealed text.
  pub open_blob-append :
      (short : Error) (key nonce sealed : Bytes)
      → IsKey key
      → length nonce ≡ 12
      → 1 ≤ length sealed
      → open_blob p short key (nonce ++ sealed) ≡ opened (p.gcm_open key nonce sealed)
  unfolding open_blob
  open_blob-append short key nonce sealed hk hn hs = rw (
    le→ltb (length (nonce ++ sealed)) 13 (omega (arith, length-append nonce sealed)),
    take-append 12 nonce sealed hn,
    drop-append 12 nonce sealed hn,
    check_key-IsKey key hk,
    hn,
  )

  pub seal_lem :
      (r : Random) (key nonce plain : Bytes)
      → IsKey key
      → IsNonce r nonce
      → aes_gcm_seal p r key plain ≡ ok (p.gcm_seal key nonce plain, nonce)
  unfolding aes_gcm_seal
  seal_lem r key nonce plain hk hr = rw (check_key-IsKey key hk, hr.drawn)

  open_blob-ne-panic : (short : Error) (key blob : Bytes) → open_blob p short key blob ≢ panic
  unfolding open_blob check_key
  open_blob-ne-panic short key blob e = ground (arith, length-take 12 blob)

-- For an AEAD that opens what it seals, a key of 32 bytes and a nonce of 12, `EncryptObject` returns a blob that is 28 bytes longer
-- than the text, and `DecryptObject` with that key gives the text back.
pub decrypt_object-encrypt_object :
    (p : Primitives) (r : Random) (key nonce plain : Bytes)
    → IsAead p
    → IsKey key
    → IsNonce r nonce
    → (blob : Bytes) × (encrypt_object p r key plain ≡ ok blob)
      × (length blob ≡ length plain + 28)
      × (decrypt_object p key blob ≡ ok plain)
unfolding encrypt_object decrypt_object
decrypt_object-encrypt_object p r key nonce plain aead hk hr =
    let sealed = p.gcm_seal key nonce plain in
    let len = aead.length-seal key nonce plain in
    (
      nonce ++ sealed,
      rw (seal_lem p r key nonce plain hk hr),
      omega (arith, length-append nonce sealed, hr.twelve),
      rw (
        open_blob-append p _ key nonce sealed hk hr.twelve (omega arith),
        aead.open-seal key nonce plain,
      ),
    )

-- `DecryptObject` never panics, whatever the key and the blob.
pub decrypt_object-ne-panic :
    (p : Primitives) (key blob : Bytes) → decrypt_object p key blob ≢ panic
unfolding decrypt_object
decrypt_object-ne-panic p key blob = open_blob-ne-panic p _ key blob
