-- ===== src/Tests/Keys.antt =====
-- Keys, sealed objects, wrapped keys and keyfiles, with the toy libraries.
use baas_go_sdk.Base.{
  ℕ, zero, suc, ◌++◌, ◌+◌, ◌≡◌, refl, ◌∙◌, true, some, [], ◌∷◌, arith, length, replicate,
}
use baas_go_sdk.Base.Text.{Bytes, codes, str_eq}
use baas_go_sdk.Base.All.{All, All-append}
use baas_go_sdk.Encoding.Base64
use baas_go_sdk.Encoding.Hex.{IsByte}
use baas_go_sdk.Errors.{Error, text, wrap, library}
use baas_go_sdk.Errors.Kinds.{unwrap_failed, wrapped_dek_too_short}
use baas_go_sdk.Errors.Outcome.{ok, err}
use baas_go_sdk.Encrypt.{
  Primitives, encrypt_object, decrypt_object, open_blob, aes_gcm_open, check_key, wrap_dek,
  unwrap_dek, rewrap_dek_idempotent, Random,
}
use baas_go_sdk.Encrypt.Objects.{IsNonce, decrypt_object-encrypt_object}
use baas_go_sdk.Encrypt.Dek.{
  wrapped, wrap_dek_lem, unwrap_dek_lem, unwrap_dek-wrap_dek, rewrap_dek_idempotent_lem,
  rewrap_dek_idempotent_fails,
}
use baas_go_sdk.Encrypt.Keyfile.{Disk, generate_keyfile, open_keyfile, default_argon2_params}
use baas_go_sdk.Encrypt.Keyfile.RoundTrip.{open_keyfile-generate_keyfile}
use baas_go_sdk.Tests.Toys.{
  toy_primitives, toy_primitives-IsAead, toy_keyfiles, toy_keyfiles-IsKeyfileLibrary,
}

abbrev key : Bytes
key = replicate 32 1

abbrev new_key : Bytes
new_key = replicate 32 2

abbrev nonce : Bytes
nonce = replicate 12 9

abbrev dek : Bytes
dek = replicate 32 3

abbrev drawn : Random
drawn = some nonce

drawn-IsNonce : IsNonce drawn nonce
drawn-IsNonce = record { drawn = refl; twelve = refl }

replicate-bytes : (n b : ℕ) → IsByte b → All IsByte (replicate n b)
replicate-bytes zero b h = tt
replicate-bytes (suc n) b h = (h, replicate-bytes n b h)

nonce-bytes : All IsByte nonce
nonce-bytes = replicate-bytes 12 9 (omega arith)

dek-bytes : All IsByte dek
dek-bytes = replicate-bytes 32 3 (omega arith)

decrypt_object-encrypt_object_example :
    (blob : Bytes) × (encrypt_object toy_primitives drawn key (7 ∷ 8 ∷ []) ≡ ok blob)
    × (length blob ≡ 2 + 28)
    × (decrypt_object toy_primitives key blob ≡ ok (7 ∷ 8 ∷ []))
decrypt_object-encrypt_object_example =
    decrypt_object-encrypt_object toy_primitives drawn key nonce (7 ∷ 8 ∷ []) toy_primitives-IsAead
      refl drawn-IsNonce

unwrap_dek-wrap_dek_example :
    (w : Bytes) × (wrap_dek toy_primitives drawn key dek ≡ ok w)
    × (unwrap_dek toy_primitives key w ≡ ok dek)
unwrap_dek-wrap_dek_example =
    unwrap_dek-wrap_dek toy_primitives drawn key dek nonce toy_primitives-IsAead refl drawn-IsNonce
      nonce-bytes dek-bytes

-- The data key under a key.
abbrev wrapped_with : Bytes → Bytes
wrapped_with k = wrapped toy_primitives toy_primitives-IsAead k dek nonce

opens_with_key : unwrap_dek toy_primitives key (wrapped_with key) ≡ ok dek
opens_with_key =
    unwrap_dek_lem toy_primitives toy_primitives-IsAead key dek nonce refl refl nonce-bytes
      dek-bytes

abbrev refused : Error
refused = library (codes "message authentication failed")

-- A key with another first byte does not open it.
fails_with :
    (k other : Bytes)
    → All IsByte (toy_primitives.gcm_seal k nonce dek)
    → unwrap_dek toy_primitives other (wrapped_with k)
      ≡ open_blob toy_primitives
          (text wrapped_dek_too_short [])
          other
          (nonce ++ toy_primitives.gcm_seal k nonce dek)
unfolding unwrap_dek
fails_with k other h = rw (
    Base64.decode-encode (nonce ++ toy_primitives.gcm_seal k nonce dek)
      (All-append IsByte nonce (toy_primitives.gcm_seal k nonce dek) nonce-bytes h))

sealed-bytes : (k : Bytes) → All IsByte (toy_primitives.gcm_seal k nonce dek)
sealed-bytes k = toy_primitives-IsAead.seal-bytes k nonce dek dek-bytes

old_fails : unwrap_dek toy_primitives key (wrapped_with new_key) ≡ err refused
old_fails =
    fails_with new_key key (sealed-bytes new_key)
    ∙ unfold open_blob aes_gcm_open check_key str_eq in refl

new_fails : unwrap_dek toy_primitives new_key (wrapped_with key) ≡ err refused
new_fails =
    fails_with key new_key (sealed-bytes key)
    ∙ unfold open_blob aes_gcm_open check_key str_eq in refl

third_fails : unwrap_dek toy_primitives (replicate 32 4) (wrapped_with key) ≡ err refused
third_fails =
    fails_with key (replicate 32 4) (sealed-bytes key)
    ∙ unfold open_blob aes_gcm_open check_key str_eq in refl

rewraps :
    (p : Primitives) (r : Random) (old_tmk new_tmk w w' d : Bytes)
    → unwrap_dek p old_tmk w ≡ ok d
    → wrap_dek p r new_tmk d ≡ ok w'
    → rewrap_dek_idempotent p r old_tmk new_tmk w ≡ ok (w', true)
unfolding rewrap_dek_idempotent
rewraps p r old_tmk new_tmk w w' d opens wraps = rw (opens, wraps)

rotated :
    rewrap_dek_idempotent toy_primitives drawn key new_key (wrapped_with key)
    ≡ ok (wrapped_with new_key, true)
rotated =
    rewraps toy_primitives drawn key new_key (wrapped_with key) (wrapped_with new_key) dek
      opens_with_key
      (wrap_dek_lem toy_primitives toy_primitives-IsAead drawn new_key dek nonce refl drawn-IsNonce)

rewrap_dek_idempotent_fails_example :
    rewrap_dek_idempotent toy_primitives drawn new_key (replicate 32 4) (wrapped_with key)
    ≡ err (wrap unwrap_failed [] refused)
rewrap_dek_idempotent_fails_example =
    rewrap_dek_idempotent_fails toy_primitives drawn new_key (replicate 32 4) (wrapped_with key)
      refused refused new_fails third_fails

rewrap_dek_idempotent_lem_example :
    (w' : Bytes) × (rewrap_dek_idempotent toy_primitives drawn key new_key (wrapped_with key)
      ≡ ok (w', true))
    × (unwrap_dek toy_primitives new_key w' ≡ ok dek)
rewrap_dek_idempotent_lem_example =
    rewrap_dek_idempotent_lem toy_primitives drawn key new_key (wrapped_with key) dek nonce
      toy_primitives-IsAead refl drawn-IsNonce nonce-bytes dek-bytes opens_with_key

abbrev empty_disk : Disk
empty_disk = record { files = []; writable = λ path. true }

open_keyfile-generate_keyfile_example :
    (disk' : Disk) × (generate_keyfile toy_primitives toy_keyfiles
        (some key)
        (some nonce)
        drawn
        (codes "k")
        (codes "pass")
        (some default_argon2_params)
        empty_disk
      ≡ (ok key, disk'))
    × (open_keyfile toy_primitives toy_keyfiles (codes "k") (codes "pass") disk' ≡ ok key)
open_keyfile-generate_keyfile_example =
    open_keyfile-generate_keyfile toy_primitives toy_keyfiles (some key) (some nonce) drawn
      (codes "k") (codes "pass") default_argon2_params empty_disk key nonce nonce (replicate 32 4)
      toy_primitives-IsAead toy_keyfiles-IsKeyfileLibrary
      (record {
        tmk_drawn = refl;
        salt_drawn = refl;
        nonce_drawn = drawn-IsNonce;
        tmk_bytes = replicate-bytes 32 1 (omega arith);
        salt_bytes = nonce-bytes;
        nonce_bytes = nonce-bytes;
        derived = refl;
      })
      refl
