-- ===== src/Encrypt/Keyfile/RoundTrip.antt =====
-- About `GenerateKeyfile` and `OpenKeyfile` of encrypt/encryption.go.
use baas_go_sdk.Base.{◌≡◌, true, some}
use baas_go_sdk.Base.Text.{Bytes, str_eq_refl}
use baas_go_sdk.Base.All.{All}
use baas_go_sdk.Base.Dict.{insert, lookup-insert}
use baas_go_sdk.Encoding.Base64
use baas_go_sdk.Encoding.Hex.{IsByte}
use baas_go_sdk.Errors.Outcome.{ok}
use baas_go_sdk.Encrypt.{Primitives, IsAead, Random, aes_gcm_open}
use baas_go_sdk.Encrypt.Objects.{IsNonce, seal_lem, check_key-IsKey}
use baas_go_sdk.Encrypt.Keyfile.{
  Argon2Params, KeyfileLibrary, IsKeyfileLibrary, Disk, make_keyfile, generate_keyfile,
  open_keyfile, keyfile_of,
}

-- The random bytes of one run, and the key that the passphrase gives.
pub record Draws (k : KeyfileLibrary) (tmk_r salt_r nonce_r : Random) (pass : Bytes)
    (params : Argon2Params) (tmk salt nonce kek : Bytes) : Type 0 where
  pub tmk_drawn : tmk_r ≡ some tmk
  pub salt_drawn : salt_r ≡ some salt
  pub nonce_drawn : IsNonce nonce_r nonce
  pub tmk_bytes : All IsByte tmk
  pub salt_bytes : All IsByte salt
  pub nonce_bytes : All IsByte nonce
  pub derived : k.id_key pass salt params.time params.memory params.threads ≡ some kek

make_keyfile_lem :
    (p : Primitives) (k : KeyfileLibrary) (tmk_r salt_r nonce_r : Random) (pass : Bytes)
    (params : Argon2Params) (tmk salt nonce kek : Bytes)
    → IsKeyfileLibrary k
    → Draws k tmk_r salt_r nonce_r pass params tmk salt nonce kek
    → make_keyfile p k tmk_r salt_r nonce_r pass params
      ≡ ok (tmk, keyfile_of params salt nonce (p.gcm_seal kek nonce tmk))
unfolding make_keyfile
make_keyfile_lem p k tmk_r salt_r nonce_r pass params tmk salt nonce kek lib draws = rw (
  draws.tmk_drawn,
  draws.salt_drawn,
  draws.derived,
  seal_lem p nonce_r kek nonce tmk
      (lib.id_key-IsKey pass salt params.time params.memory params.threads kek draws.derived)
      draws.nonce_drawn,
)

-- For an AEAD that opens what it seals and a keyfile library that reads what it writes: where the
-- random source gives bytes and a nonce of 12, and the key derivation and the file write succeed,
-- `GenerateKeyfile` returns
-- the new tenant key, and `OpenKeyfile` with the same path and passphrase reads that key from the
-- disk that it leaves.
pub open_keyfile-generate_keyfile :
    (p : Primitives) (k : KeyfileLibrary) (tmk_r salt_r nonce_r : Random) (path pass : Bytes)
    (params : Argon2Params) (disk : Disk) (tmk salt nonce kek : Bytes)
    → IsAead p
    → IsKeyfileLibrary k
    → Draws k tmk_r salt_r nonce_r pass params tmk salt nonce kek
    → disk.writable path ≡ true
    → (disk' : Disk) × (generate_keyfile p k tmk_r salt_r nonce_r path pass (some params) disk
        ≡ (ok tmk, disk'))
      × (open_keyfile p k path pass disk' ≡ ok tmk)
open_keyfile-generate_keyfile p k tmk_r salt_r nonce_r path pass params disk tmk salt nonce kek aead
      lib draws writable =
    let kf = keyfile_of params salt nonce (p.gcm_seal kek nonce tmk) in
    let is_key =
      lib.id_key-IsKey pass salt params.time params.memory params.threads kek draws.derived in
    (
      record disk { files = insert path (k.marshal kf) disk.files },
      unfold generate_keyfile in
          rw (
            make_keyfile_lem p k tmk_r salt_r nonce_r pass params tmk salt nonce kek lib draws,
            writable,
          ),
      unfold open_keyfile in
          rw
            (
              lookup-insert,
              str_eq_refl path,
              lib.unmarshal-marshal params salt nonce (p.gcm_seal kek nonce tmk),
              Base64.decode-encode salt draws.salt_bytes,
              Base64.decode-encode nonce draws.nonce_bytes,
              Base64.decode-encode (p.gcm_seal kek nonce tmk)
                  (aead.seal-bytes kek nonce tmk draws.tmk_bytes),
              draws.derived,
            )
            (unfold aes_gcm_open in
              rw (
                check_key-IsKey p kek is_key,
                draws.nonce_drawn.twelve,
                aead.open-seal kek nonce tmk,
              )),
    )
