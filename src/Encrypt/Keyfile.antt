-- ===== src/Encrypt/Keyfile.antt =====
-- The keyfile that holds the tenant key under a passphrase. Argon2, the JSON text of the keyfile
-- and the file system are parameters: a file is what a path holds, and `none` is no file.
pub mod RoundTrip
use baas_go_sdk.Base.{
  ℕ, ◌+◌, ◌*◌, ◌≤◌, ◌≡◌, refl, Bool, true, false, not, Option, none, some, List, [], ◌∷◌, ◌==◌,
  if◌then◌else◌, length, arith,
}
use baas_go_sdk.Base.Text.{Bytes, codes, str_eq, str_eq_refl}
use baas_go_sdk.Base.Int.{ℤ, pos, negsuc}
use baas_go_sdk.Base.All.{All}
use baas_go_sdk.Base.Dict.{Dict, lookup, insert, lookup-insert}
use baas_go_sdk.Encoding.Base64
use baas_go_sdk.Encoding.Hex.{IsByte}
use baas_go_sdk.Errors.{Error, text, wrap, library}
use baas_go_sdk.Errors.Kinds.{
  generate_tmk, generate_salt, seal_tmk, write_keyfile, read_keyfile, parse_keyfile,
  unsupported_version, decode_salt, decode_nonce, decode_ciphertext, decrypt_tmk,
  passphrase_callback, passphrase_required,
}
use baas_go_sdk.Errors.Outcome.{Outcome, ok, err, panic, ◌>>=◌, ◌>>◌, map_err}
use baas_go_sdk.Encrypt.{
  Primitives, IsAead, Random, rand_read, aes_gcm_seal, aes_gcm_open, check_key, opened,
}
use baas_go_sdk.Encrypt.Objects.{IsNonce, IsKey, seal_lem, check_key-IsKey}

pub record Argon2Params : Type 0 where
  pub time : ℕ
  pub memory : ℕ
  pub threads : ℕ
  pub salt : Bytes

abbrev pub default_argon2_params : Argon2Params
default_argon2_params = record { time = 3; memory = 64 * 1024; threads = 4; salt = [] }

pub record KeyfileTmk : Type 0 where
  pub nonce : Bytes
  pub ciphertext : Bytes

pub record KeyfileData : Type 0 where
  pub version : ℤ
  pub algorithm : Bytes
  pub params : Argon2Params
  pub tmk : KeyfileTmk

-- `argon2.IDKey` with a key of 32 bytes (`none` is its panic on parameters out of range), and the
-- JSON text of a keyfile.
pub record KeyfileLibrary : Type 0 where
  pub id_key : Bytes → Bytes → ℕ → ℕ → ℕ → Option Bytes
  pub marshal : KeyfileData → Bytes
  pub unmarshal : Bytes → Option KeyfileData

-- A keyfile whose texts are base64.
abbrev pub keyfile_of : Argon2Params → Bytes → Bytes → Bytes → KeyfileData
keyfile_of params salt nonce sealed = record {
  version = pos 1;
  algorithm = codes "argon2id";
  params = record params { salt = Base64.encode salt };
  tmk = record { nonce = Base64.encode nonce; ciphertext = Base64.encode sealed };
}

-- What the code relies on: the key has 32 bytes, and a keyfile whose texts are base64 is read as it
-- was written.
pub record IsKeyfileLibrary (k : KeyfileLibrary) : Type 0 where
  pub id_key-IsKey :
      (pass salt : Bytes) (time memory threads : ℕ) (key : Bytes)
      → k.id_key pass salt time memory threads ≡ some key
      → IsKey key
  pub unmarshal-marshal :
      (params : Argon2Params) (salt nonce sealed : Bytes)
      → k.unmarshal (k.marshal (keyfile_of params salt nonce sealed))
        ≡ some (keyfile_of params salt nonce sealed)

pub record Disk : Type 0 where
  pub files : Dict Bytes
  pub writable : Bytes → Bool

abbrev or_panic : Option Bytes → Outcome Bytes
or_panic none = panic
or_panic (some key) = ok key

abbrev or_error : Error → Option Bytes → Outcome Bytes
or_error e none = err e
or_error e (some bytes) = ok bytes

abbrev or_default : Option Argon2Params → Argon2Params
or_default none = default_argon2_params
or_default (some params) = params

module _ (p : Primitives) (k : KeyfileLibrary) where
  -- The tenant key, and the keyfile's data: everything before the file is written.
  unfoldable pub make_keyfile :
      Random → Random → Random → Bytes → Argon2Params → Outcome (Bytes × KeyfileData)
  make_keyfile tmk_r salt_r nonce_r passphrase params = do
    tmk ← map_err (wrap generate_tmk []) (rand_read tmk_r)
    salt ← map_err (wrap generate_salt []) (rand_read salt_r)
    kek ← or_panic (k.id_key passphrase salt params.time params.memory params.threads)
    sealed ← map_err (wrap seal_tmk []) (aes_gcm_seal p nonce_r kek tmk)
    ok (tmk, keyfile_of params salt sealed.1 sealed.0)

  abbrev write_file : Bytes → Disk → Outcome (Bytes × KeyfileData) → Outcome Bytes × Disk
  write_file path disk (ok (tmk, kf)) =
      if disk.writable path
      then (ok tmk, record disk { files = insert path (k.marshal kf) disk.files })
      else (err (wrap write_keyfile [] (library (codes "write"))), disk)
  write_file path disk (err e) = (err e, disk)
  write_file path disk panic = (panic, disk)

  unfoldable pub generate_keyfile :
      Random → Random → Random → Bytes → Bytes → Option Argon2Params → Disk → Outcome Bytes × Disk
  unfolding make_keyfile
  generate_keyfile tmk_r salt_r nonce_r path passphrase params disk =
      write_file path disk (make_keyfile tmk_r salt_r nonce_r passphrase (or_default params))

  abbrev parsed : Option KeyfileData → Outcome KeyfileData
  parsed none = err (wrap parse_keyfile [] (library (codes "json")))
  parsed (some kf) = ok kf

  abbrev check_version : ℤ → Outcome (Unit {0})
  check_version (pos n) = if n == 1 then ok tt else err (text unsupported_version [])
  check_version (negsuc n) = err (text unsupported_version [])

  abbrev base64_error : Error
  base64_error = library (codes "base64")

  unfoldable pub open_keyfile : Bytes → Bytes → Disk → Outcome Bytes
  open_keyfile path passphrase disk = do
    raw ← or_error (wrap read_keyfile [] (library (codes "read"))) (lookup path disk.files)
    kf ← parsed (k.unmarshal raw)
    check_version kf.version
    salt ← or_error (wrap decode_salt [] base64_error) (Base64.decode kf.params.salt)
    nonce ← or_error (wrap decode_nonce [] base64_error) (Base64.decode kf.tmk.nonce)
    sealed ← or_error (wrap decode_ciphertext [] base64_error) (Base64.decode kf.tmk.ciphertext)
    kek ← or_panic (k.id_key passphrase salt kf.params.time kf.params.memory kf.params.threads)
    map_err (wrap decrypt_tmk []) (aes_gcm_open p kek nonce sealed)

pub record EncryptionOptions : Type 0 where
  pub keyfile_path : Bytes
  pub passphrase : Bytes
  -- what calling the callback gives
  pub passphrase_func : Option (Outcome Bytes)

abbrev ask : Bytes → Option (Outcome Bytes) → Outcome Bytes
ask passphrase none = ok passphrase
ask passphrase (some answer) =
    if str_eq passphrase (codes "")
    then map_err (wrap passphrase_callback []) answer
    else ok passphrase

unfoldable pub load_tmk : Primitives → KeyfileLibrary → EncryptionOptions → Disk → Outcome Bytes
load_tmk p k opts disk = ask opts.passphrase opts.passphrase_func >>= λ passphrase.
    if str_eq passphrase (codes "")
    then err (text passphrase_required [])
    else open_keyfile p k opts.keyfile_path passphrase disk
