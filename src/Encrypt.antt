-- ===== src/Encrypt.antt =====
-- encrypt/encryption.go: keys and sealed objects. AES-GCM, HKDF and the random source are
-- parameters: the first two in the record `Primitives`, and each `rand.Read` is an argument that
-- holds what the call filled in (`none` is its error).
pub mod Objects
pub mod Dek
pub mod Keyfile
use baas_go_sdk.Base.{
  ℕ, zero, suc, ◌+◌, ◌≤◌, ◌≡◌, Bool, true, false, ◌||◌, Option, none, some, List, [], ◌∷◌, ◌++◌,
  ltb, ◌==◌, if◌then◌else◌, length, take, drop, replicate,
}
use baas_go_sdk.Base.Text.{Bytes, codes}
use baas_go_sdk.Base.All.{All}
use baas_go_sdk.Encoding.Hex
use baas_go_sdk.Encoding.Hex.{IsByte}
use baas_go_sdk.Encoding.Base64
use baas_go_sdk.Errors.{Error, text, wrap, library}
use baas_go_sdk.Errors.Kinds.{
  decode_wrapped_dek, wrapped_dek_too_short, unwrap_with_old_tmk, unwrap_failed, decode_hash_hex,
  hkdf_expand, ciphertext_too_short,
}
use baas_go_sdk.Errors.Outcome.{Outcome, ok, err, panic, ◌>>=◌, ◌>>◌, map_err}
use baas_go_sdk.Types.{EncryptionMeta}

abbrev pub key_size : ℕ
key_size = 32

abbrev pub nonce_size : ℕ
nonce_size = 12

-- AES-GCM on a key of a valid size and a nonce of 12 bytes, and HKDF-SHA256 with a key, a salt and
-- an info; `none` is the library's error.
pub record Primitives : Type 0 where
  pub gcm_seal : Bytes → Bytes → Bytes → Bytes
  pub gcm_open : Bytes → Bytes → Bytes → Option Bytes
  pub hkdf : Bytes → Bytes → Bytes → ℕ → Option Bytes

-- What the code relies on: opening with the same key and nonce gives back what was sealed, a sealed
-- text is a tag of 16 bytes longer, and it is a list of bytes where the text is one.
pub record IsAead (p : Primitives) : Type 0 where
  pub open-seal :
      (key nonce plain : Bytes) → p.gcm_open key nonce (p.gcm_seal key nonce plain) ≡ some plain
  pub length-seal :
      (key nonce plain : Bytes) → length (p.gcm_seal key nonce plain) ≡ length plain + 16
  pub seal-bytes :
      (key nonce plain : Bytes) → All IsByte plain → All IsByte (p.gcm_seal key nonce plain)

-- One call of `rand.Read`.
abbrev pub Random : Type 0
Random = Option Bytes

abbrev pub rand_read : Random → Outcome Bytes
rand_read none = err (library (codes "rand"))
rand_read (some bytes) = ok bytes

-- `aes.NewCipher` takes keys of 16, 24 and 32 bytes.
unfoldable pub check_key : Bytes → Outcome (Unit {0})
check_key key =
    let n = length key in
    if n == 16 || (n == 24 || n == 32) then ok tt else err (library (codes "key size"))

abbrev pub opened : Option Bytes → Outcome Bytes
opened none = err (library (codes "message authentication failed"))
opened (some plain) = ok plain

module _ (p : Primitives) where
  -- The sealed text and the nonce.
  unfoldable pub aes_gcm_seal : Random → Bytes → Bytes → Outcome (Bytes × Bytes)
  unfolding check_key
  aes_gcm_seal r key plaintext = do
    check_key key
    nonce ← rand_read r
    ok (p.gcm_seal key nonce plaintext, nonce)

  -- `gcm.Open` panics on a nonce of another length.
  unfoldable pub aes_gcm_open : Bytes → Bytes → Bytes → Outcome Bytes
  unfolding check_key
  aes_gcm_open key nonce ciphertext = do
    check_key key
    if length nonce == nonce_size then opened (p.gcm_open key nonce ciphertext) else panic

-- `GenerateDEK`
unfoldable pub generate_dek : Random → Outcome Bytes
generate_dek r = rand_read r

module _ (p : Primitives) where
  unfoldable pub wrap_dek : Random → Bytes → Bytes → Outcome Bytes
  unfolding aes_gcm_seal
  wrap_dek r tmk dek =
      aes_gcm_seal p r tmk dek >>= λ (sealed, nonce). ok (Base64.encode (nonce ++ sealed))

  -- The sealed part behind the nonce; `short` is the error of a blob that is too short.
  unfoldable pub open_blob : Error → Bytes → Bytes → Outcome Bytes
  unfolding aes_gcm_open
  open_blob short key blob =
      if ltb (length blob) (nonce_size + 1)
      then err short
      else aes_gcm_open p key (take nonce_size blob) (drop nonce_size blob)

  abbrev decoded_blob : Bytes → Option Bytes → Outcome Bytes
  decoded_blob tmk none = err (wrap decode_wrapped_dek [] (library (codes "base64")))
  decoded_blob tmk (some blob) = open_blob (text wrapped_dek_too_short []) tmk blob

  unfoldable pub unwrap_dek : Bytes → Bytes → Outcome Bytes
  unfolding open_blob
  unwrap_dek tmk wrapped = decoded_blob tmk (Base64.decode wrapped)

  unfoldable pub rewrap_dek : Random → Bytes → Bytes → Bytes → Outcome Bytes
  unfolding unwrap_dek wrap_dek
  rewrap_dek r old_tmk new_tmk wrapped = do
    dek ← map_err (wrap unwrap_with_old_tmk []) (unwrap_dek old_tmk wrapped)
    wrap_dek r new_tmk dek

  -- The second attempt, with the new key, when the old one failed with `e`.
  abbrev already_wrapped : Error → Bytes → Outcome Bytes → Outcome (Bytes × Bool)
  already_wrapped e wrapped (ok _) = ok (wrapped, false)
  already_wrapped e wrapped (err _) = err (wrap unwrap_failed [] e)
  already_wrapped e wrapped panic = panic

  abbrev rewrapped : Outcome Bytes → Outcome (Bytes × Bool)
  rewrapped o = o >>= λ w. ok (w, true)

  abbrev rewrap_from : Random → Bytes → Bytes → Outcome Bytes → Outcome (Bytes × Bool)
  rewrap_from r new_tmk wrapped (ok dek) = rewrapped (wrap_dek r new_tmk dek)
  rewrap_from r new_tmk wrapped (err e) = already_wrapped e wrapped (unwrap_dek new_tmk wrapped)
  rewrap_from r new_tmk wrapped panic = panic

  -- The wrapped key, and whether it changed.
  unfoldable pub rewrap_dek_idempotent : Random → Bytes → Bytes → Bytes → Outcome (Bytes × Bool)
  unfolding unwrap_dek wrap_dek
  rewrap_dek_idempotent r old_tmk new_tmk wrapped =
      rewrap_from r new_tmk wrapped (unwrap_dek old_tmk wrapped)

abbrev pub hkdf_label_data : Bytes
hkdf_label_data = codes "lighthouse/enc/v1/data"

abbrev pub hkdf_label_tree : Bytes
hkdf_label_tree = codes "lighthouse/enc/v1/tree"

abbrev pub hkdf_salt : Bytes
hkdf_salt = replicate 32 0

abbrev decoded_hash : Option Bytes → Outcome Bytes
decoded_hash none = err (wrap decode_hash_hex [] (library (codes "hex")))
decoded_hash (some bytes) = ok bytes

abbrev expanded : Option Bytes → Outcome Bytes
expanded none = err (wrap hkdf_expand [] (library (codes "hkdf")))
expanded (some key) = ok key

module _ (p : Primitives) where
  unfoldable pub derive_object_key : Bytes → Bytes → Bytes → Outcome Bytes
  derive_object_key dek label plaintext_hash_hex = do
    hash_bytes ← decoded_hash (Hex.decode plaintext_hash_hex)
    expanded (p.hkdf dek hkdf_salt (label ++ hash_bytes) key_size)

  unfoldable pub derive_data_key : Bytes → Bytes → Outcome Bytes
  derive_data_key dek hash = derive_object_key dek hkdf_label_data hash

  unfoldable pub derive_tree_key : Bytes → Bytes → Outcome Bytes
  derive_tree_key dek hash = derive_object_key dek hkdf_label_tree hash

  unfoldable pub encrypt_object : Random → Bytes → Bytes → Outcome Bytes
  unfolding aes_gcm_seal
  encrypt_object r key plaintext =
      aes_gcm_seal p r key plaintext >>= λ (sealed, nonce). ok (nonce ++ sealed)

  unfoldable pub decrypt_object : Bytes → Bytes → Outcome Bytes
  unfolding open_blob
  decrypt_object key blob = open_blob p (text ciphertext_too_short []) key blob

-- `NewEncryptionMeta`
abbrev pub new_encryption_meta : EncryptionMeta
new_encryption_meta = record {
  scheme = codes "lighthouse-v1";
  dek_wrapped_with = codes "aes-256-gcm";
}
