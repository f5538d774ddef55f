-- ===== src/Api/Auth.antt =====
-- About api/auth.go: signing in by wallet or email, with the requests that are sent and the client
-- that is left. Keccak, secp256k1, the clock and the user's record are parameters.
use baas_go_sdk.Base.{
  ℕ, ◌+◌, ◌-◌, Bool, ◌&&◌, leb, Option, none, some, List, [], ◌∷◌, ◌++◌, drop, take, length,
  get_elem?, if◌then◌else◌,
}
use baas_go_sdk.Base.Text.{Bytes, codes, str_eq, starts_with}
use baas_go_sdk.Base.Int.{ℤ, pos}
use baas_go_sdk.Encoding.Decimal.{format_int}
use baas_go_sdk.Encoding.Hex
use baas_go_sdk.Json.{Json, Fields}
use baas_go_sdk.Errors.{library, wrap}
use baas_go_sdk.Errors.Kinds.{parse_private_key, request_nonce, sign_message, verify_siwe}
use baas_go_sdk.Errors.Outcome.{Outcome, ok, err, panic, ◌>>=◌, map_err}
use baas_go_sdk.Api.{HttpClient, HttpRequest, Net, Decoder, Reply, set_token}
use baas_go_sdk.Api.Endpoints

abbrev pub api_key_prefix : Bytes
api_key_prefix = codes "lh_"

unfoldable pub has_api_key_prefix : Bytes → Bool
has_api_key_prefix token = starts_with token api_key_prefix

pub record WalletAdapter : Type 0 where
  pub address : Bytes
  pub sign_message : Bytes → Outcome Bytes

abbrev pub wallet_from_signer : Bytes → (Bytes → Outcome Bytes) → WalletAdapter
wallet_from_signer address sign_fn = record { address = address; sign_message = sign_fn }

pub record NonceResponse : Type 0 where
  pub nonce : Bytes
  pub expires_in : ℤ
  pub domain : Bytes
  pub uri : Bytes
  pub chain_id : ℤ

pub record AuthResponse (U : Type 0) : Type 0 where
  pub token : Bytes
  pub user : U

pub record EmailVerifyResponse (U : Type 0) : Type 0 where
  pub verified : Bool
  pub token : Bytes
  pub user : Option U

-- A letter of ASCII in lower case, and in upper case.
abbrev lower : ℕ → ℕ
lower c = if leb b'A' c && leb c b'Z' then c + 32 else c

abbrev upper : ℕ → ℕ
upper c = if leb b'a' c && leb c b'z' then c - 32 else c

unfoldable pub to_lower : Bytes → Bytes
to_lower [] = []
to_lower (c ∷ s) = lower c ∷ to_lower s

abbrev pub trim_0x : Bytes → Bytes
trim_0x s = if starts_with s (codes "0x") then drop 2 s else s

abbrev line : Bytes → Bytes → Bytes
line label value = label ++ (value ++ (b'\n' ∷ []))

unfoldable pub build_siwe_message :
    Bytes → Bytes → Bytes → Bytes → Bytes → ℤ → Bytes → Bytes → Bytes
build_siwe_message domain address statement uri version chain_id nonce issued_at =
    line domain (codes " wants you to sign in with your Ethereum account:")
    ++ (line (codes "") address
        ++ (line (codes "") (codes "")
            ++ (line (codes "") statement
                ++ (line (codes "") (codes "")
                    ++ (line (codes "URI: ") uri
                        ++ (line (codes "Version: ") version
                            ++ (line (codes "Chain ID: ") (format_int chain_id)
                                ++ (line (codes "Nonce: ") nonce
                                    ++ (codes "Issued At: " ++ issued_at)))))))))

-- A field that is left out where its text is empty.
abbrev omit_empty : Bytes → Bytes → Fields → Fields
omit_empty k s fs = if str_eq s (codes "") then fs else Fields.field k (Json.string s) fs

abbrev pub email_register_json : Bytes → Bytes → Bytes → Json
email_register_json email password display_name = Json.object (
    Fields.field (codes "email") (Json.string email) (
      Fields.field (codes "password") (Json.string password)
        (omit_empty (codes "displayName") display_name Fields.end)))

abbrev pub link_identity_json : Bytes → Bytes → Bytes → Json
link_identity_json provider subject password = Json.object (
    Fields.field (codes "provider") (Json.string provider) (
      Fields.field (codes "providerSubject") (Json.string subject)
        (omit_empty (codes "password") password Fields.end)))

-- What a sign-in returns, the requests it has sent, and the client after it.
abbrev pub SignIn : Type 0 → Type 0
SignIn A = Reply A × HttpClient

abbrev pub token_or_same : Bytes → HttpClient → HttpClient
token_or_same token c = if str_eq token (codes "") then c else set_token token c

module _ (net : Net) where
  module _ (now : Bytes) (nonce_d : Decoder NonceResponse) where
    abbrev pub siwe_message : WalletAdapter → NonceResponse → Bytes
    siwe_message wallet nonce_resp =
        build_siwe_message nonce_resp.domain wallet.address (codes "Sign in to Lighthouse Backup")
          nonce_resp.uri (codes "1") nonce_resp.chain_id nonce_resp.nonce now

    module _ {U : Type 0} (auth_d : Decoder (AuthResponse U)) where
      abbrev pub after_verify :
          HttpClient → List HttpRequest → Reply (AuthResponse U) → SignIn Bytes
      after_verify c before (ok resp, sent) =
          ((ok resp.token, before ++ sent), set_token resp.token c)
      after_verify c before (err e, sent) = ((err (wrap verify_siwe [] e), before ++ sent), c)
      after_verify c before (panic, sent) = ((panic, before ++ sent), c)

      abbrev pub after_sign : HttpClient → List HttpRequest → Bytes → Outcome Bytes → SignIn Bytes
      after_sign c before message (ok signature) =
          after_verify c before (Endpoints.verify_siwe net c message signature auth_d)
      after_sign c before message (err e) = ((err (wrap sign_message [] e), before), c)
      after_sign c before message panic = ((panic, before), c)

      abbrev pub after_nonce : HttpClient → WalletAdapter → Reply NonceResponse → SignIn Bytes
      after_nonce c wallet (ok nonce_resp, sent) =
          let message = siwe_message wallet nonce_resp in
          after_sign c sent message (wallet.sign_message message)
      after_nonce c wallet (err e, sent) = ((err (wrap request_nonce [] e), sent), c)
      after_nonce c wallet (panic, sent) = ((panic, sent), c)

      unfoldable pub authenticate : HttpClient → WalletAdapter → SignIn Bytes
      authenticate c wallet =
          after_nonce c wallet (Endpoints.request_nonce net c (to_lower wallet.address) nonce_d)

  abbrev pub with_token : {A : Type 0} → (A → Bytes) → HttpClient → Reply A → SignIn A
  with_token token c (ok resp, sent) = ((ok resp, sent), token_or_same (token resp) c)
  with_token token c (err e, sent) = ((err e, sent), c)
  with_token token c (panic, sent) = ((panic, sent), c)

  abbrev pub register_with_email :
      {A : Type 0} → HttpClient → Bytes → Bytes → Bytes → Decoder A → Reply A
  register_with_email c email password display_name d =
      Endpoints.email_register net c (email_register_json email password display_name) d

  unfoldable pub verify_email :
      {U : Type 0}
      → HttpClient
      → Json
      → Decoder (EmailVerifyResponse U)
      → SignIn (EmailVerifyResponse U)
  verify_email c req d = with_token (λ resp. resp.token) c (Endpoints.email_verify net c req d)

  unfoldable pub login_with_email :
      {U : Type 0} → HttpClient → Bytes → Bytes → Decoder (AuthResponse U) → SignIn (AuthResponse U)
  login_with_email c email password d =
      with_token (λ resp. resp.token) c
        (Endpoints.email_login net c
          (Endpoints.two_fields (codes "email") (Json.string email) (codes "password")
            (Json.string password))
          d)

  abbrev pub link_wallet_identity : {A : Type 0} → HttpClient → Bytes → Decoder A → Reply A
  link_wallet_identity c wallet_address d =
      Endpoints.link_identity net c
        (link_identity_json (codes "siwe") (to_lower wallet_address) (codes "")) d

  abbrev pub link_email_identity : {A : Type 0} → HttpClient → Bytes → Bytes → Decoder A → Reply A
  link_email_identity c email password d =
      Endpoints.link_identity net c (link_identity_json (codes "email_password") email password) d

-- Keccak-256 and the curve: the key behind 32 bytes, its public key uncompressed, and the compact
-- signature of a hash.
pub record Curve : Type 0 where
  pub keccak256 : Bytes → Bytes
  pub public_key : Bytes → Bytes
  pub sign_compact : Bytes → Bytes → Bytes

module _ (curve : Curve) where
  unfoldable pub personal_sign_hash : Bytes → Bytes
  personal_sign_hash msg =
      curve.keccak256
        ((25 ∷ codes "Ethereum Signed Message:\n") ++ (format_int (pos (length msg)) ++ msg))

  abbrev cased : ℕ → Option ℕ → Outcome ℕ
  cased c none = panic
  cased c (some h) = ok (if leb b'8' h then upper c else c)

  -- The letters of an address, against the digits of the hash; a missing digit is a panic.
  unfoldable pub checksum : Bytes → Bytes → Outcome Bytes
  checksum [] hash = ok []
  checksum (c ∷ addr) hash =
      (if leb b'0' c && leb c b'9' then ok c else cased c (get_elem? hash 0)) >>= λ d.
      checksum addr (drop 1 hash) >>= λ ds. ok (d ∷ ds)

  unfoldable pub to_checksum_address : Bytes → Outcome Bytes
  to_checksum_address addr =
      let plain = trim_0x (to_lower addr) in
      checksum plain (Hex.encode (curve.keccak256 plain)) >>= λ s. ok (codes "0x" ++ s)

  abbrev decoded_key : Option Bytes → Outcome Bytes
  decoded_key none = err (library (codes "hex"))
  decoded_key (some key) = ok key

  unfoldable pub parse_key : Bytes → Outcome Bytes
  parse_key hex_key = decoded_key (Hex.decode (trim_0x hex_key))

  abbrev address_from_pub_key : Bytes → Outcome Bytes
  address_from_pub_key uncompressed =
      to_checksum_address (Hex.encode (drop 12 (curve.keccak256 (drop 1 uncompressed))))

  -- The recovery byte goes from the front to the end.
  unfoldable pub sign_personal_message : Bytes → Bytes → Bytes
  sign_personal_message key message =
      let sig = curve.sign_compact key (personal_sign_hash message) in
      codes "0x" ++ Hex.encode (take 64 (drop 1 sig) ++ take 1 sig)

  unfoldable pub wallet_from_private_key : Bytes → Outcome WalletAdapter
  wallet_from_private_key private_key_hex =
      map_err (wrap parse_private_key []) (parse_key private_key_hex) >>= λ key.
      address_from_pub_key (curve.public_key key) >>= λ addr.
      ok (record {
        address = addr;
        sign_message = λ message. ok (sign_personal_message key message);
      })
