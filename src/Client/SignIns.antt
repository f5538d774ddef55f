-- ===== src/Client/SignIns.antt =====
-- About the sign-ins of BackupClient in client/client.go: what they leave of the client.
use mathlib.Core.Bool.{false≢true}
use baas_go_sdk.Base.{
  ◌≡◌, refl, sym, ap, ◌∙◌, true, false, not, ◌||◌, Option, none, some, List, [], if◌then◌else◌,
}
use mathlib.Core.Path.{subst}
use baas_go_sdk.Base.Text.{Bytes, codes, str_eq}
use baas_go_sdk.Json.{Json}
use baas_go_sdk.Errors.{text}
use baas_go_sdk.Errors.Kinds.{email_needs_password}
use baas_go_sdk.Errors.Outcome.{Outcome, ok, err, panic}
use baas_go_sdk.Api
use baas_go_sdk.Api.{
  HttpClient, HttpRequest, Net, Decoder, Reply, trimmed, trim_right, new_http_client,
}
use baas_go_sdk.Api.Endpoints
use baas_go_sdk.Api.Auth
use baas_go_sdk.Api.Auth.{
  WalletAdapter, after_verify, after_sign, after_nonce, with_token, NonceResponse, AuthResponse,
  EmailVerifyResponse, SignIn, token_or_same,
}
use baas_go_sdk.Client.{
  BackupClient, with_http, signed_in, signed_in_by, verified_by, by_wallet, authenticate,
  authenticate_email, verify_email,
}
use baas_go_sdk.Client.Reach.{Trimmed, WellFormed}

module _ (c : BackupClient) (w : WellFormed c) where
  pub WellFormed-signed_in :
      (http : HttpClient) → http.base_url ≡ c.http.base_url → WellFormed (signed_in http c)
  WellFormed-signed_in http same = record {
    token_signed = λ h. absurd (false≢true (sym h));
    trimmed = subst Trimmed (sym same) w.trimmed;
    workers = w.workers;
  }

  pub WellFormed-with_http :
      (http : HttpClient)
      → http.base_url ≡ c.http.base_url
      → http.token ≡ c.http.token
      → WellFormed (with_http http c)
  WellFormed-with_http http same token = record {
    token_signed = λ h. token ∙ w.token_signed h;
    trimmed = subst Trimmed (sym same) w.trimmed;
    workers = w.workers;
  }

  -- A sign-in that leaves the base URL, and the token where it fails.
  abbrev Kept : {A : Type 0} → SignIn A → Type 0
  Kept ((ok _, _), http) = http.base_url ≡ c.http.base_url
  Kept ((err _, _), http) = http ≡ c.http
  Kept ((panic, _), http) = http ≡ c.http

  signed_in_by-WellFormed : {A : Type 0} (s : SignIn A) → Kept s → WellFormed (signed_in_by c s).1
  signed_in_by-WellFormed ((ok a, sent), http) same = WellFormed-signed_in http same
  signed_in_by-WellFormed ((err e, sent), http) same =
      WellFormed-with_http http (ap (λ h. h.base_url) same) (ap (λ h. h.token) same)
  signed_in_by-WellFormed ((panic, sent), http) same =
      WellFormed-with_http http (ap (λ h. h.base_url) same) (ap (λ h. h.token) same)

  token_or_same-base : (token : Bytes) → (token_or_same token c.http).base_url ≡ c.http.base_url
  unfolding Api.set_token
  token_or_same-base token =
      elim (str_eq token (codes ""))
        as (λ b. (if b then c.http else Api.set_token token c.http).base_url ≡ c.http.base_url) [
          | true ↦ refl
          | false ↦ refl
        ]

  with_token-Kept :
      {A : Type 0} (net : Net) (token : A → Bytes) (reply : Reply A)
      → Kept (with_token net token c.http reply)
  with_token-Kept net token (ok resp, sent) = token_or_same-base (token resp)
  with_token-Kept net token (err e, sent) = refl
  with_token-Kept net token (panic, sent) = refl

  module _ (net : Net) {U : Type 0} where
    pub email-WellFormed :
        (d : Decoder (AuthResponse U)) → WellFormed (authenticate_email net d c).1
    unfolding authenticate_email Auth.login_with_email
    email-WellFormed d =
        let s = Auth.login_with_email net c.http c.email c.password d in
        elim (str_eq c.email (codes "") || str_eq c.password (codes ""))
          as (λ b.
            WellFormed
              (if b then ((err (text email_needs_password []), []), c) else signed_in_by c s).1) [
                | true ↦ w
                | false ↦ signed_in_by-WellFormed s (with_token-Kept net (λ resp. resp.token) _)
              ]

    verified-WellFormed :
        (reply : Reply (EmailVerifyResponse U))
        → WellFormed (verified_by c (with_token net (λ resp. resp.token) c.http reply)).1
    unfolding Api.set_token
    verified-WellFormed (ok resp, sent) =
        elim (str_eq resp.token (codes ""))
          as (λ b. WellFormed (
            if not b
            then signed_in (if b then c.http else Api.set_token resp.token c.http) c
            else with_http (if b then c.http else Api.set_token resp.token c.http) c)) [
              | true ↦ WellFormed-with_http c.http refl refl
              | false ↦ WellFormed-signed_in (Api.set_token resp.token c.http) refl
            ]
    verified-WellFormed (err e, sent) = WellFormed-with_http c.http refl refl
    verified-WellFormed (panic, sent) = WellFormed-with_http c.http refl refl

    pub verify-WellFormed :
        (d : Decoder (EmailVerifyResponse U)) (req : Json) → WellFormed (verify_email net d req c).1
    unfolding verify_email Auth.verify_email
    verify-WellFormed d req = verified-WellFormed _

    module _ (now : Bytes) (nonce_d : Decoder NonceResponse)
        (auth_d : Decoder (AuthResponse U)) where
      after_verify-Kept :
          (before : List HttpRequest) (reply : Reply (AuthResponse U))
          → Kept (after_verify net now nonce_d auth_d c.http before reply)
      unfolding Api.set_token
      after_verify-Kept before (ok resp, sent) = refl
      after_verify-Kept before (err e, sent) = refl
      after_verify-Kept before (panic, sent) = refl

      after_sign-Kept :
          (before : List HttpRequest) (message : Bytes) (o : Outcome Bytes)
          → Kept (after_sign net now nonce_d auth_d c.http before message o)
      after_sign-Kept before message (ok signature) = after_verify-Kept before _
      after_sign-Kept before message (err e) = refl
      after_sign-Kept before message panic = refl

      after_nonce-Kept :
          (wallet : WalletAdapter) (reply : Reply NonceResponse)
          → Kept (after_nonce net now nonce_d auth_d c.http wallet reply)
      after_nonce-Kept wallet (ok nonce_resp, sent) = after_sign-Kept sent _ _
      after_nonce-Kept wallet (err e, sent) = refl
      after_nonce-Kept wallet (panic, sent) = refl

      by_wallet-WellFormed :
          (o : Option WalletAdapter) → WellFormed (by_wallet net now nonce_d auth_d c o).1
      unfolding Auth.authenticate
      by_wallet-WellFormed none = w
      by_wallet-WellFormed (some wallet) =
          let reply = Endpoints.request_nonce net c.http (Auth.to_lower wallet.address) nonce_d in
          signed_in_by-WellFormed (after_nonce net now nonce_d auth_d c.http wallet reply)
            (after_nonce-Kept wallet reply)

      pub wallet-WellFormed : WellFormed (authenticate net now nonce_d auth_d c).1
      unfolding authenticate
      wallet-WellFormed = by_wallet-WellFormed c.wallet
