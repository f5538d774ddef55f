-- ===== src/Client.antt =====
-- About BackupClient of client/client.go: its state, how it is made, and the operations that
-- change it. Chunk options are kept as they are given.
pub mod Make
pub mod Operations
pub mod Starts
pub mod Transfer
pub mod Reach
mod SignIns
pub mod Invariant
pub mod Requests
pub mod Guards
use baas_go_sdk.Base.{
  ℕ, zero, suc, ◌≡◌, Bool, true, false, not, ◌&&◌, ◌||◌, Option, none, some, List, [], ◌∷◌, ◌++◌,
  if◌then◌else◌,
}
use baas_go_sdk.Base.Text.{Bytes, codes, str_eq}
use baas_go_sdk.Base.Int.{ℤ, pos, negsuc}
use baas_go_sdk.Json.{Json}
use baas_go_sdk.Errors.{Error, text, workspace_required}
use baas_go_sdk.Errors.Kinds.{
  api_url_required, siwe_needs_wallet, email_needs_password, not_authenticated, no_wallet,
}
use baas_go_sdk.Errors.Outcome.{Outcome, ok, err, panic, ◌>>=◌}
use baas_go_sdk.Types.{ChunkOptions, default_chunk_options, RestoreOptions}
use baas_go_sdk.Api
use baas_go_sdk.Api.{HttpClient, HttpRequest, Net, Decoder, Reply, new_http_client, with_workspace}
use baas_go_sdk.Api.Auth
use baas_go_sdk.Api.Auth.{
  WalletAdapter, wallet_from_signer, NonceResponse, AuthResponse, EmailVerifyResponse, SignIn,
  register_with_email,
}

-- A nil `SignMessage` or `ChunkOptions` is `none`.
pub record BackupClientOptions : Type 0 where
  pub api_url : Bytes
  pub api_key : Bytes
  pub token : Bytes
  pub private_key : Bytes
  pub sign_message : Option (Bytes → Outcome Bytes)
  pub address : Bytes
  pub email : Bytes
  pub password : Bytes
  pub workspace_id : Bytes
  pub chunk_options : Option ChunkOptions
  pub concurrency : ℤ

-- A nil `wallet` is `none`.
pub record BackupClient : Type 0 where
  pub http : HttpClient
  pub address : Bytes
  pub wallet : Option WalletAdapter
  pub email : Bytes
  pub password : Bytes
  pub chunk_opts : ChunkOptions
  pub concurrency : ℤ
  pub authenticated : Bool

abbrev pub is_set : Bytes → Bool
is_set s = not (str_eq s (codes ""))

abbrev pub with_http : HttpClient → BackupClient → BackupClient
with_http http c = record {
  http = http;
  address = c.address;
  wallet = c.wallet;
  email = c.email;
  password = c.password;
  chunk_opts = c.chunk_opts;
  concurrency = c.concurrency;
  authenticated = c.authenticated;
}

abbrev pub signed_in : HttpClient → BackupClient → BackupClient
signed_in http c = record {
  http = http;
  address = c.address;
  wallet = c.wallet;
  email = c.email;
  password = c.password;
  chunk_opts = c.chunk_opts;
  concurrency = c.concurrency;
  authenticated = true;
}

abbrev pub with_wallet : WalletAdapter → BackupClient → BackupClient
with_wallet wallet c = record {
  http = c.http;
  address = wallet.address;
  wallet = some wallet;
  email = c.email;
  password = c.password;
  chunk_opts = c.chunk_opts;
  concurrency = c.concurrency;
  authenticated = c.authenticated;
}

abbrev pub with_login : Bytes → Bytes → BackupClient → BackupClient
with_login email password c = record {
  http = c.http;
  address = c.address;
  wallet = c.wallet;
  email = email;
  password = password;
  chunk_opts = c.chunk_opts;
  concurrency = c.concurrency;
  authenticated = c.authenticated;
}

unfoldable pub set_workspace_id : Bytes → BackupClient → BackupClient
set_workspace_id id c = with_http (Api.set_workspace_id id c.http) c

unfoldable pub set_token : Bytes → BackupClient → BackupClient
set_token token c = signed_in (Api.set_token token c.http) c

abbrev pub set_api_key : Bytes → BackupClient → BackupClient
set_api_key api_key c = set_token api_key c

-- What an operation returns, and the client after it.
abbrev pub Changed : Type 0 → Type 0
Changed A = Reply A × BackupClient

abbrev pub signed_in_by : {A : Type 0} → BackupClient → SignIn A → Changed A
signed_in_by c ((ok a, sent), http) = ((ok a, sent), signed_in http c)
signed_in_by c ((err e, sent), http) = ((err e, sent), with_http http c)
signed_in_by c ((panic, sent), http) = ((panic, sent), with_http http c)

abbrev pub verified_by :
    {U : Type 0} → BackupClient → SignIn (EmailVerifyResponse U) → Changed (EmailVerifyResponse U)
verified_by c ((ok resp, sent), http) =
    ((ok resp, sent), if is_set resp.token then signed_in http c else with_http http c)
verified_by c ((err e, sent), http) = ((err e, sent), with_http http c)
verified_by c ((panic, sent), http) = ((panic, sent), with_http http c)

module _ (net : Net) where
  module _ (now : Bytes) (nonce_d : Decoder NonceResponse) {U : Type 0}
      (auth_d : Decoder (AuthResponse U)) where
    abbrev pub by_wallet : BackupClient → Option WalletAdapter → Changed Bytes
    by_wallet c none = ((err (text siwe_needs_wallet []), []), c)
    by_wallet c (some wallet) =
        signed_in_by c (Auth.authenticate net now nonce_d auth_d c.http wallet)

    unfoldable pub authenticate : BackupClient → Changed Bytes
    authenticate c = by_wallet c c.wallet

  unfoldable pub authenticate_email :
      {U : Type 0} → Decoder (AuthResponse U) → BackupClient → Changed (AuthResponse U)
  authenticate_email d c =
      if str_eq c.email (codes "") || str_eq c.password (codes "")
      then ((err (text email_needs_password []), []), c)
      else signed_in_by c (Auth.login_with_email net c.http c.email c.password d)

  abbrev pub register_email :
      {A : Type 0} → Decoder A → Bytes → Bytes → Bytes → BackupClient → Reply A
  register_email d email password display_name c =
      register_with_email net c.http email password display_name d

  unfoldable pub verify_email :
      {U : Type 0}
      → Decoder (EmailVerifyResponse U)
      → Json
      → BackupClient
      → Changed (EmailVerifyResponse U)
  verify_email d req c = verified_by c (Auth.verify_email net c.http req d)

unfoldable pub ensure_auth : BackupClient → Option Error
ensure_auth c = if c.authenticated then none else some (text not_authenticated [])

unfoldable pub ensure_workspace : BackupClient → Option Error
ensure_workspace c = if str_eq c.http.workspace_id (codes "") then some workspace_required else none

abbrev client_unless : BackupClient → Option Error → Outcome HttpClient
client_unless c none = ok c.http
client_unless c (some e) = err e

-- `httpForBackupOp` and `httpForRestoreOp`, by the workspace of the options; nil options have none.
unfoldable pub http_for_op : Bytes → BackupClient → Outcome HttpClient
unfolding ensure_workspace
http_for_op workspace_id c =
    if is_set workspace_id
    then ok (with_workspace workspace_id c.http)
    else client_unless c (ensure_workspace c)
