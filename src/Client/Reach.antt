-- ===== src/Client/Reach.antt =====
-- About the state of BackupClient in client/client.go: the operations that change it.
use baas_go_sdk.Base.{◌≡◌, ◌≤◌, Bool, false, [], ◌∷◌, ◌==◌}
use baas_go_sdk.Base.Text.{Bytes, codes}
use baas_go_sdk.Base.Int.{ℤ, pos, negsuc}
use baas_go_sdk.Json.{Json}
use baas_go_sdk.Errors.Outcome.{Outcome, ok}
use baas_go_sdk.Api.{Net, Decoder}
use baas_go_sdk.Api.Auth.{WalletAdapter, NonceResponse, AuthResponse, EmailVerifyResponse}
use baas_go_sdk.Client.{
  BackupClient, BackupClientOptions, set_workspace_id, set_token, authenticate, authenticate_email,
  verify_email,
}
use baas_go_sdk.Client.Make.{new_backup_client}

-- A positive number of workers.
abbrev pub IsPositive : ℤ → Type 0
IsPositive (pos n) = 1 ≤ n
IsPositive (negsuc n) = ⊥

abbrev pub ends_in_slash : Bytes → Bool
ends_in_slash [] = false
ends_in_slash (c ∷ []) = c == b'/'
ends_in_slash (c ∷ d ∷ s) = ends_in_slash (d ∷ s)

-- A base URL whose last byte, if it has one, is not a slash.
abbrev pub Trimmed : Bytes → Type 0
Trimmed url = ends_in_slash url ≡ false

-- What holds of a client at all times: a token is only there when it counts as signed in, the base
-- URL does not end in a slash, and there is a worker.
pub record WellFormed (c : BackupClient) : Type 0 where
  pub token_signed : c.authenticated ≡ false → c.http.token ≡ codes ""
  pub trimmed : Trimmed c.http.base_url
  pub workers : IsPositive c.concurrency

-- One operation that changes the client, whatever the network and the clock answer.
pub data Step : BackupClient → BackupClient → Type 1 where
  workspace_set : (c : BackupClient) (id : Bytes) → Step c (set_workspace_id id c)
  token_set : (c : BackupClient) (token : Bytes) → Step c (set_token token c)
  wallet_used :
      (c : BackupClient) (net : Net) (now : Bytes) (nonce_d : Decoder NonceResponse) (U : Type 0)
      (auth_d : Decoder (AuthResponse U))
      → Step c (authenticate net now nonce_d auth_d c).1
  email_used :
      (c : BackupClient) (net : Net) (U : Type 0) (d : Decoder (AuthResponse U))
      → Step c (authenticate_email net d c).1
  email_verified :
      (c : BackupClient) (net : Net) (U : Type 0) (d : Decoder (EmailVerifyResponse U)) (req : Json)
      → Step c (verify_email net d req c).1

-- A client that was made, and then changed.
pub data Reach : BackupClient → Type 1 where
  made :
      (from_key : Bytes → Outcome WalletAdapter) (opts : BackupClientOptions) (c : BackupClient)
      → new_backup_client from_key opts ≡ ok c
      → Reach c
  changed : (c c' : BackupClient) → Reach c → Step c c' → Reach c'
