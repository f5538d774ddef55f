-- ===== src/Client/Invariant.antt =====
-- About the state of BackupClient in client/client.go, over any sequence of the operations that
-- change it.
use baas_go_sdk.Base.{
  ℕ, zero, suc, refl, Bool, true, false, ◌&&◌, ◌||◌, [], ◌∷◌, if◌then◌else◌, arith,
}
use mathlib.Core.Path.{subst}
use baas_go_sdk.Base.Text.{Bytes}
use baas_go_sdk.Base.Int.{ℤ, pos, negsuc}
use baas_go_sdk.Errors.{text}
use baas_go_sdk.Errors.Kinds.{api_url_required}
use baas_go_sdk.Errors.Outcome.{Outcome, ok, err, panic, ◌>>=◌}
use baas_go_sdk.Api
use baas_go_sdk.Api.{
  HttpClient, HttpRequest, Net, Decoder, Reply, trimmed, trim_right, new_http_client,
}
use baas_go_sdk.Api.Auth.{WalletAdapter}
use baas_go_sdk.Client.{
  BackupClient, BackupClientOptions, is_set, with_wallet, with_login, set_workspace_id, set_token,
}
use baas_go_sdk.Client.Make.{
  workers_or_default, fresh_client, signer_given, in_workspace, with_credentials, new_backup_client,
  build_wallet,
}
use baas_go_sdk.Client.Reach.{
  IsPositive, Trimmed, WellFormed, Step, Reach, workspace_set, token_set, wallet_used, email_used,
  email_verified, made, changed,
}
use baas_go_sdk.Client.SignIns.{
  WellFormed-signed_in, WellFormed-with_http, email-WellFormed, verify-WellFormed,
  wallet-WellFormed,
}

trimmed-Trimmed : (c : ℕ) (r : Bytes) → Trimmed r → Trimmed (trimmed c r)
trimmed-Trimmed c [] h = ground arith
trimmed-Trimmed c (d ∷ r) h = h

trim_right-Trimmed : (s : Bytes) → Trimmed (trim_right s)
unfolding trim_right
trim_right-Trimmed [] = refl
trim_right-Trimmed (c ∷ s) = trimmed-Trimmed c (trim_right s) (trim_right-Trimmed s)

Step-WellFormed : (c c' : BackupClient) → Step c c' → WellFormed c → WellFormed c'
unfolding set_workspace_id set_token Api.set_token Api.set_workspace_id
Step-WellFormed _ _ (workspace_set c id) w =
    WellFormed-with_http c w (Api.set_workspace_id id c.http) refl refl
Step-WellFormed _ _ (token_set c token) w =
    WellFormed-signed_in c w (Api.set_token token c.http) refl
Step-WellFormed _ _ (wallet_used c net now nonce_d U auth_d) w =
    wallet-WellFormed c w net now nonce_d auth_d
Step-WellFormed _ _ (email_used c net U d) w = email-WellFormed c w net d
Step-WellFormed _ _ (email_verified c net U d req) w = verify-WellFormed c w net d req

workers-IsPositive : (n : ℤ) → IsPositive (workers_or_default n)
workers-IsPositive (pos zero) = omega arith
workers-IsPositive (pos (suc n)) = omega arith
workers-IsPositive (negsuc n) = omega arith

fresh-WellFormed : (opts : BackupClientOptions) → WellFormed (fresh_client opts)
unfolding fresh_client new_http_client
fresh-WellFormed opts = record {
  token_signed = λ h. refl;
  trimmed = trim_right-Trimmed opts.api_url;
  workers = workers-IsPositive opts.concurrency;
}

in_workspace-WellFormed :
    (id : Bytes) (c : BackupClient) → WellFormed c → WellFormed (in_workspace id c)
unfolding set_workspace_id Api.set_workspace_id
in_workspace-WellFormed id c w =
    elim (is_set id) as (λ b. WellFormed (if b then set_workspace_id id c else c)) [
      | true ↦ WellFormed-with_http c w (Api.set_workspace_id id c.http) refl refl
      | false ↦ w
    ]

with_wallet-WellFormed :
    (wallet : WalletAdapter) (c : BackupClient) → WellFormed c → WellFormed (with_wallet wallet c)
with_wallet-WellFormed wallet c w = record {
  token_signed = w.token_signed;
  trimmed = w.trimmed;
  workers = w.workers;
}

with_login-WellFormed :
    (email password : Bytes) (c : BackupClient)
    → WellFormed c
    → WellFormed (with_login email password c)
with_login-WellFormed email password c w = record {
  token_signed = w.token_signed;
  trimmed = w.trimmed;
  workers = w.workers;
}

-- A client that an outcome gives, if it gives one.
abbrev Gives : Outcome BackupClient → Type 0
Gives (ok c) = WellFormed c
Gives (err e) = Unit
Gives panic = Unit

Gives-if : (b : Bool) (x y : Outcome BackupClient) → Gives x → Gives y → Gives (if b then x else y)
Gives-if true x y hx hy = hx
Gives-if false x y hx hy = hy

Gives-wallet :
    (c : BackupClient) (o : Outcome WalletAdapter)
    → WellFormed c
    → Gives (o >>= λ wallet. ok (with_wallet wallet c))
Gives-wallet c (ok wallet) w = with_wallet-WellFormed wallet c w
Gives-wallet c (err e) w = tt
Gives-wallet c panic w = tt

with_credentials-WellFormed :
    (from_key : Bytes → Outcome WalletAdapter) (opts : BackupClientOptions) (c : BackupClient)
    → WellFormed c
    → Gives (with_credentials from_key opts c)
unfolding set_token Api.set_token
with_credentials-WellFormed from_key opts c w =
    Gives-if (is_set opts.api_key) _ _
      (WellFormed-signed_in c w (Api.set_token opts.api_key c.http) refl)
      (Gives-if (is_set opts.token) _ _
        (WellFormed-signed_in c w (Api.set_token opts.token c.http) refl)
        (Gives-if (is_set opts.private_key || signer_given opts opts.sign_message) _ _
          (Gives-wallet c (build_wallet from_key opts) w)
          (Gives-if (is_set opts.email && is_set opts.password) _ _
            (with_login-WellFormed opts.email opts.password c w) w)))

new_backup_client-WellFormed :
    (from_key : Bytes → Outcome WalletAdapter) (opts : BackupClientOptions)
    → Gives (new_backup_client from_key opts)
unfolding new_backup_client
new_backup_client-WellFormed from_key opts =
    Gives-if (is_set opts.api_url) _ (err (text api_url_required []))
      (with_credentials-WellFormed from_key opts
        (in_workspace opts.workspace_id (fresh_client opts))
        (in_workspace-WellFormed opts.workspace_id (fresh_client opts) (fresh-WellFormed opts)))
      tt

-- A client that was made by `NewBackupClient` and changed by any sequence of sign-ins and setters,
-- whatever the network answers, has a token only if it counts as signed in, a base URL that does not
-- end in a slash, and at least one worker.
pub Reach-WellFormed : (c : BackupClient) → Reach c → WellFormed c
Reach-WellFormed c (made from_key opts _ h) =
    subst Gives h (new_backup_client-WellFormed from_key opts)
Reach-WellFormed c (changed before _ r step) =
    Step-WellFormed before c step (Reach-WellFormed before r)
