-- ===== src/Client/Make.antt =====
-- About NewBackupClient and buildWallet of client/client.go.
use baas_go_sdk.Base.{zero, suc, Bool, false, ◌&&◌, ◌||◌, Option, none, some, [], if◌then◌else◌}
use baas_go_sdk.Base.Text.{Bytes, codes}
use baas_go_sdk.Base.Int.{ℤ, pos, negsuc}
use baas_go_sdk.Errors.{text}
use baas_go_sdk.Errors.Kinds.{api_url_required, no_wallet}
use baas_go_sdk.Errors.Outcome.{Outcome, ok, err, ◌>>=◌}
use baas_go_sdk.Types.{ChunkOptions, default_chunk_options}
use baas_go_sdk.Api.{new_http_client}
use baas_go_sdk.Api.Auth.{WalletAdapter, wallet_from_signer}
use baas_go_sdk.Client.{
  BackupClientOptions, BackupClient, is_set, with_wallet, with_login, set_workspace_id, set_token,
}

abbrev pub options_or_default : Option ChunkOptions → ChunkOptions
options_or_default none = default_chunk_options
options_or_default (some opts) = opts

abbrev pub workers_or_default : ℤ → ℤ
workers_or_default (pos zero) = pos 8
workers_or_default (pos (suc n)) = pos (suc n)
workers_or_default (negsuc n) = pos 8

abbrev pub signer_given : BackupClientOptions → Option (Bytes → Outcome Bytes) → Bool
signer_given opts none = false
signer_given opts (some _) = is_set opts.address

abbrev signer_wallet : BackupClientOptions → Option (Bytes → Outcome Bytes) → Outcome WalletAdapter
signer_wallet opts none = err (text no_wallet [])
signer_wallet opts (some sign) =
    if is_set opts.address
    then ok (wallet_from_signer opts.address sign)
    else err (text no_wallet [])

-- The first argument is `WalletFromPrivateKey`.
unfoldable pub build_wallet :
    (Bytes → Outcome WalletAdapter) → BackupClientOptions → Outcome WalletAdapter
build_wallet from_key opts =
    if is_set opts.private_key
    then from_key opts.private_key
    else signer_wallet opts opts.sign_message

unfoldable pub fresh_client : BackupClientOptions → BackupClient
fresh_client opts = record {
  http = new_http_client opts.api_url;
  address = codes "";
  wallet = none;
  email = codes "";
  password = codes "";
  chunk_opts = options_or_default opts.chunk_options;
  concurrency = workers_or_default opts.concurrency;
  authenticated = false;
}

abbrev pub in_workspace : Bytes → BackupClient → BackupClient
in_workspace id c = if is_set id then set_workspace_id id c else c

-- The cases of the `switch`, in their order.
abbrev pub with_credentials :
    (Bytes → Outcome WalletAdapter) → BackupClientOptions → BackupClient → Outcome BackupClient
with_credentials from_key opts c =
    if is_set opts.api_key
    then ok (set_token opts.api_key c)
    else if is_set opts.token
    then ok (set_token opts.token c)
    else if is_set opts.private_key || signer_given opts opts.sign_message
    then (build_wallet from_key opts >>= λ wallet. ok (with_wallet wallet c))
    else if is_set opts.email && is_set opts.password
    then ok (with_login opts.email opts.password c)
    else ok c

unfoldable pub new_backup_client :
    (Bytes → Outcome WalletAdapter) → BackupClientOptions → Outcome BackupClient
new_backup_client from_key opts =
    if is_set opts.api_url
    then with_credentials from_key opts (in_workspace opts.workspace_id (fresh_client opts))
    else err (text api_url_required [])
