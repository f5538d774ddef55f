-- ===== src/Tests/Clients.antt =====
-- A client, its requests and a request that fails.
use baas_go_sdk.Base.{◌≡◌, ◌⊎◌, refl, none, some, arith}
use baas_go_sdk.Base.Text.{Bytes, codes, str_eq}
use baas_go_sdk.Base.Int.{pos}
use baas_go_sdk.Json.{Json, Fields}
use baas_go_sdk.Errors.Outcome.{Outcome, ok}
use baas_go_sdk.Api.{
  HttpClient, HttpRequest, HttpResponse, Net, Decoder, no_out, request, is_success, error_message,
  make_request,
}
use baas_go_sdk.Api.Escape.{member_path-injective}
use baas_go_sdk.Api.Answers.{Accepted, Rejected, request_answers}
use baas_go_sdk.Api.Auth.{WalletAdapter}
use baas_go_sdk.Api
use baas_go_sdk.Client.{BackupClient, BackupClientOptions, set_token}
use baas_go_sdk.Client.Make.{new_backup_client, fresh_client}
use baas_go_sdk.Client.Reach.{WellFormed, Reach, made, changed, token_set}
use baas_go_sdk.Client.Invariant.{Reach-WellFormed}

abbrev missing : HttpResponse
missing = record { status_code = 404; status = codes "404 Not Found"; content = ok (codes "{}") }

abbrev pub net : Net
net = record {
  marshal = λ body. ok (codes "{}");
  refuses = λ method url. none;
  send = λ req. ok missing;
  parse_map = λ text. some (
      Fields.field (codes "message") Json.null
        (Fields.field (codes "error") (Json.string (codes "gone")) Fields.end));
}

abbrev http : HttpClient
http = record { base_url = codes "https://h"; token = codes "t"; workspace_id = codes "w/1" }

abbrev sent_request : HttpRequest
sent_request = make_request net http (codes "GET") (codes "/usage") none

-- The message is not a text here, so that the error is the message.
request_answers_example :
    Accepted net no_out missing
      (codes "{}")
      (request net http (codes "GET") (codes "/usage") none no_out).0
    ⊎ Rejected net no_out missing
        (codes "{}")
        (request net http (codes "GET") (codes "/usage") none no_out).0
request_answers_example =
    request_answers net http no_out (codes "GET") (codes "/usage") (codes "{}") none sent_request
      missing (unfold request in refl) refl refl

member_path-injective_example : (codes "w/1" ≡ codes "w/1") × (codes "u" ≡ codes "u")
member_path-injective_example =
    member_path-injective (codes "w/1") (codes "u") (codes "w/1") (codes "u")
      (omega arith, (omega arith, (omega arith, tt))) (omega arith, tt)
      (omega arith, (omega arith, (omega arith, tt))) (omega arith, tt) refl

abbrev opts : BackupClientOptions
opts = record {
  api_url = codes "https://h/";
  api_key = codes "";
  token = codes "";
  private_key = codes "";
  sign_message = none;
  address = codes "";
  email = codes "";
  password = codes "";
  workspace_id = codes "";
  chunk_options = none;
  concurrency = pos 0;
}

abbrev from_key : Bytes → Outcome WalletAdapter
from_key key = ok (record { address = codes "a"; sign_message = λ message. ok message })

makes : new_backup_client from_key opts ≡ ok (fresh_client opts)
unfolding new_backup_client str_eq
makes = refl

signed : Reach (set_token (codes "t") (fresh_client opts))
signed =
    changed (fresh_client opts) (set_token (codes "t") (fresh_client opts))
      (made from_key opts (fresh_client opts) makes) (token_set (fresh_client opts) (codes "t"))

Reach-WellFormed_example : WellFormed (set_token (codes "t") (fresh_client opts))
Reach-WellFormed_example = Reach-WellFormed (set_token (codes "t") (fresh_client opts)) signed

abbrev pub client : BackupClient
client = set_token (codes "t") (fresh_client opts)
