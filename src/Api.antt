-- ===== src/Api.antt =====
-- About HttpClient of api/httpclient.go: its state, and how a request is made and answered.
pub mod Endpoints
pub mod Escape
pub mod Requests
pub mod Answers
pub mod Auth
pub mod S3
use baas_go_sdk.Base.{
  ℕ, zero, suc, ◌+◌, ◌-◌, ◌/◌, ◌%◌, Bool, true, false, not, ◌&&◌, ◌||◌, ◌==◌, leb, ltb, Option,
  none, some, List, [], ◌∷◌, ◌++◌, if◌then◌else◌,
}
use baas_go_sdk.Base.Text.{Bytes, codes, str_eq}
use baas_go_sdk.Json.{Json, Fields, get, as_string}
use baas_go_sdk.Errors.{Error, api, workspace_required, wrap, new_api_error, or_else}
use baas_go_sdk.Errors.Kinds.{marshal_request_body, read_response}
use baas_go_sdk.Errors.Outcome.{Outcome, ok, err, panic, ◌>>=◌, map_err}

pub record HttpClient : Type 0 where
  pub base_url : Bytes
  pub token : Bytes
  pub workspace_id : Bytes

abbrev pub trimmed : ℕ → Bytes → Bytes
trimmed c [] = if c == b'/' then [] else c ∷ []
trimmed c (d ∷ s) = c ∷ d ∷ s

-- `strings.TrimRight(s, "/")`
unfoldable pub trim_right : Bytes → Bytes
trim_right [] = []
trim_right (c ∷ s) = trimmed c (trim_right s)

unfoldable pub new_http_client : Bytes → HttpClient
new_http_client base_url = record {
  base_url = trim_right base_url;
  token = codes "";
  workspace_id = codes "";
}

unfoldable pub set_token : Bytes → HttpClient → HttpClient
set_token token c = record { base_url = c.base_url; token = token; workspace_id = c.workspace_id }

unfoldable pub set_workspace_id : Bytes → HttpClient → HttpClient
set_workspace_id id c = record { base_url = c.base_url; token = c.token; workspace_id = id }

-- `WithWorkspace`: the copy; the client itself stays as it is.
abbrev pub with_workspace : Bytes → HttpClient → HttpClient
with_workspace id c = record { base_url = c.base_url; token = c.token; workspace_id = id }

-- Letters, digits and the bytes that are never escaped in a URL.
abbrev pub is_unreserved : ℕ → Bool
is_unreserved c =
    (leb b'a' c && leb c b'z')
    || ((leb b'A' c && leb c b'Z')
        || ((leb b'0' c && leb c b'9') || (c == b'-' || (c == b'_' || (c == b'.' || c == b'~')))))

-- The bytes that one segment of a path holds as they are.
unfoldable pub is_segment_byte : ℕ → Bool
is_segment_byte c =
    is_unreserved c
    || (c == b'$' || (c == b'&' || (c == b'+' || (c == b'=' || (c == b':' || c == b'@')))))

unfoldable pub upper_hex : ℕ → ℕ
upper_hex n = if ltb n 10 then b'0' + n else b'A' + (n - 10)

abbrev pub percent : ℕ → Bytes
percent c = b'%' ∷ upper_hex (c / 16) ∷ upper_hex (c % 16) ∷ []

-- `url.PathEscape`
unfoldable pub path_escape : Bytes → Bytes
path_escape [] = []
path_escape (c ∷ s) = (if is_segment_byte c then c ∷ [] else percent c) ++ path_escape s

-- `url.QueryEscape`
unfoldable pub query_escape : Bytes → Bytes
query_escape [] = []
query_escape (c ∷ s) =
    (if is_unreserved c then c ∷ [] else if c == b' ' then b'+' ∷ [] else percent c)
    ++ query_escape s

-- `http.Request`: the content type stands with a body, and an empty authorization is no header.
pub record HttpRequest : Type 0 where
  pub method : Bytes
  pub url : Bytes
  pub content : Option Bytes
  pub authorization : Bytes

-- The status with its text, and what reading the body gives.
pub record HttpResponse : Type 0 where
  pub status_code : ℕ
  pub status : Bytes
  pub content : Outcome Bytes

-- The libraries behind a request, and the network: `json.Marshal`, what `http.NewRequest` refuses,
-- `Do`, and `json.Unmarshal` into a map, which leaves a nil map where it fails.
pub record Net : Type 0 where
  pub marshal : Json → Outcome Bytes
  pub refuses : Bytes → Bytes → Option Error
  pub send : HttpRequest → Outcome HttpResponse
  pub parse_map : Bytes → Option Fields

-- A response's type: its zero value, and `json.Unmarshal` into it.
pub record Decoder (A : Type 0) : Type 0 where
  pub zero_value : A
  pub unmarshal : Bytes → Outcome A

-- A nil `out`.
abbrev pub no_out : Decoder (Unit {0})
no_out = record { zero_value = tt; unmarshal = λ text. ok tt }

-- What a call returns, and the requests that it has sent.
abbrev pub Reply : Type 0 → Type 0
Reply A = Outcome A × List HttpRequest

abbrev pub field_text : Bytes → Option Fields → Option Bytes
field_text k none = none
field_text k (some m) = as_string (get k m)

abbrev pub text_or : Bytes → Option Bytes → Bytes
text_or s none = s
text_or s (some t) = t

unfoldable pub error_message : Bytes → Option Fields → Bytes
error_message status parsed =
    text_or status
      (or_else (field_text (codes "message") parsed) (field_text (codes "error") parsed))

unfoldable pub is_success : ℕ → Bool
is_success status = not (ltb status 200 || leb 300 status)

abbrev pub bearer : Bytes → Bytes
bearer token = if str_eq token (codes "") then codes "" else codes "Bearer " ++ token

module _ (net : Net) where
  abbrev pub decoded : {A : Type 0} → Decoder A → Bytes → Outcome A
  decoded d [] = ok d.zero_value
  decoded d (c ∷ text) = d.unmarshal (c ∷ text)

  abbrev pub read_answer : {A : Type 0} → Decoder A → HttpResponse → Bytes → Outcome A
  read_answer d resp text =
      if is_success resp.status_code
      then decoded d text
      else err (
          api (
            new_api_error (error_message resp.status (net.parse_map text)) resp.status_code
              (net.parse_map text)))

  unfoldable pub answer : {A : Type 0} → Decoder A → Outcome HttpResponse → Outcome A
  answer d got = got >>= λ resp. map_err (wrap read_response []) resp.content >>= read_answer d resp

  abbrev pub send_unless : {A : Type 0} → Option Error → Decoder A → HttpRequest → Reply A
  send_unless (some e) d req = (err e, [])
  send_unless none d req = (answer d (net.send req), req ∷ [])

  abbrev pub marshalled : Option Json → Outcome (Option Bytes)
  marshalled none = ok none
  marshalled (some body) =
      map_err (wrap marshal_request_body []) (net.marshal body) >>= λ text. ok (some text)

  module _ (c : HttpClient) where
    abbrev pub make_request : Bytes → Bytes → Option Bytes → HttpRequest
    make_request method path content = record {
      method = method;
      url = c.base_url ++ path;
      content = content;
      authorization = bearer c.token;
    }

    abbrev pub send_marshalled :
        {A : Type 0} → Bytes → Bytes → Decoder A → Outcome (Option Bytes) → Reply A
    send_marshalled method path d (ok content) =
        send_unless (net.refuses method (c.base_url ++ path)) d (make_request method path content)
    send_marshalled method path d (err e) = (err e, [])
    send_marshalled method path d panic = (panic, [])

    unfoldable pub request : {A : Type 0} → Bytes → Bytes → Option Json → Decoder A → Reply A
    request method path body d = send_marshalled method path d (marshalled body)

    unfoldable pub workspace_request :
        {A : Type 0} → Bytes → Bytes → Option Json → Decoder A → Reply A
    workspace_request method sub_path body d =
        let full = codes "/workspaces/" ++ (path_escape c.workspace_id ++ sub_path) in
        if str_eq c.workspace_id (codes "")
        then (err workspace_required, [])
        else request method full body d
