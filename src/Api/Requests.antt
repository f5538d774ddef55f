-- ===== src/Api/Requests.antt =====
-- About request and workspaceRequest of api/httpclient.go: the requests that are sent.
use baas_go_sdk.Base.{
  ◌≡◌, ◌≢◌, refl, sym, ◌∙◌, ◌≤◌, Bool, true, false, Option, none, some, [], ◌++◌, length, arith,
  if◌then◌else◌, inl, inr, ◌⊎◌,
}
use mathlib.Core.Bool.{false≢true}
use baas_go_sdk.Base.Text.{Bytes, codes, str_eq, str_eq_iff}
use baas_go_sdk.Base.All.{All}
use baas_go_sdk.Json.{Json}
use baas_go_sdk.Errors.{Error, workspace_required}
use baas_go_sdk.Errors.Outcome.{Outcome, ok, err, panic}
use baas_go_sdk.Api.{
  HttpClient, HttpRequest, Net, Decoder, Reply, bearer, path_escape, make_request, marshalled,
  send_marshalled, send_unless, request, workspace_request,
}

-- A request with this method to a path of the API, with the client's token.
abbrev pub IsTo : HttpClient → Bytes → Bytes → HttpRequest → Type 0
IsTo c method path req =
    (req.method ≡ method) × (req.url ≡ c.base_url ++ path) × (req.authorization ≡ bearer c.token)

-- At most one request, and that one as it must be.
abbrev pub AtMostOne : {A : Type 0} → (HttpRequest → Type 0) → Reply A → Type 0
AtMostOne P reply = All P reply.1 × (length reply.1 ≤ 1)

module _ (net : Net) (c : HttpClient) {A : Type 0} (d : Decoder A) where
  send_unless-AtMostOne :
      (o : Option Error) (method path : Bytes) (content : Option Bytes)
      → AtMostOne
          (IsTo c method path)
          (send_unless net o d (make_request net c method path content))
  send_unless-AtMostOne none method path content = (((refl, refl, refl), tt), omega arith)
  send_unless-AtMostOne (some e) method path content = (tt, omega arith)

  send_marshalled-AtMostOne :
      (method path : Bytes) (o : Outcome (Option Bytes))
      → AtMostOne (IsTo c method path) (send_marshalled net c method path d o)
  send_marshalled-AtMostOne method path (ok content) =
      send_unless-AtMostOne (net.refuses method (c.base_url ++ path)) method path content
  send_marshalled-AtMostOne method path (err e) = (tt, omega arith)
  send_marshalled-AtMostOne method path panic = (tt, omega arith)

  pub request-AtMostOne :
      (method path : Bytes) (body : Option Json)
      → AtMostOne (IsTo c method path) (request net c method path body d)
  unfolding request
  request-AtMostOne method path body = send_marshalled-AtMostOne method path (marshalled net body)

  -- A call in a workspace: without one it ends with the error for that and sends nothing; with one
  -- it sends at most one request, to a path below that workspace.
  abbrev pub WorkspaceCall : Bytes → Bytes → Reply A → Type 0
  WorkspaceCall method sub_path reply =
      ((c.workspace_id ≡ codes "") × (reply ≡ (err workspace_required, [])))
      ⊎ ((c.workspace_id ≢ codes "")
          × AtMostOne
              (IsTo c method (codes "/workspaces/" ++ (path_escape c.workspace_id ++ sub_path)))
              reply)

  scoped_by :
      (missing : Bool) (method sub_path : Bytes) (reply : Reply A)
      → (missing ≡ true → c.workspace_id ≡ codes "")
      → (missing ≡ false → c.workspace_id ≢ codes "")
      → AtMostOne
          (IsTo c method (codes "/workspaces/" ++ (path_escape c.workspace_id ++ sub_path)))
          reply
      → WorkspaceCall method sub_path (if missing then (err workspace_required, []) else reply)
  scoped_by true method sub_path reply h h' sent = inl (h refl, refl)
  scoped_by false method sub_path reply h h' sent = inr (h' refl, sent)

  pub workspace_request_lem :
      (method sub_path : Bytes) (body : Option Json)
      → WorkspaceCall method sub_path (workspace_request net c method sub_path body d)
  unfolding workspace_request
  workspace_request_lem method sub_path body =
      let path = codes "/workspaces/" ++ (path_escape c.workspace_id ++ sub_path) in
      scoped_by (str_eq c.workspace_id (codes "")) method sub_path
        (request net c method path body d) ((str_eq_iff c.workspace_id (codes "")).0)
        (λ h e. false≢true (sym h ∙ (str_eq_iff c.workspace_id (codes "")).1 e))
        (request-AtMostOne method path body)
