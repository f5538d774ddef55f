-- ===== src/Client/Guards.antt =====
-- About the guards of BackupClient in client/client.go.
use mathlib.Core.Path.{subst}
use baas_go_sdk.Base.{
  ◌≡◌, ◌≢◌, ◌⊎◌, ◌≤◌, refl, ap, Bool, true, false, Option, none, some, [], ◌++◌, inl, inr, length,
  if◌then◌else◌,
}
use baas_go_sdk.Base.Text.{Bytes, codes, str_eq, str_eq_iff}
use baas_go_sdk.Base.All.{All}
use baas_go_sdk.Json.{Json}
use baas_go_sdk.Errors.{text, workspace_required}
use baas_go_sdk.Errors.Kinds.{not_authenticated}
use baas_go_sdk.Errors.Outcome.{ok, err, panic}
use baas_go_sdk.Api.{HttpRequest, Net, Decoder, Reply, path_escape, workspace_request}
use baas_go_sdk.Api.Requests.{IsTo, AtMostOne, workspace_request_lem}
use baas_go_sdk.Api.Endpoints.{map_reply}
use baas_go_sdk.Client.{BackupClient, ensure_auth, ensure_workspace}
use baas_go_sdk.Client.Operations.{unless, in_workspace}
use baas_go_sdk.Client.Requests.{done}

-- A reply to an operation that needs the workspace, or does not: without the workspace that it needs
-- it is the error for that, and nothing was sent; otherwise at most one request was sent, with this
-- method, to this path of the API, or below the workspace, and with the client's token.
abbrev pub InScope : {A : Type 0} → BackupClient → Bool → Bytes → Bytes → Reply A → Type 0
InScope c false method path reply = AtMostOne (IsTo c.http method path) reply
InScope c true method path reply =
    ((c.http.workspace_id ≡ codes "") × (reply ≡ (err workspace_required, [])))
    ⊎ ((c.http.workspace_id ≢ codes "")
        × AtMostOne
            (IsTo c.http method (codes "/workspaces/" ++ (path_escape c.http.workspace_id ++ path)))
            reply)

-- Without a sign-in the reply is the error for that, and nothing was sent.
abbrev pub IsGuarded : {A : Type 0} → BackupClient → Bool → Bytes → Bytes → Reply A → Type 0
IsGuarded c scoped method path reply =
    ((c.authenticated ≡ false) × (reply ≡ (err (text not_authenticated []), [])))
    ⊎ ((c.authenticated ≡ true) × InScope c scoped method path reply)

module _ {A B : Type 0} (f : A → B) where
  map_reply-sent : (reply : Reply A) → reply.1 ≡ (map_reply f reply).1
  map_reply-sent (ok a, sent) = refl
  map_reply-sent (err e, sent) = refl
  map_reply-sent (panic, sent) = refl

  map_reply-AtMostOne :
      (P : HttpRequest → Type 0) (reply : Reply A)
      → AtMostOne P reply
      → AtMostOne P (map_reply f reply)
  map_reply-AtMostOne P reply h =
      subst (λ sent. All P sent × (length sent ≤ 1)) (map_reply-sent reply) h

  map_reply-InScope :
      (c : BackupClient) (scoped : Bool) (method path : Bytes) (reply : Reply A)
      → InScope c scoped method path reply
      → InScope c scoped method path (map_reply f reply)
  map_reply-InScope c false method path reply h = map_reply-AtMostOne _ reply h
  map_reply-InScope c true method path reply (inl (missing, e)) = inl (missing, ap (map_reply f) e)
  map_reply-InScope c true method path reply (inr (given, h)) =
      inr (given, map_reply-AtMostOne _ reply h)

  map_reply-IsGuarded :
      (c : BackupClient) (scoped : Bool) (method path : Bytes) (reply : Reply A)
      → IsGuarded c scoped method path reply
      → IsGuarded c scoped method path (map_reply f reply)
  map_reply-IsGuarded c scoped method path reply (inl (out, e)) = inl (out, ap (map_reply f) e)
  map_reply-IsGuarded c scoped method path reply (inr (signed, h)) =
      inr (signed, map_reply-InScope c scoped method path reply h)

module _ (c : BackupClient) (scoped : Bool) (method path : Bytes) {A : Type 0}
    (next : Reply A) where
  guarded_by :
      (signed : Bool)
      → c.authenticated ≡ signed
      → InScope c scoped method path next
      → IsGuarded c scoped method path
          (unless (if signed then none else some (text not_authenticated [])) next)
  guarded_by true e h = inr (e, h)
  guarded_by false e h = inl (e, refl)

  guarded :
      InScope c scoped method path next
      → IsGuarded c scoped method path (unless (ensure_auth c) next)
  unfolding ensure_auth
  guarded h = guarded_by c.authenticated refl h

module _ (c : BackupClient) (method path : Bytes) {A : Type 0} (next : Reply A) where
  scoped_by :
      (missing : Bool)
      → str_eq c.http.workspace_id (codes "") ≡ missing
      → InScope c true method path next
      → InScope c true method path (unless (if missing then some workspace_required else none) next)
  scoped_by true e h = inl ((str_eq_iff c.http.workspace_id (codes "")).0 e, refl)
  scoped_by false e h = h

  in_workspace-IsGuarded :
      InScope c true method path next → IsGuarded c true method path (in_workspace c next)
  unfolding ensure_workspace
  in_workspace-IsGuarded h =
      guarded c true method path (unless (ensure_workspace c) next)
        (scoped_by (str_eq c.http.workspace_id (codes "")) refl h)

module _ (net : Net) (c : BackupClient) where
  -- The same for an operation in the default workspace.
  scoped :
      {A : Type 0} (d : Decoder A) (method path : Bytes) (body : Option Json)
      → IsGuarded c true method path
          (done (in_workspace c (workspace_request net c.http method path body d)))
  scoped d method path body =
      map_reply-IsGuarded (λ _. tt) c true method path _
        (in_workspace-IsGuarded c method path (workspace_request net c.http method path body d)
          (workspace_request_lem net c.http d method path body))
