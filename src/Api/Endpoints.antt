-- ===== src/Api/Endpoints.antt =====
-- About the methods of HttpClient in api/httpclient.go, one for each endpoint. A request that is a
-- struct is given as the JSON that it marshals to, and the response's type by its decoder.
use baas_go_sdk.Base.{zero, suc, none, some, List, [], ◌∷◌, ◌++◌, if◌then◌else◌}
use baas_go_sdk.Base.Text.{Bytes, codes, str_eq}
use baas_go_sdk.Base.Int.{ℤ, pos, negsuc}
use baas_go_sdk.Encoding.Decimal.{format_int}
use baas_go_sdk.Json.{Json, Items, Fields}
use baas_go_sdk.Errors.Outcome.{ok, err, panic}
use baas_go_sdk.Api.{
  HttpClient, Net, Decoder, Reply, no_out, path_escape, query_escape, request, workspace_request,
}

-- The bodies that are maps.
abbrev pub one_field : Bytes → Json → Json
one_field k v = Json.object (Fields.field k v Fields.end)

abbrev pub two_fields : Bytes → Json → Bytes → Json → Json
two_fields k v j w = Json.object (Fields.field k v (Fields.field j w Fields.end))

abbrev pub string_items : List Bytes → Items
string_items [] = Items.nil
string_items (s ∷ ss) = Items.cons (Json.string s) (string_items ss)

-- The fields of the responses that hold a list.
pub record IdentityListResponse (A : Type 0) : Type 0 where
  pub identities : List A

pub record ApiKeyListResponse (A : Type 0) : Type 0 where
  pub api_keys : List A

pub record WorkspaceMemberListResponse (A : Type 0) : Type 0 where
  pub members : List A

abbrev pub map_reply : {A B : Type 0} → (A → B) → Reply A → Reply B
map_reply f (ok a, sent) = (ok (f a), sent)
map_reply f (err e, sent) = (err e, sent)
map_reply f (panic, sent) = (panic, sent)

-- `limit` is left out unless it is positive.
abbrev limit_params : ℤ → List Bytes
limit_params (pos zero) = []
limit_params (pos (suc n)) = (codes "limit=" ++ query_escape (format_int (pos (suc n)))) ∷ []
limit_params (negsuc n) = []

abbrev cursor_params : Bytes → List Bytes
cursor_params cursor =
    if str_eq cursor (codes "") then [] else (codes "cursor=" ++ query_escape cursor) ∷ []

-- `url.Values.Encode` of the two parameters.
abbrev joined_params : List Bytes → Bytes
joined_params [] = codes ""
joined_params (p ∷ []) = p
joined_params (p ∷ q ∷ ps) = p ++ (b'&' ∷ joined_params (q ∷ ps))

abbrev with_query : Bytes → Bytes
with_query qs =
    if str_eq qs (codes "") then codes "/backup/snapshots" else codes "/backup/snapshots?" ++ qs

unfoldable pub snapshots_path : Bytes → ℤ → Bytes
snapshots_path cursor limit =
    with_query (joined_params (cursor_params cursor ++ limit_params limit))

abbrev pub member_path : Bytes → Bytes → Bytes
member_path workspace_id user_id =
    codes "/workspaces/" ++ (path_escape workspace_id ++ (codes "/members/" ++ path_escape user_id))

abbrev pub workspace_path : Bytes → Bytes → Bytes
workspace_path workspace_id rest = codes "/workspaces/" ++ (path_escape workspace_id ++ rest)

module _ (net : Net) (c : HttpClient) where
  abbrev pub request_nonce : {A : Type 0} → Bytes → Decoder A → Reply A
  request_nonce wallet_address d =
      request net c (codes "POST") (codes "/auth/nonce")
        (some (one_field (codes "walletAddress") (Json.string wallet_address))) d

  abbrev pub verify_siwe : {A : Type 0} → Bytes → Bytes → Decoder A → Reply A
  verify_siwe message signature d =
      request net c (codes "POST") (codes "/auth/verify")
        (some (
          two_fields (codes "message") (Json.string message) (codes "signature")
            (Json.string signature)))
        d

  abbrev pub email_register : {A : Type 0} → Json → Decoder A → Reply A
  email_register req d = request net c (codes "POST") (codes "/auth/email/register") (some req) d

  abbrev pub email_verify : {A : Type 0} → Json → Decoder A → Reply A
  email_verify req d = request net c (codes "POST") (codes "/auth/email/verify") (some req) d

  abbrev pub email_login : {A : Type 0} → Json → Decoder A → Reply A
  email_login req d = request net c (codes "POST") (codes "/auth/email/login") (some req) d

  abbrev pub link_identity : {A : Type 0} → Json → Decoder A → Reply A
  link_identity req d = request net c (codes "POST") (codes "/auth/link-identity") (some req) d

  abbrev pub get_profile : {A : Type 0} → Decoder A → Reply A
  get_profile d = request net c (codes "GET") (codes "/user/profile") none d

  abbrev pub list_identities : {A : Type 0} → Decoder (IdentityListResponse A) → Reply (List A)
  list_identities d =
      map_reply (λ resp. resp.identities)
        (request net c (codes "GET") (codes "/user/identities") none d)

  abbrev pub create_api_key : {A : Type 0} → Json → Decoder A → Reply A
  create_api_key req d = request net c (codes "POST") (codes "/user/api-keys") (some req) d

  abbrev pub list_api_keys : {A : Type 0} → Decoder (ApiKeyListResponse A) → Reply (List A)
  list_api_keys d =
      map_reply (λ resp. resp.api_keys)
        (request net c (codes "GET") (codes "/user/api-keys") none d)

  abbrev pub delete_api_key : Bytes → Reply (Unit {0})
  delete_api_key api_key_id =
      request net c (codes "DELETE") (codes "/user/api-keys/" ++ path_escape api_key_id) none no_out

  abbrev pub create_workspace : {A : Type 0} → Json → Decoder A → Reply A
  create_workspace req d = request net c (codes "POST") (codes "/workspaces") (some req) d

  abbrev pub list_workspaces : {A : Type 0} → Decoder A → Reply A
  list_workspaces d = request net c (codes "GET") (codes "/workspaces") none d

  abbrev pub get_workspace : {A : Type 0} → Bytes → Decoder A → Reply A
  get_workspace workspace_id d =
      request net c (codes "GET") (codes "/workspaces/" ++ path_escape workspace_id) none d

  abbrev pub update_workspace : {A : Type 0} → Bytes → Json → Decoder A → Reply A
  update_workspace workspace_id req d =
      request net c (codes "PATCH") (codes "/workspaces/" ++ path_escape workspace_id) (some req) d

  abbrev pub list_workspace_members :
      {A : Type 0} → Bytes → Decoder (WorkspaceMemberListResponse A) → Reply (List A)
  list_workspace_members workspace_id d =
      map_reply (λ resp. resp.members)
        (request net c (codes "GET") (workspace_path workspace_id (codes "/members")) none d)

  abbrev pub add_workspace_member : {A : Type 0} → Bytes → Json → Decoder A → Reply A
  add_workspace_member workspace_id req d =
      request net c (codes "POST") (workspace_path workspace_id (codes "/members")) (some req) d

  abbrev pub update_workspace_member : {A : Type 0} → Bytes → Bytes → Json → Decoder A → Reply A
  update_workspace_member workspace_id user_id req d =
      request net c (codes "PATCH") (member_path workspace_id user_id) (some req) d

  abbrev pub remove_workspace_member : Bytes → Bytes → Reply (Unit {0})
  remove_workspace_member workspace_id user_id =
      request net c (codes "DELETE") (member_path workspace_id user_id) none no_out

  abbrev pub check_chunks : {A : Type 0} → List Bytes → Decoder A → Reply A
  check_chunks hashes d =
      workspace_request net c (codes "POST") (codes "/backup/chunks/check")
        (some (one_field (codes "hashes") (Json.array (string_items hashes)))) d

  abbrev pub request_upload_urls : {A : Type 0} → Items → Decoder A → Reply A
  request_upload_urls chunks d =
      workspace_request net c (codes "POST") (codes "/backup/chunks/upload-urls")
        (some (one_field (codes "chunks") (Json.array chunks))) d

  abbrev pub confirm_chunks : {A : Type 0} → Items → Decoder A → Reply A
  confirm_chunks chunks d =
      workspace_request net c (codes "POST") (codes "/backup/chunks/confirm")
        (some (one_field (codes "chunks") (Json.array chunks))) d

  abbrev pub get_bloom_filter : {A : Type 0} → Decoder A → Reply A
  get_bloom_filter d = workspace_request net c (codes "GET") (codes "/backup/chunks/bloom") none d

  abbrev pub request_pack_upload_url : {A : Type 0} → ℤ → Decoder A → Reply A
  request_pack_upload_url size d =
      workspace_request net c (codes "POST") (codes "/backup/packs/upload-url")
        (some (one_field (codes "size") (Json.number (format_int size)))) d

  abbrev pub confirm_pack : {A : Type 0} → Bytes → Items → Decoder A → Reply A
  confirm_pack pack_id chunks d =
      workspace_request net c (codes "POST") (codes "/backup/packs/confirm")
        (some
          (two_fields (codes "packId") (Json.string pack_id) (codes "chunks") (Json.array chunks)))
        d

  abbrev pub create_snapshot : {A : Type 0} → Json → Decoder A → Reply A
  create_snapshot input d =
      workspace_request net c (codes "POST") (codes "/backup/snapshots") (some input) d

  abbrev pub list_snapshots : {A : Type 0} → Bytes → ℤ → Decoder A → Reply A
  list_snapshots cursor limit d =
      workspace_request net c (codes "GET") (snapshots_path cursor limit) none d

  abbrev pub get_snapshot : {A : Type 0} → Bytes → Decoder A → Reply A
  get_snapshot snapshot_id d =
      workspace_request net c (codes "GET") (codes "/backup/snapshots/" ++ path_escape snapshot_id)
        none d

  abbrev pub delete_snapshot : {A : Type 0} → Bytes → Decoder A → Reply A
  delete_snapshot snapshot_id d =
      workspace_request net c (codes "DELETE")
        (codes "/backup/snapshots/" ++ path_escape snapshot_id) none d

  abbrev pub update_snapshot_encryption : {A : Type 0} → Bytes → Json → Decoder A → Reply A
  update_snapshot_encryption snapshot_id update d =
      workspace_request net c (codes "PATCH")
        (codes "/backup/snapshots/" ++ path_escape snapshot_id) (some update) d

  abbrev pub prune_snapshots : {A : Type 0} → Json → Decoder A → Reply A
  prune_snapshots req d =
      workspace_request net c (codes "POST") (codes "/backup/snapshots/prune") (some req) d

  abbrev pub request_download_urls : {A : Type 0} → List Bytes → Decoder A → Reply A
  request_download_urls hashes d =
      workspace_request net c (codes "POST") (codes "/restore/download-urls")
        (some (one_field (codes "hashes") (Json.array (string_items hashes)))) d

  abbrev pub get_snapshot_tree : {A : Type 0} → Bytes → Decoder A → Reply A
  get_snapshot_tree snapshot_id d =
      workspace_request net c (codes "GET")
        (codes "/restore/snapshots/" ++ (path_escape snapshot_id ++ codes "/tree")) none d

  abbrev pub get_usage : {A : Type 0} → Decoder A → Reply A
  get_usage d = workspace_request net c (codes "GET") (codes "/usage") none d
