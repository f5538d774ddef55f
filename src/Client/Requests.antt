-- ===== src/Client/Requests.antt =====
-- About the guarded operations of BackupClient in client/client.go: what each gives and
-- sends, and a table of their methods and paths.
use baas_go_sdk.Base.{Bool, true, false, [], ◌++◌}
use baas_go_sdk.Base.Text.{Bytes, codes}
use baas_go_sdk.Base.Int.{ℤ}
use baas_go_sdk.Json.{Json}
use baas_go_sdk.Errors.Outcome.{ok}
use baas_go_sdk.Api.{Net, Decoder, Reply, path_escape}
use baas_go_sdk.Api.Endpoints.{
  map_reply, snapshots_path, ApiKeyListResponse, IdentityListResponse, WorkspaceMemberListResponse,
}
use baas_go_sdk.Client.{BackupClient}
use baas_go_sdk.Client.Operations
use baas_go_sdk.Client.Operations.{unless, in_workspace}

-- An operation that is one call of the API, with its arguments, without the decoder of its response.
-- `Backup`, `Restore` and `RotateTMK`, which run pipelines, are not among them.
pub data Operation : Type 0 where
  link_identity : Json → Operation
  list_snapshots : Bytes → ℤ → Operation
  get_snapshot : Bytes → Operation
  delete_snapshot : Bytes → Operation
  prune_snapshots : Json → Operation
  get_usage : Operation
  update_snapshot_encryption : Bytes → Json → Operation
  create_workspace : Json → Operation
  list_workspaces : Operation
  get_workspace : Bytes → Operation
  update_workspace : Bytes → Json → Operation
  list_workspace_members : Bytes → Operation
  add_workspace_member : Bytes → Json → Operation
  update_workspace_member : Bytes → Bytes → Json → Operation
  remove_workspace_member : Bytes → Bytes → Operation
  get_profile : Operation
  list_identities : Operation
  create_api_key : Json → Operation
  list_api_keys : Operation
  delete_api_key : Bytes → Operation

-- A response that is kept as it is; what is sent does not depend on how the response is read.
abbrev pub raw : Decoder Bytes
raw = record { zero_value = []; unmarshal = λ text. ok text }

abbrev pub raw_keys : Decoder (ApiKeyListResponse Bytes)
raw_keys = record {
  zero_value = record { api_keys = [] };
  unmarshal = λ text. ok (record { api_keys = [] });
}

abbrev pub raw_identities : Decoder (IdentityListResponse Bytes)
raw_identities = record {
  zero_value = record { identities = [] };
  unmarshal = λ text. ok (record { identities = [] });
}

abbrev pub raw_members : Decoder (WorkspaceMemberListResponse Bytes)
raw_members = record {
  zero_value = record { members = [] };
  unmarshal = λ text. ok (record { members = [] });
}

abbrev pub done : {A : Type 0} → Reply A → Reply (Unit {0})
done reply = map_reply (λ _. tt) reply

-- What an operation gives and what it sends, without the value that its response holds.
unfoldable pub outcome_of : Net → BackupClient → Operation → Reply (Unit {0})
outcome_of net c (link_identity req) = done (Operations.link_identity net c req raw)
outcome_of net c (list_snapshots cursor limit) =
    done (Operations.list_snapshots net c cursor limit raw)
outcome_of net c (get_snapshot snapshot_id) = done (Operations.get_snapshot net c snapshot_id raw)
outcome_of net c (delete_snapshot snapshot_id) =
    done (Operations.delete_snapshot net c snapshot_id raw)
outcome_of net c (prune_snapshots req) = done (Operations.prune_snapshots net c req raw)
outcome_of net c get_usage = done (Operations.get_usage net c raw)
outcome_of net c (update_snapshot_encryption snapshot_id update) =
    done (Operations.update_snapshot_encryption net c snapshot_id update raw)
outcome_of net c (create_workspace req) = done (Operations.create_workspace net c req raw)
outcome_of net c list_workspaces = done (Operations.list_workspaces net c raw)
outcome_of net c (get_workspace workspace_id) =
    done (Operations.get_workspace net c workspace_id raw)
outcome_of net c (update_workspace workspace_id req) =
    done (Operations.update_workspace net c workspace_id req raw)
outcome_of net c (list_workspace_members workspace_id) =
    done (Operations.list_workspace_members net c workspace_id raw_members)
outcome_of net c (add_workspace_member workspace_id req) =
    done (Operations.add_workspace_member net c workspace_id req raw)
outcome_of net c (update_workspace_member workspace_id user_id req) =
    done (Operations.update_workspace_member net c workspace_id user_id req raw)
outcome_of net c (remove_workspace_member workspace_id user_id) =
    done (Operations.remove_workspace_member net c workspace_id user_id)
outcome_of net c get_profile = done (Operations.get_profile net c raw)
outcome_of net c list_identities = done (Operations.list_identities net c raw_identities)
outcome_of net c (create_api_key req) = done (Operations.create_api_key net c req raw)
outcome_of net c list_api_keys = done (Operations.list_api_keys net c raw_keys)
outcome_of net c (delete_api_key api_key_id) = done (Operations.delete_api_key net c api_key_id)

-- The operations that need a workspace.
unfoldable pub needs_workspace : Operation → Bool
needs_workspace (link_identity _) = false
needs_workspace (list_snapshots _ _) = true
needs_workspace (get_snapshot _) = true
needs_workspace (delete_snapshot _) = true
needs_workspace (prune_snapshots _) = true
needs_workspace get_usage = true
needs_workspace (update_snapshot_encryption _ _) = true
needs_workspace (create_workspace _) = false
needs_workspace list_workspaces = false
needs_workspace (get_workspace _) = false
needs_workspace (update_workspace _ _) = false
needs_workspace (list_workspace_members _) = false
needs_workspace (add_workspace_member _ _) = false
needs_workspace (update_workspace_member _ _ _) = false
needs_workspace (remove_workspace_member _ _) = false
needs_workspace get_profile = false
needs_workspace list_identities = false
needs_workspace (create_api_key _) = false
needs_workspace list_api_keys = false
needs_workspace (delete_api_key _) = false

-- The method of each operation's request, and its path, which stands below the default workspace for
-- those that need one.
unfoldable pub method_of : Operation → Bytes
method_of (link_identity _) = codes "POST"
method_of (list_snapshots _ _) = codes "GET"
method_of (get_snapshot _) = codes "GET"
method_of (delete_snapshot _) = codes "DELETE"
method_of (prune_snapshots _) = codes "POST"
method_of get_usage = codes "GET"
method_of (update_snapshot_encryption _ _) = codes "PATCH"
method_of (create_workspace _) = codes "POST"
method_of list_workspaces = codes "GET"
method_of (get_workspace _) = codes "GET"
method_of (update_workspace _ _) = codes "PATCH"
method_of (list_workspace_members _) = codes "GET"
method_of (add_workspace_member _ _) = codes "POST"
method_of (update_workspace_member _ _ _) = codes "PATCH"
method_of (remove_workspace_member _ _) = codes "DELETE"
method_of get_profile = codes "GET"
method_of list_identities = codes "GET"
method_of (create_api_key _) = codes "POST"
method_of list_api_keys = codes "GET"
method_of (delete_api_key _) = codes "DELETE"

unfoldable pub path_of : Operation → Bytes
path_of (link_identity _) = codes "/auth/link-identity"
path_of (list_snapshots cursor limit) = snapshots_path cursor limit
path_of (get_snapshot snapshot_id) = codes "/backup/snapshots/" ++ path_escape snapshot_id
path_of (delete_snapshot snapshot_id) = codes "/backup/snapshots/" ++ path_escape snapshot_id
path_of (prune_snapshots _) = codes "/backup/snapshots/prune"
path_of get_usage = codes "/usage"
path_of (update_snapshot_encryption snapshot_id _) =
    codes "/backup/snapshots/" ++ path_escape snapshot_id
path_of (create_workspace _) = codes "/workspaces"
path_of list_workspaces = codes "/workspaces"
path_of (get_workspace workspace_id) = codes "/workspaces/" ++ path_escape workspace_id
path_of (update_workspace workspace_id _) = codes "/workspaces/" ++ path_escape workspace_id
path_of (list_workspace_members workspace_id) =
    codes "/workspaces/" ++ (path_escape workspace_id ++ codes "/members")
path_of (add_workspace_member workspace_id _) =
    codes "/workspaces/" ++ (path_escape workspace_id ++ codes "/members")
path_of (update_workspace_member workspace_id user_id _) =
    codes "/workspaces/" ++ (path_escape workspace_id ++ (codes "/members/" ++ path_escape user_id))
path_of (remove_workspace_member workspace_id user_id) =
    codes "/workspaces/" ++ (path_escape workspace_id ++ (codes "/members/" ++ path_escape user_id))
path_of get_profile = codes "/user/profile"
path_of list_identities = codes "/user/identities"
path_of (create_api_key _) = codes "/user/api-keys"
path_of list_api_keys = codes "/user/api-keys"
path_of (delete_api_key api_key_id) = codes "/user/api-keys/" ++ path_escape api_key_id
