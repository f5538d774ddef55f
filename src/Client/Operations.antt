-- ===== src/Client/Operations.antt =====
-- About the operations of BackupClient in client/client.go that first check the sign-in or the
-- workspace.
use baas_go_sdk.Base.{Option, none, some, List, []}
use baas_go_sdk.Base.Text.{Bytes}
use baas_go_sdk.Base.Int.{ℤ}
use baas_go_sdk.Json.{Json}
use baas_go_sdk.Errors.{Error}
use baas_go_sdk.Errors.Outcome.{err}
use baas_go_sdk.Api.{Net, Decoder, Reply}
use baas_go_sdk.Api.Endpoints
use baas_go_sdk.Api.Endpoints.{
  map_reply, ApiKeyListResponse, IdentityListResponse, WorkspaceMemberListResponse,
}
use baas_go_sdk.Client.{BackupClient, ensure_auth, ensure_workspace}

-- A check that ends the operation before anything is sent.
abbrev pub unless : {A : Type 0} → Option Error → Reply A → Reply A
unless none next = next
unless (some e) next = (err e, [])

-- The two guards of an operation in the default workspace.
abbrev pub in_workspace : {A : Type 0} → BackupClient → Reply A → Reply A
in_workspace c next = unless (ensure_auth c) (unless (ensure_workspace c) next)

module _ (net : Net) (c : BackupClient) where
  abbrev pub link_identity : {A : Type 0} → Json → Decoder A → Reply A
  link_identity req d = unless (ensure_auth c) (Endpoints.link_identity net c.http req d)

  abbrev pub list_snapshots : {A : Type 0} → Bytes → ℤ → Decoder A → Reply A
  list_snapshots cursor limit d =
      in_workspace c (Endpoints.list_snapshots net c.http cursor limit d)

  abbrev pub get_snapshot : {A : Type 0} → Bytes → Decoder A → Reply A
  get_snapshot snapshot_id d = in_workspace c (Endpoints.get_snapshot net c.http snapshot_id d)

  abbrev pub delete_snapshot : {A : Type 0} → Bytes → Decoder A → Reply (Unit {0})
  delete_snapshot snapshot_id d =
      in_workspace c (map_reply (λ resp. tt) (Endpoints.delete_snapshot net c.http snapshot_id d))

  abbrev pub prune_snapshots : {A : Type 0} → Json → Decoder A → Reply A
  prune_snapshots req d = in_workspace c (Endpoints.prune_snapshots net c.http req d)

  abbrev pub get_usage : {A : Type 0} → Decoder A → Reply A
  get_usage d = in_workspace c (Endpoints.get_usage net c.http d)

  abbrev pub update_snapshot_encryption : {A : Type 0} → Bytes → Json → Decoder A → Reply A
  update_snapshot_encryption snapshot_id update d =
      in_workspace c (Endpoints.update_snapshot_encryption net c.http snapshot_id update d)

  abbrev pub create_workspace : {A : Type 0} → Json → Decoder A → Reply A
  create_workspace req d = unless (ensure_auth c) (Endpoints.create_workspace net c.http req d)

  abbrev pub list_workspaces : {A : Type 0} → Decoder A → Reply A
  list_workspaces d = unless (ensure_auth c) (Endpoints.list_workspaces net c.http d)

  abbrev pub get_workspace : {A : Type 0} → Bytes → Decoder A → Reply A
  get_workspace workspace_id d =
      unless (ensure_auth c) (Endpoints.get_workspace net c.http workspace_id d)

  abbrev pub update_workspace : {A : Type 0} → Bytes → Json → Decoder A → Reply A
  update_workspace workspace_id req d =
      unless (ensure_auth c) (Endpoints.update_workspace net c.http workspace_id req d)

  abbrev pub list_workspace_members :
      {A : Type 0} → Bytes → Decoder (WorkspaceMemberListResponse A) → Reply (List A)
  list_workspace_members workspace_id d =
      unless (ensure_auth c) (Endpoints.list_workspace_members net c.http workspace_id d)

  abbrev pub add_workspace_member : {A : Type 0} → Bytes → Json → Decoder A → Reply A
  add_workspace_member workspace_id req d =
      unless (ensure_auth c) (Endpoints.add_workspace_member net c.http workspace_id req d)

  abbrev pub update_workspace_member : {A : Type 0} → Bytes → Bytes → Json → Decoder A → Reply A
  update_workspace_member workspace_id user_id req d =
      unless (ensure_auth c)
        (Endpoints.update_workspace_member net c.http workspace_id user_id req d)

  abbrev pub remove_workspace_member : Bytes → Bytes → Reply (Unit {0})
  remove_workspace_member workspace_id user_id =
      unless (ensure_auth c) (Endpoints.remove_workspace_member net c.http workspace_id user_id)

  abbrev pub get_profile : {A : Type 0} → Decoder A → Reply A
  get_profile d = unless (ensure_auth c) (Endpoints.get_profile net c.http d)

  abbrev pub list_identities : {A : Type 0} → Decoder (IdentityListResponse A) → Reply (List A)
  list_identities d = unless (ensure_auth c) (Endpoints.list_identities net c.http d)

  abbrev pub create_api_key : {A : Type 0} → Json → Decoder A → Reply A
  create_api_key req d = unless (ensure_auth c) (Endpoints.create_api_key net c.http req d)

  abbrev pub list_api_keys : {A : Type 0} → Decoder (ApiKeyListResponse A) → Reply (List A)
  list_api_keys d = unless (ensure_auth c) (Endpoints.list_api_keys net c.http d)

  abbrev pub delete_api_key : Bytes → Reply (Unit {0})
  delete_api_key api_key_id =
      unless (ensure_auth c) (Endpoints.delete_api_key net c.http api_key_id)
