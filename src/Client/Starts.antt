-- ===== src/Client/Starts.antt =====
-- About Restore of BackupClient in client/client.go: when its pipeline runs, and with which client.
use baas_go_sdk.Base.{
  ℕ, ◌≡◌, ◌≢◌, ◌⊎◌, refl, sym, ap, ◌∙◌, [], Bool, true, false, Option, none, some, inl, inr,
  if◌then◌else◌,
}
use mathlib.Core.Bool.{false≢true}
use baas_go_sdk.Base.Text.{Bytes, codes, str_eq, str_eq_iff}
use baas_go_sdk.Base.Dict.{Dict}
use baas_go_sdk.Errors.{text, workspace_required}
use baas_go_sdk.Errors.Kinds.{not_authenticated}
use baas_go_sdk.Errors.Outcome.{Outcome, ok, err}
use baas_go_sdk.Types.{RestoreOptions}
use baas_go_sdk.Encrypt.Keyfile.{Disk, EncryptionOptions, KeyfileLibrary}
use baas_go_sdk.Api.{HttpClient, Net, with_workspace}
use baas_go_sdk.Pipeline.Objects.{Libraries}
use baas_go_sdk.Pipeline.Restore.Write.{Refusals}
use baas_go_sdk.Pipeline.Restore.Run.{Restored, perform_restore}
use baas_go_sdk.Client.{BackupClient, ensure_auth, ensure_workspace, http_for_op}
use baas_go_sdk.Client.Transfer.{
  Readers, server_of, not_started, workspace_of, restore, restore_with, restore_unless,
}

-- The client of the calls, which has the address and the token of this one: it works in the
-- workspace of the options if they name one, and else in the client's own, which is set.
pub record IsHttpFor (c : BackupClient) (wanted : Bytes) (http : HttpClient) : Type 0 where
  pub same_url : http.base_url ≡ c.http.base_url
  pub same_token : http.token ≡ c.http.token
  pub set : http.workspace_id ≢ codes ""
  pub chosen :
      (http.workspace_id ≡ wanted)
      ⊎ ((wanted ≡ codes "") × (http.workspace_id ≡ c.http.workspace_id))

not_set : (s : Bytes) → str_eq s (codes "") ≡ false → s ≢ codes ""
not_set s h e = false≢true (sym h ∙ (str_eq_iff s (codes "")).1 e)

-- How the client of an operation comes out: there is no workspace, or it has one.
abbrev Chosen : BackupClient → Bytes → Outcome HttpClient → Type 0
Chosen c wanted got =
    ((wanted ≡ codes "") × (c.http.workspace_id ≡ codes "") × (got ≡ err workspace_required))
    ⊎ ((http : HttpClient) × (got ≡ ok http) × IsHttpFor c wanted http)

own_by :
    (c : BackupClient) (missing : Bool)
    → str_eq c.http.workspace_id (codes "") ≡ missing
    → ensure_workspace c ≡ (if missing then some workspace_required else none)
unfolding ensure_workspace
own_by c true e = rw e refl
own_by c false e = rw e refl

http_for_op_own :
    (c : BackupClient) (wanted : Bytes) (missing : Bool)
    → str_eq wanted (codes "") ≡ true
    → str_eq c.http.workspace_id (codes "") ≡ missing
    → Chosen c wanted (http_for_op wanted c)
unfolding http_for_op
http_for_op_own c wanted true w e =
    rw (w, own_by c true e)
      (inl
        ((str_eq_iff wanted (codes "")).0 w, (str_eq_iff c.http.workspace_id (codes "")).0 e, refl))
http_for_op_own c wanted false w e =
    let used : IsHttpFor c wanted c.http = record {
      same_url = refl;
      same_token = refl;
      set = not_set c.http.workspace_id e;
      chosen = inr ((str_eq_iff wanted (codes "")).0 w, refl);
    } in
    rw (w, own_by c false e) (inr (c.http, refl, used))

http_for_op_by :
    (c : BackupClient) (wanted : Bytes) (missing : Bool)
    → str_eq wanted (codes "") ≡ missing
    → Chosen c wanted (http_for_op wanted c)
unfolding http_for_op
http_for_op_by c wanted true w =
    http_for_op_own c wanted (str_eq c.http.workspace_id (codes "")) w refl
http_for_op_by c wanted false w =
    let used : IsHttpFor c wanted (with_workspace wanted c.http) = record {
      same_url = refl;
      same_token = refl;
      set = not_set wanted w;
      chosen = inl refl;
    } in
    rw w (inr (with_workspace wanted c.http, refl, used))

module _ (net : Net) (rs : Readers) (l : Libraries) (k : KeyfileLibrary) (key_disk : Disk)
    (depth : ℕ) (r : Refusals) (is_time : Bytes → Bool) (c : BackupClient)
    (snapshot_id target_dir : Bytes) (options : Option (RestoreOptions EncryptionOptions))
    (disk : Dict Bytes) where
  -- A restore is refused before anything is read or written, for the lack of a sign-in or of a
  -- workspace, or its pipeline runs.
  abbrev pub Started : Restored → Type 0
  Started done =
      ((c.authenticated ≡ false) × (done ≡ not_started disk (text not_authenticated [])))
      ⊎ ((c.authenticated ≡ true)
          × (workspace_of options ≡ codes "")
          × (c.http.workspace_id ≡ codes "")
          × (done ≡ not_started disk workspace_required))
      ⊎ ((c.authenticated ≡ true)
          × ((http : HttpClient) × IsHttpFor c (workspace_of options) http
              × (done
                  ≡ perform_restore l k (server_of net rs http) key_disk depth r is_time target_dir
                      snapshot_id options c.concurrency disk)))

  abbrev with_chosen : Outcome HttpClient → Restored
  with_chosen got =
      restore_with net rs l k key_disk depth r is_time got c snapshot_id target_dir options disk

  with_chosen-Started :
      c.authenticated ≡ true
      → Chosen c (workspace_of options) (http_for_op (workspace_of options) c)
      → Started (with_chosen (http_for_op (workspace_of options) c))
  with_chosen-Started signed (inl (wanted, own, e)) =
      inr (inl (signed, wanted, own, ap with_chosen e))
  with_chosen-Started signed (inr (http, e, used)) =
      inr (inr (signed, (http, used, ap with_chosen e)))

  restore_unless-Started :
      (signed : Bool)
      → c.authenticated ≡ signed
      → Started (
          restore_unless net rs l k key_disk depth r is_time
            (if signed then none else some (text not_authenticated []))
            c
            snapshot_id
            target_dir
            options
            disk)
  restore_unless-Started true e =
      with_chosen-Started e
        (http_for_op_by c (workspace_of options) (str_eq (workspace_of options) (codes "")) refl)
  restore_unless-Started false e = inl (e, refl)

  -- `Restore`, not signed in, gives the error for that; signed in, but with no workspace in the
  -- options and none in the client, it gives the error for that; in both cases it leaves the disk as it was.
  -- Otherwise it is what its pipeline does with a client of the same address and token in a workspace
  -- that is set: that of the options where they name one, else the client's own.
  pub restore-Started :
      Started (restore net rs l k key_disk depth r is_time c snapshot_id target_dir options disk)
  unfolding restore ensure_auth
  restore-Started = restore_unless-Started c.authenticated refl
