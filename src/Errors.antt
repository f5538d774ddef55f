-- ===== src/Errors.antt =====
-- errors/errors.go: the structured API error, and the questions about an error chain. An `Error` is
-- a Go error value of the SDK: an error of a library, an `ApiError`, the sentinel of api, or one
-- made by `errors.New` or `fmt.Errorf`, whose format is a `Kind` with its arguments.
pub mod Kinds
pub mod Outcome
pub use Kinds.{Kind}
use baas_go_sdk.Base.{
  ℕ, Bool, true, false, ◌||◌, ◌&&◌, not, Option, none, some, List, ◌==◌, if◌then◌else◌,
}
use baas_go_sdk.Base.Text.{Bytes, codes, str_eq, contains_byte}
use baas_go_sdk.Json.{Json, Fields, get, as_string}

pub record ApiError : Type 0 where
  pub status_code : ℕ
  pub code : Bytes
  pub msg : Bytes
  -- `none` is a nil `Body`
  pub body : Option Fields

pub data Error : Type 0 where
  library : Bytes → Error
  api : ApiError → Error
  workspace_required : Error
  text : Kind → List Bytes → Error
  -- `fmt.Errorf` with `%w`
  wrap : Kind → List Bytes → Error → Error

abbrev pub or_else : Option Bytes → Option Bytes → Option Bytes
or_else (some s) _ = some s
or_else none o = o

-- A slug in the "error" field holds no space.
abbrev pub slug : Option Bytes → Option Bytes
slug none = none
slug (some c) = if contains_byte b' ' c then none else some c

-- The three fields that may hold the code, in the order of the tests.
unfoldable pub find_code : Fields → Option Bytes
find_code m =
    or_else (as_string (get (codes "code") m))
      (or_else (as_string (get (codes "errorCode") m)) (slug (as_string (get (codes "error") m))))

abbrev pub text_or_empty : Option Bytes → Bytes
text_or_empty none = codes ""
text_or_empty (some s) = s

-- A body that is no map is `none`.
unfoldable pub new_api_error : Bytes → ℕ → Option Fields → ApiError
unfolding find_code
new_api_error msg status none = record {
  status_code = status;
  code = codes "";
  msg = msg;
  body = none;
}
new_api_error msg status (some m) = record {
  status_code = status;
  code = text_or_empty (find_code m);
  msg = msg;
  body = some m;
}

-- `errors.As`: the first `ApiError` of the chain.
unfoldable pub as_api_error : Error → Option ApiError
as_api_error (library _) = none
as_api_error (api e) = some e
as_api_error workspace_required = none
as_api_error (text _ _) = none
as_api_error (wrap _ _ e) = as_api_error e

abbrev pub holds : (ApiError → Bool) → Option ApiError → Bool
holds p none = false
holds p (some e) = p e

unfoldable pub status_equals : Error → ℕ → Bool
status_equals err status = holds (λ e. e.status_code == status) (as_api_error err)

unfoldable pub is_unauthorized : Error → Bool
is_unauthorized err = status_equals err 401

unfoldable pub is_forbidden : Error → Bool
is_forbidden err = status_equals err 403

unfoldable pub is_not_found : Error → Bool
is_not_found err = status_equals err 404

unfoldable pub is_conflict : Error → Bool
is_conflict err = status_equals err 409

unfoldable pub is_payload_too_large : Error → Bool
is_payload_too_large err = status_equals err 413

unfoldable pub is_invalid_api_key : Error → Bool
is_invalid_api_key err =
    holds
      (λ e.
        str_eq e.code (codes "invalid_api_key")
        || (str_eq e.code (codes "revoked_api_key") || str_eq e.code (codes "expired_api_key")))
      (as_api_error err)

unfoldable pub is_missing_workspace_membership : Error → Bool
is_missing_workspace_membership err =
    holds (λ e. str_eq e.code (codes "missing_workspace_membership")) (as_api_error err)

unfoldable pub is_missing_scope : Error → Bool
is_missing_scope err = holds (λ e. str_eq e.code (codes "missing_scope")) (as_api_error err)

unfoldable pub is_storage_quota_exceeded : Error → Bool
is_storage_quota_exceeded err =
    holds
      (λ e. if e.status_code == 413 then true else str_eq e.code (codes "storage_quota_exceeded"))
      (as_api_error err)
