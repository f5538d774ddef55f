-- ===== src/Json.antt =====
-- Decoded JSON (Go's `any` behind encoding/json). A number keeps its text.
use baas_go_sdk.Base.{Bool, Option, none, some, if◌then◌else◌}
use baas_go_sdk.Base.Text.{Bytes, str_eq}

mutual
  pub data Json : Type 0 where
    null : Json
    bool : Bool → Json
    number : Bytes → Json
    string : Bytes → Json
    array : Items → Json
    object : Fields → Json

  pub data Items : Type 0 where
    nil : Items
    cons : Json → Items → Items

  pub data Fields : Type 0 where
    end : Fields
    field : Bytes → Json → Fields → Fields

-- `m[k]`; a nil map has no field.
unfoldable pub get : Bytes → Fields → Option Json
get k end = none
get k (field j v fs) = if str_eq j k then some v else get k fs

-- `v.(string)`
abbrev pub as_string : Option Json → Option Bytes
as_string (some (string s)) = some s
as_string _ = none
