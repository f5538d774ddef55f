-- ===== src/SourceId.antt =====
-- client/source.go: the id of a backup source, which is made once and kept in a file. The random
-- source is the result of `rand.Read`, and the directory exists if `made` holds.
pub mod Kept
use baas_go_sdk.Base.{
  Bool, true, false, Option, none, some, List, [], ◌∷◌, ◌==◌, if◌then◌else◌, length,
}
use baas_go_sdk.Base.Text.{Bytes, codes}
use baas_go_sdk.Base.Dict.{Dict, lookup, insert}
use baas_go_sdk.Encoding.Hex
use baas_go_sdk.Errors.{library}
use baas_go_sdk.Errors.Outcome.{Outcome, ok, err}
use baas_go_sdk.Encrypt.{Random}
use baas_go_sdk.Encrypt.Keyfile.{Disk}

-- `os.WriteFile`
abbrev write_id : Bytes → Bytes → Disk → Outcome Bytes × Disk
write_id path id disk =
    if disk.writable path
    then (ok id, record disk { files = insert path id disk.files })
    else (err (library (codes "write")), disk)

abbrev generate_id : Bytes → Random → Disk → Outcome Bytes × Disk
generate_id path none disk = (err (library (codes "rand")), disk)
generate_id path (some bytes) disk = write_id path (Hex.encode bytes) disk

-- An empty file is as good as none.
abbrev stored_id : Option Bytes → Option Bytes
stored_id none = none
stored_id (some id) = if length id == 0 then none else some id

abbrev read_or : Bytes → Random → Disk → Option Bytes → Outcome Bytes × Disk
read_or path r disk none = generate_id path r disk
read_or path r disk (some id) = (ok id, disk)

-- `path` is the file `source_id` below the target's `.lighthouse`.
unfoldable pub get_or_generate_source_id : Bytes → Bool → Random → Disk → Outcome Bytes × Disk
get_or_generate_source_id path made r disk =
    if made
    then read_or path r disk (stored_id (lookup path disk.files))
    else (err (library (codes "mkdir")), disk)
