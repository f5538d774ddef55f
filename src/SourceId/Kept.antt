-- ===== src/SourceId/Kept.antt =====
-- About `getOrGenerateSourceID` of client/source.go, called more than once.
use baas_go_sdk.Base.{◌≡◌, true, none, some, arith, length}
use baas_go_sdk.Base.Text.{Bytes, str_eq_refl}
use baas_go_sdk.Base.Dict.{lookup, insert, lookup-insert}
use baas_go_sdk.Encoding.Hex
use baas_go_sdk.Errors.Outcome.{ok}
use baas_go_sdk.Encrypt.{Random}
use baas_go_sdk.Encrypt.Keyfile.{Disk}
use baas_go_sdk.SourceId.{get_or_generate_source_id}

-- Where no id is stored, the directory and the file can be written and the random source gives 16
-- bytes, an id of 32 characters is made, and every later call returns the same id and changes
-- nothing, whatever its random source gives.
pub get_or_generate_source_id_lem :
    (path bytes : Bytes) (later : Random) (disk : Disk)
    → lookup path disk.files ≡ none
    → disk.writable path ≡ true
    → length bytes ≡ 16
    → (id : Bytes) × (disk' : Disk) × (length id ≡ 32)
      × (get_or_generate_source_id path true (some bytes) disk ≡ (ok id, disk'))
      × (get_or_generate_source_id path true later disk' ≡ (ok id, disk'))
unfolding get_or_generate_source_id
get_or_generate_source_id_lem path bytes later disk absent writable sixteen = (
  Hex.encode bytes,
  record disk { files = insert path (Hex.encode bytes) disk.files },
  omega (arith, Hex.length-encode bytes),
  rw (absent, writable),
  rw (lookup-insert, str_eq_refl path) (ground (arith, Hex.length-encode bytes)),
)
