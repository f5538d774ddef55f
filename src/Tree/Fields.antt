-- ===== src/Tree/Fields.antt =====
-- About writeCanonicalStruct of tree/tree.go: the fields of the object that is written.
use baas_go_sdk.Base.{
  ◌≡◌, refl, ap, ◌∙◌, Bool, true, false, ◌&&◌, Option, none, some, [], ◌∷◌, arith, if◌then◌else◌,
}
use baas_go_sdk.Base.Text.{Bytes, str_eq, str_eq_iff}
use baas_go_sdk.Json.{Json, Fields, get}
use baas_go_sdk.Tree.{Value, Members, no_member, member, member_name, is_zero_value, str_less}
use baas_go_sdk.Tree.Spec.{canonical, canonical_members, insert_field, keep_field}

str_less-str_eq : (s t : Bytes) → str_less s t ≡ true → str_eq s t ≡ false
unfolding str_less str_eq
str_less-str_eq [] [] h = cc
str_less-str_eq [] (b ∷ t) h = refl
str_less-str_eq (a ∷ s) [] h = refl
str_less-str_eq (a ∷ s) (b ∷ t) h = ground (arith, h, str_less-str_eq s t)

get-insert_field :
    (k j : Bytes) (v : Json) (fs : Fields)
    → get k (insert_field j v fs) ≡ (if str_eq j k then some v else get k fs)
unfolding get insert_field
get-insert_field k j v Fields.end = refl
get-insert_field k j v (Fields.field i w fs) = ground (
  arith,
  str_less-str_eq i j,
  str_eq_iff i k,
  str_eq_iff j k,
  str_eq_iff i j,
  get-insert_field k j v fs,
)

-- The member that gives a field its value.
abbrev kept : Option (Bytes × Bool) → Value → Bytes → Json → Option Json → Option Json
kept none v k j found = found
kept (some (name, omitempty)) v k j found =
    if str_eq name k then (if omitempty && is_zero_value v then found else some j) else found

unfoldable pub find : Bytes → Members → Option Json
find k no_member = none
find k (member info v ms) = kept (member_name info) v k (canonical v) (find k ms)

get-keep_field :
    (k : Bytes) (tag : Option (Bytes × Bool)) (v : Value) (j : Json) (fs : Fields)
    → get k (keep_field tag v j fs) ≡ kept tag v k j (get k fs)
get-keep_field k none v j fs = refl
get-keep_field k (some (name, omitempty)) v j fs = ground (arith, get-insert_field k name j fs)

-- A field is read where a member that is written has its name.
pub get-canonical_members : (k : Bytes) (ms : Members) → get k (canonical_members ms) ≡ find k ms
unfolding canonical find get
get-canonical_members k no_member = refl
get-canonical_members k (member info v ms) =
    get-keep_field k (member_name info) v (canonical v) (canonical_members ms)
    ∙ ap (kept (member_name info) v k (canonical v)) (get-canonical_members k ms)
