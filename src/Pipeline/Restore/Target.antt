-- ===== src/Pipeline/Restore/Target.antt =====
-- About safeJoinTarget of pipeline/restore.go, with what it uses of path/filepath on Unix: Clean,
-- IsAbs, Join and Rel.
use baas_go_sdk.Base.{
  ℕ, suc, Bool, true, false, not, ◌||◌, ◌==◌, List, [], ◌∷◌, ◌++◌, if◌then◌else◌, replicate, length,
}
use baas_go_sdk.Base.Text.{Bytes, codes, str_eq, starts_with}
use baas_go_sdk.Errors.{library, text, wrap}
use baas_go_sdk.Errors.Kinds.{
  invalid_restore_path, absolute_restore_path, validate_restore_path, restore_path_escapes,
}
use baas_go_sdk.Errors.Outcome.{Outcome, ok, err, ◌>>=◌, map_err}

abbrev pub slash : Bytes
slash = codes "/"

abbrev pub dot : Bytes
dot = codes "."

abbrev pub dot_dot : Bytes
dot_dot = codes ".."

-- A path as Clean leaves it: is it absolute, how many ".." it begins with, and the names after
-- these, the last one first.
pub record CleanPath : Type 0 where
  pub rooted : Bool
  pub ups : ℕ
  pub names : List Bytes

abbrev add_byte : ℕ → List Bytes → List Bytes
add_byte c [] = (c ∷ []) ∷ []
add_byte c (part ∷ parts) = (c ∷ part) ∷ parts

-- The parts between the separators.
unfoldable pub split_path : Bytes → List Bytes
split_path [] = [] ∷ []
split_path (c ∷ s) = let rest = split_path s in if c == b'/' then [] ∷ rest else add_byte c rest

abbrev pub go_up : CleanPath → List Bytes → CleanPath
go_up p [] = record { rooted = p.rooted; ups = if p.rooted then p.ups else suc p.ups; names = [] }
go_up p (name ∷ names) = record { rooted = p.rooted; ups = p.ups; names = names }

abbrev pub enter : CleanPath → Bytes → CleanPath
enter p part =
    if str_eq part (codes "") || str_eq part dot
    then p
    else if str_eq part dot_dot
    then go_up p p.names
    else record { rooted = p.rooted; ups = p.ups; names = part ∷ p.names }

unfoldable pub enter_all : CleanPath → List Bytes → CleanPath
enter_all p [] = p
enter_all p (part ∷ parts) = enter_all (enter p part) parts

unfoldable pub is_abs : Bytes → Bool
is_abs path = starts_with path slash

unfoldable pub clean_path : Bytes → CleanPath
clean_path path = enter_all (record { rooted = is_abs path; ups = 0; names = [] }) (split_path path)

unfoldable pub reverse_onto : List Bytes → List Bytes → List Bytes
reverse_onto [] ns = ns
reverse_onto (x ∷ xs) ns = reverse_onto xs (x ∷ ns)

unfoldable pub parts_of : CleanPath → List Bytes
parts_of p = replicate p.ups dot_dot ++ reverse_onto p.names []

unfoldable pub join_parts : List Bytes → Bytes
join_parts [] = []
join_parts (part ∷ []) = part
join_parts (part ∷ next ∷ parts) = part ++ (b'/' ∷ join_parts (next ∷ parts))

abbrev pub relative_text : List Bytes → Bytes
relative_text [] = dot
relative_text (part ∷ parts) = join_parts (part ∷ parts)

-- The text of a clean path.
unfoldable pub render : CleanPath → Bytes
render p = if p.rooted then b'/' ∷ join_parts (parts_of p) else relative_text (parts_of p)

-- `filepath.Clean`
unfoldable pub clean : Bytes → Bytes
clean path = render (clean_path path)

-- `filepath.Join` of two paths, of which the second is not empty.
unfoldable pub join : Bytes → Bytes → Bytes
join dir path = if str_eq dir (codes "") then clean path else clean (dir ++ (b'/' ∷ path))

abbrev pub climb : Bytes → List Bytes → List Bytes → Outcome (List Bytes)
climb part parts targ =
    if str_eq part dot_dot
    then err (library (codes "Rel"))
    else ok (replicate (length (part ∷ parts)) dot_dot ++ targ)

unfoldable pub rel_parts : List Bytes → List Bytes → Outcome (List Bytes)
rel_parts [] targ = ok targ
rel_parts (b ∷ base) [] = climb b base []
rel_parts (b ∷ base) (t ∷ targ) =
    let rest = rel_parts base targ in if str_eq b t then rest else climb b base (t ∷ targ)

abbrev pub elements_or_dot : Bool → List Bytes → List Bytes
elements_or_dot rooted (part ∷ parts) = part ∷ parts
elements_or_dot true [] = []
elements_or_dot false [] = dot ∷ []

-- The elements of the text of a clean path.
abbrev pub elements : CleanPath → List Bytes
elements p = elements_or_dot p.rooted (parts_of p)

abbrev pub same_root : Bool → Bool → Bool
same_root true b = b
same_root false b = not b

-- `filepath.Rel`
unfoldable pub rel : Bytes → Bytes → Outcome Bytes
rel dir path =
    let base = clean_path dir in
    let targ = clean_path path in
    if same_root base.rooted targ.rooted
    then (rel_parts (parts_of base) (elements targ) >>= λ parts. ok (relative_text parts))
    else err (library (codes "Rel"))

unfoldable pub escapes : Bytes → Bool
escapes from_base = str_eq from_base dot_dot || starts_with from_base (codes "../")

abbrev pub check_inside : Bytes → Bytes → Outcome Bytes
check_inside target_dir rel_path = do
  let full_path = join target_dir (clean rel_path)
  from_base ← map_err (wrap validate_restore_path (rel_path ∷ [])) (rel target_dir full_path)
  if escapes from_base then err (text restore_path_escapes (rel_path ∷ [])) else ok full_path

unfoldable pub safe_join_target : Bytes → Bytes → Outcome Bytes
safe_join_target target_dir rel_path =
    let clean_rel = clean rel_path in
    if str_eq clean_rel dot || str_eq clean_rel (codes "")
    then err (text invalid_restore_path (rel_path ∷ []))
    else if is_abs clean_rel
    then err (text absolute_restore_path (rel_path ∷ []))
    else check_inside target_dir rel_path
