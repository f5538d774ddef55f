-- ===== src/Pipeline/Restore/Inside.antt =====
-- About safeJoinTarget of pipeline/restore.go: where the paths it accepts lie.
use mathlib.Core.Bool.{false≢true}
use baas_go_sdk.Base.{
  ℕ, zero, suc, ◌≡◌, refl, sym, ap, ◌∙◌, Bool, true, false, ◌||◌, List, [], ◌∷◌, ◌++◌,
  if◌then◌else◌, replicate,
}
use baas_go_sdk.Base.Text.{Bytes, codes, str_eq}
use baas_go_sdk.Base.All.{All}
use baas_go_sdk.Errors.{library, text, wrap}
use baas_go_sdk.Errors.Kinds.{
  invalid_restore_path, absolute_restore_path, validate_restore_path, restore_path_escapes,
}
use baas_go_sdk.Errors.Outcome.{
  ok, err, ◌>>=◌, map_err, map_err-eq-ok, >>=-eq-ok, guard-eq-ok, require-eq-ok, ok-injective,
}
use baas_go_sdk.Pipeline.Restore.Target.{
  CleanPath, relative_text, dot, dot_dot, clean_path, clean, parts_of, reverse_onto, split_path,
  is_abs, rel_parts, elements, elements_or_dot, same_root, rel, join, escapes, check_inside,
  safe_join_target,
}
use baas_go_sdk.Pipeline.Restore.Names.{
  IsName, NamesHold, text_of, enter_all-names, reverse_onto-names, Begins, escapes-false,
  rel_parts-inside, rest-names,
}

-- The path lies at the base or below it: it goes on with names.
abbrev pub IsBelow : CleanPath → CleanPath → Type 0
IsBelow base path =
    (rest : List Bytes) × (path.rooted ≡ base.rooted)
    × (parts_of path ≡ parts_of base ++ rest)
    × All IsName rest

head_or_nil : List Bytes → Bytes
head_or_nil [] = []
head_or_nil (part ∷ _) = part

parts_of-ne-dot :
    (u : ℕ) (names xs : List Bytes) → All IsName names → replicate u dot_dot ++ names ≡ dot ∷ xs → ⊥
unfolding head_or_nil str_eq
parts_of-ne-dot zero [] xs hn h = false≢true (ap (λ s. str_eq (head_or_nil s) dot) h)
parts_of-ne-dot zero (name ∷ names) xs ((hd, _), _) h = hd (ap head_or_nil h)
parts_of-ne-dot (suc u) names xs hn h = false≢true (ap (λ s. str_eq (head_or_nil s) dot) h)

-- The parts behind the elements of the text, of which "." stands for no part.
elements-below :
    (rooted : Bool) (parts base rest : List Bytes)
    → ((xs : List Bytes) → base ≡ dot ∷ xs → ⊥)
    → elements_or_dot rooted parts ≡ base ++ rest
    → Begins rest
    → (below : List Bytes) × (parts ≡ base ++ below) × Begins below
unfolding head_or_nil
elements-below rooted (part ∷ parts) base rest hb h hr = (rest, h, hr)
elements-below true [] base rest hb h hr = (rest, h, hr)
elements-below false [] [] rest hb h hr = ([], refl, tt)
elements-below false [] (b ∷ base) rest hb h hr =
    absurd (hb base (λ i. head_or_nil (sym h i) ∷ base))

same_root-eq : (a b : Bool) → same_root a b ≡ true → b ≡ a
same_root-eq true b h = h
same_root-eq false true h = sym h
same_root-eq false false h = refl

path-IsBelow :
    (base targ : CleanPath) (rest : List Bytes)
    → All IsName base.names
    → All IsName targ.names
    → same_root base.rooted targ.rooted ≡ true
    → elements targ ≡ parts_of base ++ rest
    → Begins rest
    → IsBelow base targ
unfolding parts_of
path-IsBelow base targ rest hb ht root h hr =
    let (below, eq, begins) =
      elements-below targ.rooted (parts_of targ) (parts_of base) rest
        (λ xs.
          parts_of-ne-dot base.ups (reverse_onto base.names []) xs
            (reverse_onto-names base.names [] hb tt))
        h hr in
    (
      below,
      same_root-eq base.rooted targ.rooted root,
      eq,
      rest-names targ.ups (reverse_onto targ.names []) (parts_of base) below eq
          (reverse_onto-names targ.names [] ht tt) begins,
    )

clean_path-names : (path : Bytes) → NamesHold (clean_path path)
unfolding clean_path
clean_path-names path =
    enter_all-names (record { rooted = is_abs path; ups = 0; names = [] }) (split_path path) tt

rel-same_root :
    (dir path r : Bytes)
    → rel dir path ≡ ok r
    → (same_root (clean_path dir).rooted (clean_path path).rooted ≡ true)
      × ((rel_parts (parts_of (clean_path dir)) (elements (clean_path path)) >>= λ parts.
            ok (relative_text parts))
          ≡ ok r)
unfolding rel
rel-same_root dir path r h =
    require-eq-ok (same_root (clean_path dir).rooted (clean_path path).rooted)
      (library (codes "Rel"))
      (rel_parts (parts_of (clean_path dir)) (elements (clean_path path)) >>= λ parts.
        ok (relative_text parts))
      h

-- Rel gives a text that does not escape only for a path at the base or below it.
rel-IsBelow :
    (dir path r : Bytes)
    → rel dir path ≡ ok r
    → escapes r ≡ false
    → IsBelow (clean_path dir) (clean_path path)
rel-IsBelow dir path r h stays =
    let (root, chain) = rel-same_root dir path r h in
    let base = parts_of (clean_path dir) in
    let (parts, shown, eq) =
      >>=-eq-ok (rel_parts base (elements (clean_path path))) (λ ps. ok (relative_text ps)) chain in
    let begins = escapes-false parts (ap (λ o. escapes (text_of o)) shown ∙ stays) in
    path-IsBelow (clean_path dir) (clean_path path) parts (clean_path-names dir)
      (clean_path-names path) root
      (rel_parts-inside base (elements (clean_path path)) parts eq begins) begins

check_inside-rel :
    (dir rel_path full : Bytes)
    → check_inside dir rel_path ≡ ok full
    → (r : Bytes) × (rel dir full ≡ ok r) × (escapes r ≡ false)
check_inside-rel dir rel_path full h =
    let path = join dir (clean rel_path) in
    let outside = wrap validate_restore_path (rel_path ∷ []) in
    let (r, next, eq) =
      >>=-eq-ok (map_err outside (rel dir path))
        (λ from_base.
          if escapes from_base then err (text restore_path_escapes (rel_path ∷ [])) else ok path)
        h in
    let (stays, same) =
      guard-eq-ok (escapes r) (text restore_path_escapes (rel_path ∷ [])) (ok path) next in
    let found = map_err-eq-ok outside (rel dir path) eq in
    (r, ap (rel dir) (sym (ok-injective same)) ∙ found, stays)

-- A path that is accepted lies at the target directory or below it: both are absolute or both
-- relative, and its parts are those of the directory and then names, none of them ".." or ".".
pub safe_join_target-IsBelow :
    (target_dir rel_path full_path : Bytes)
    → safe_join_target target_dir rel_path ≡ ok full_path
    → IsBelow (clean_path target_dir) (clean_path full_path)
unfolding safe_join_target
safe_join_target-IsBelow target_dir rel_path full_path h =
    let clean_rel = clean rel_path in
    let (_, given) =
      guard-eq-ok (str_eq clean_rel dot || str_eq clean_rel (codes ""))
        (text invalid_restore_path (rel_path ∷ []))
        (if is_abs clean_rel
          then err (text absolute_restore_path (rel_path ∷ []))
          else check_inside target_dir rel_path)
        h in
    let (_, checked) =
      guard-eq-ok (is_abs clean_rel) (text absolute_restore_path (rel_path ∷ []))
        (check_inside target_dir rel_path) given in
    let (r, eq, stays) = check_inside-rel target_dir rel_path full_path checked in
    rel-IsBelow target_dir full_path r eq stays
