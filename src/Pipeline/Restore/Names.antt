-- ===== src/Pipeline/Restore/Names.antt =====
-- About path/filepath under safeJoinTarget of pipeline/restore.go: the names in a clean path.
use mathlib.Core.Bool.{false≢true}
use baas_go_sdk.Base.{
  ℕ, zero, suc, ◌≡◌, ◌≢◌, refl, sym, ap, ◌∙◌, Bool, true, false, ◌||◌, List, [], ◌∷◌, ◌++◌,
  if◌then◌else◌, replicate, drop, length, arith, inl, inr, Bool-cases,
}
use baas_go_sdk.Base.Text.{Bytes, codes, str_eq, str_eq_iff, starts_with}
use baas_go_sdk.Base.All.{All, All-right}
use mathlib.Core.Path.{subst}
use baas_go_sdk.Errors.{Error, library}
use baas_go_sdk.Errors.Outcome.{Outcome, ok, err}
use baas_go_sdk.Pipeline.Restore.Target.{
  CleanPath, relative_text, climb, join_parts, dot, dot_dot, clean_path, enter, enter_all, go_up,
  reverse_onto, split_path, is_abs, rel_parts, escapes,
}

-- A name that does not lead up, and is no step that Clean drops.
abbrev pub IsName : Bytes → Type 0
IsName part = (part ≢ dot) × (part ≢ dot_dot)

abbrev pub NamesHold : CleanPath → Type 0
NamesHold p = All IsName p.names

abbrev pub text_of : Outcome Bytes → Bytes
text_of (ok s) = s
text_of _ = []

abbrev is_dot_dot : Bytes → Bool
is_dot_dot part = str_eq part dot_dot

go_up-names : (p : CleanPath) (names : List Bytes) → All IsName names → NamesHold (go_up p names)
go_up-names p [] h = tt
go_up-names p (name ∷ names) (_, h) = h

not_eq : (s t : Bytes) → str_eq s t ≡ false → s ≢ t
not_eq s t h e = false≢true (sym h ∙ (str_eq_iff s t).1 e)

or_right : (a b : Bool) → (a || b) ≡ false → b ≡ false
or_right a b h = ground arith

enter-names_by :
    (p : CleanPath) (part : Bytes) (dropped up : Bool)
    → (dropped ≡ false → part ≢ dot)
    → (up ≡ false → part ≢ dot_dot)
    → NamesHold p
    → NamesHold (
        if dropped
        then p
        else if up
        then go_up p p.names
        else record { rooted = p.rooted; ups = p.ups; names = part ∷ p.names })
enter-names_by p part true up hd hu h = h
enter-names_by p part false true hd hu h = go_up-names p p.names h
enter-names_by p part false false hd hu h = ((hd refl, hu refl), h)

enter-names : (p : CleanPath) (part : Bytes) → NamesHold p → NamesHold (enter p part)
enter-names p part =
    enter-names_by p part (str_eq part (codes "") || str_eq part dot) (str_eq part dot_dot)
      (λ e. not_eq part dot (or_right (str_eq part (codes "")) (str_eq part dot) e))
      (not_eq part dot_dot)

-- The names of a clean path lead nowhere up.
pub enter_all-names :
    (p : CleanPath) (parts : List Bytes) → NamesHold p → NamesHold (enter_all p parts)
unfolding enter_all
enter_all-names p [] h = h
enter_all-names p (part ∷ parts) h = enter_all-names (enter p part) parts (enter-names p part h)

pub reverse_onto-names :
    (xs ys : List Bytes) → All IsName xs → All IsName ys → All IsName (reverse_onto xs ys)
unfolding reverse_onto
reverse_onto-names [] ys hx hy = hy
reverse_onto-names (x ∷ xs) ys (hx, hxs) hy = reverse_onto-names xs (x ∷ ys) hxs (hx, hy)

-- The names of a clean path, in their order.
abbrev names_of : Bytes → List Bytes
names_of path = reverse_onto (clean_path path).names []

names_of-IsName : (path : Bytes) → All IsName (names_of path)
unfolding clean_path
names_of-IsName path =
    reverse_onto-names (clean_path path).names []
      (enter_all-names (record { rooted = is_abs path; ups = 0; names = [] }) (split_path path) tt)
      tt

-- A text of parts that does not escape does not begin with "..".
abbrev pub Begins : List Bytes → Type 0
Begins [] = Unit
Begins (part ∷ _) = part ≢ dot_dot

pub escapes-false : (parts : List Bytes) → escapes (relative_text parts) ≡ false → Begins parts
unfolding escapes join_parts starts_with str_eq
escapes-false [] h = tt
escapes-false (part ∷ []) h = λ e. false≢true (sym h ∙ ap (λ q. escapes (relative_text (q ∷ []))) e)
escapes-false (part ∷ next ∷ parts) h =
    λ e. false≢true (sym h ∙ ap (λ q. escapes (relative_text (q ∷ next ∷ parts))) e)

climb-up :
    (up : Bool) (steps r : List Bytes) (e : Error)
    → (if up then err e else ok (dot_dot ∷ steps)) ≡ ok r
    → Begins r
    → ⊥
climb-up true steps r e h hr = cc
climb-up false steps [] e h hr = cc
climb-up false steps (part ∷ r) e h hr = hr cc

rel_parts_same :
    (b t : Bytes) (base targ : List Bytes)
    → str_eq b t ≡ true
    → rel_parts (b ∷ base) (t ∷ targ) ≡ rel_parts base targ
unfolding rel_parts
rel_parts_same b t base targ h = ground (arith, h)

rel_parts_other :
    (b t : Bytes) (base targ : List Bytes)
    → str_eq b t ≡ false
    → rel_parts (b ∷ base) (t ∷ targ) ≡ climb b base (t ∷ targ)
unfolding rel_parts
rel_parts_other b t base targ h = ground (arith, h)

-- Rel succeeds without ".." only below the base.
pub rel_parts-inside :
    (base targ r : List Bytes) → rel_parts base targ ≡ ok r → Begins r → targ ≡ base ++ r
unfolding rel_parts
rel_parts-inside [] targ r h hr = cc
rel_parts-inside (b ∷ base) [] r h hr =
    absurd (
      climb-up (is_dot_dot b) (replicate (length base) dot_dot ++ []) r (library (codes "Rel")) h
        hr)
rel_parts-inside (b ∷ base) (t ∷ targ) r h hr = elim (Bool-cases (str_eq b t)) [
  | inl same ↦
      let below = rel_parts-inside base targ r (sym (rel_parts_same b t base targ same) ∙ h) hr in
      let part = sym ((str_eq_iff b t).0 same) in λ i. part i ∷ below i
  | inr other ↦ absurd (
      climb-up (is_dot_dot b) (replicate (length base) dot_dot ++ (t ∷ targ)) r
        (library (codes "Rel")) (sym (rel_parts_other b t base targ other) ∙ h) hr)
]

-- The parts after the base, of a path with names after "..", when they do not begin with "..".
pub rest-names :
    (u : ℕ) (names base rest : List Bytes)
    → replicate u dot_dot ++ names ≡ base ++ rest
    → All IsName names
    → Begins rest
    → All IsName rest
rest-names zero names base rest h hn hr = All-right IsName base rest (subst (All IsName) h hn)
rest-names (suc u) names [] [] h hn hr = tt
rest-names (suc u) names [] (part ∷ rest) h hn hr = absurd (hr cc)
rest-names (suc u) names (b ∷ base) rest h hn hr =
    rest-names u names base rest (ap (drop 1) h) hn hr
