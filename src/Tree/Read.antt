-- ===== src/Tree/Read.antt =====
-- About the canonical JSON of tree/tree.go: a reader of it.
use baas_go_sdk.Base.{
  ℕ, zero, suc, ◌+◌, ◌≤◌, ◌≡◌, refl, sym, ap, ◌∙◌, true, false, ◌||◌, Option, none, some, List, [],
  ◌∷◌, ◌++◌, append_assoc, map, arith, append-nil, ◌==◌, if◌then◌else◌, drop,
}
use baas_go_sdk.Base.Text.{Bytes, codes}
use baas_go_sdk.Base.All.{All}
use baas_go_sdk.Json.{Json, Items, Fields}
use baas_go_sdk.Tree.{write_canonical_string, with_commas, write_rest, write_pair}
use baas_go_sdk.Tree.Spec.{print, print_items, print_fields}
use baas_go_sdk.Tree.Numbers.{
  Plain, PlainItems, PlainFields, IsNumberByte, Stops, is_number_byte, read_number,
  read_number-append, size, size_items, size_fields,
}
use baas_go_sdk.Tree.Strings.{◌>>=◌, read_string, read_string-write_canonical_string}

abbrev read_word : ℕ → Bytes → Json × Bytes
read_word c s =
    if c == b'n'
    then (Json.null, drop 3 s)
    else if c == b't'
    then (Json.bool true, drop 3 s)
    else (Json.bool false, drop 4 s)

-- A list that is not empty, as if it began with a comma.
abbrev open_list : Bytes → Bytes
open_list [] = []
open_list (c ∷ s) = if c == b']' || c == b'}' then c ∷ s else b',' ∷ c ∷ s

-- A value is read with fuel for its parts; `read_rest` and `read_fields` begin at a comma or at
-- the closing bracket.
mutual
  read : ℕ → Bytes → Option (Json × Bytes)
  read zero s = none
  read (suc n) [] = none
  read (suc n) (c ∷ s) = elim (is_number_byte c) [
    | true ↦ (let p = read_number (c ∷ s) in some (Json.number p.0, p.1))
    | false ↦ elim (c == b'"') [
      | true ↦ read_string (c ∷ s) >>= λ p. some (Json.string p.0, p.1)
      | false ↦ elim (c == b'[') [
        | true ↦ read_rest n (open_list s) >>= λ p. some (Json.array p.0, p.1)
        | false ↦ elim (c == b'{') [
          | true ↦ read_fields n (open_list s) >>= λ p. some (Json.object p.0, p.1)
          | false ↦ some (read_word c s)
        ]
      ]
    ]
  ]

  read_rest : ℕ → Bytes → Option (Items × Bytes)
  read_rest zero s = none
  read_rest (suc n) [] = none
  read_rest (suc n) (c ∷ s) = elim (c == b',') [
    | true ↦ read n s >>= λ p. read_rest n p.1 >>= λ q. some (Items.cons p.0 q.0, q.1)
    | false ↦ some (Items.nil, s)
  ]

  read_fields : ℕ → Bytes → Option (Fields × Bytes)
  read_fields zero s = none
  read_fields (suc n) [] = none
  read_fields (suc n) (c ∷ s) = elim (c == b',') [
    | true ↦ read_string s >>= λ k.
        read n (drop 1 k.1) >>= λ p. read_fields n p.1 >>= λ q. some (Fields.field k.0 p.0 q.0, q.1)
    | false ↦ some (Fields.end, s)
  ]

read_at_number :
    (n c : ℕ) (s r : Bytes)
    → IsNumberByte c
    → All IsNumberByte s
    → Stops r
    → read (suc n) ((c ∷ s) ++ r) ≡ some (Json.number (c ∷ s), r)
unfolding read
read_at_number n c s r hc hs stops = ground (arith, hc, read_number-append (c ∷ s) r (hc, hs) stops)

read_at_string :
    (n : ℕ) (s r : Bytes) → read (suc n) (write_canonical_string s ++ r) ≡ some (Json.string s, r)
unfolding read is_number_byte write_canonical_string
read_at_string n s r =
    ap (λ (o : Option (Bytes × Bytes)). o >>= λ q. some (Json.string q.0, q.1))
      (read_string-write_canonical_string s r)

read_at_array :
    (n : ℕ) (s : Bytes)
    → read (suc n) (b'[' ∷ s) ≡ (read_rest n (open_list s) >>= λ p. some (Json.array p.0, p.1))
unfolding read is_number_byte
read_at_array n s = refl

read_at_object :
    (n : ℕ) (s : Bytes)
    → read (suc n) (b'{' ∷ s) ≡ (read_fields n (open_list s) >>= λ p. some (Json.object p.0, p.1))
unfolding read is_number_byte
read_at_object n s = refl

-- What is printed does not begin with a closing bracket.
open_list-print :
    (j : Json) (r : Bytes) → Plain j → open_list (print j ++ r) ≡ b',' ∷ (print j ++ r)
unfolding Plain print write_canonical_string is_number_byte
open_list-print Json.null r h = refl
open_list-print (Json.bool true) r h = refl
open_list-print (Json.bool false) r h = refl
open_list-print (Json.number []) r h = absurd h
open_list-print (Json.number (c ∷ s)) r (hc, _) = ground (arith, hc)
open_list-print (Json.string s) r h = refl
open_list-print (Json.array vs) r h = refl
open_list-print (Json.object fs) r h = refl

open_list-items :
    (vs : Items) (r : Bytes)
    → PlainItems vs
    → open_list ((with_commas (print_items vs) ++ codes "]") ++ r)
      ≡ write_rest (print_items vs) ++ (b']' ∷ r)
unfolding Plain print with_commas write_rest
open_list-items Items.nil r h = refl
open_list-items (Items.cons v vs) r (hv, hs) =
    let text = write_rest (print_items vs) in
    ap open_list
      (append_assoc (print v ++ text) (codes "]") r ∙ append_assoc (print v) text (b']' ∷ r))
    ∙ open_list-print v (text ++ (b']' ∷ r)) hv
    ∙ ap (λ s. b',' ∷ s) (sym (append_assoc (print v) text (b']' ∷ r)))

open_list-fields :
    (fs : Fields) (r : Bytes)
    → open_list ((with_commas (map write_pair (print_fields fs)) ++ codes "}") ++ r)
      ≡ write_rest (map write_pair (print_fields fs)) ++ (b'}' ∷ r)
unfolding print with_commas write_rest write_canonical_string
open_list-fields Fields.end r = refl
open_list-fields (Fields.field k v fs) r =
    ap (λ s. b',' ∷ s)
      (append_assoc (write_pair (k, print v) ++ write_rest (map write_pair (print_fields fs)))
        (codes "}") r)

rest-Stops :
    (texts : List Bytes) (c : ℕ) (r : Bytes)
    → is_number_byte c ≡ false
    → Stops (write_rest texts ++ (c ∷ r))
unfolding write_rest is_number_byte
rest-Stops [] c r h = h
rest-Stops (t ∷ texts) c r h = refl

-- What is printed is read back, whatever follows that does not prolong it.
mutual
  unfolding read Plain size print is_number_byte write_rest

  read-print :
      (n : ℕ) (j : Json) (r : Bytes)
      → size j ≤ n
      → Plain j
      → Stops r
      → read n (print j ++ r) ≡ some (j, r)
  read-print zero Json.null r h p stops = absurd (omega arith)
  read-print zero (Json.bool _) r h p stops = absurd (omega arith)
  read-print zero (Json.number _) r h p stops = absurd (omega arith)
  read-print zero (Json.string _) r h p stops = absurd (omega arith)
  read-print zero (Json.array _) r h p stops = absurd (omega arith)
  read-print zero (Json.object _) r h p stops = absurd (omega arith)
  read-print (suc n) Json.null r h p stops = refl
  read-print (suc n) (Json.bool true) r h p stops = refl
  read-print (suc n) (Json.bool false) r h p stops = refl
  read-print (suc n) (Json.number []) r h p stops = absurd p
  read-print (suc n) (Json.number (c ∷ s)) r h (hc, hs) stops = read_at_number n c s r hc hs stops
  read-print (suc n) (Json.string s) r h p stops = read_at_string n s r
  read-print (suc n) (Json.array vs) r h p stops =
      read_at_array n ((with_commas (print_items vs) ++ codes "]") ++ r)
      ∙ ap (λ s. read_rest n s >>= λ q. some (Json.array q.0, q.1)) (open_list-items vs r p)
      ∙ ap (λ o. o >>= λ q. some (Json.array q.0, q.1)) (read_rest-print n vs r (omega arith) p)
  read-print (suc n) (Json.object fs) r h p stops =
      read_at_object n ((with_commas (map write_pair (print_fields fs)) ++ codes "}") ++ r)
      ∙ ap (λ s. read_fields n s >>= λ q. some (Json.object q.0, q.1)) (open_list-fields fs r)
      ∙ ap (λ o. o >>= λ q. some (Json.object q.0, q.1)) (read_fields-print n fs r (omega arith) p)

  read_rest-print :
      (n : ℕ) (vs : Items) (r : Bytes)
      → size_items vs ≤ n
      → PlainItems vs
      → read_rest n (write_rest (print_items vs) ++ (b']' ∷ r)) ≡ some (vs, r)
  read_rest-print zero Items.nil r h p = absurd (omega arith)
  read_rest-print zero (Items.cons _ _) r h p = absurd (omega arith)
  read_rest-print (suc n) Items.nil r h p = refl
  read_rest-print (suc n) (Items.cons v vs) r h (pv, ps) =
      let tail = write_rest (print_items vs) ++ (b']' ∷ r) in
      ap (λ s. read n s >>= λ q. read_rest n q.1 >>= λ w. some (Items.cons q.0 w.0, w.1))
        (append_assoc (print v) (write_rest (print_items vs)) (b']' ∷ r))
      ∙ ap (λ o. o >>= λ q. read_rest n q.1 >>= λ w. some (Items.cons q.0 w.0, w.1))
          (read-print n v tail (omega arith) pv (rest-Stops (print_items vs) b']' r refl))
      ∙ ap (λ o. o >>= λ w. some (Items.cons v w.0, w.1)) (read_rest-print n vs r (omega arith) ps)

  read_fields-print :
      (n : ℕ) (fs : Fields) (r : Bytes)
      → size_fields fs ≤ n
      → PlainFields fs
      → read_fields n (write_rest (map write_pair (print_fields fs)) ++ (b'}' ∷ r)) ≡ some (fs, r)
  read_fields-print zero Fields.end r h p = absurd (omega arith)
  read_fields-print zero (Fields.field _ _ _) r h p = absurd (omega arith)
  read_fields-print (suc n) Fields.end r h p = refl
  read_fields-print (suc n) (Fields.field k v fs) r h (pv, ps) =
      let rest = write_rest (map write_pair (print_fields fs)) in
      let tail = rest ++ (b'}' ∷ r) in
      ap
        (λ s. read_string s >>= λ o. read n (drop 1 o.1) >>= λ q.
          read_fields n q.1 >>= λ w. some (Fields.field o.0 q.0 w.0, w.1))
        (append_assoc (write_pair (k, print v)) rest (b'}' ∷ r)
          ∙ append_assoc (write_canonical_string k) (b':' ∷ print v) tail)
      ∙ ap
          (λ o. o >>= λ o'. read n (drop 1 o'.1) >>= λ q.
            read_fields n q.1 >>= λ w. some (Fields.field o'.0 q.0 w.0, w.1))
          (read_string-write_canonical_string k (b':' ∷ (print v ++ tail)))
      ∙ ap (λ o. o >>= λ q. read_fields n q.1 >>= λ w. some (Fields.field k q.0 w.0, w.1))
          (read-print n v tail (omega arith) pv
            (rest-Stops (map write_pair (print_fields fs)) b'}' r refl))
      ∙ ap (λ o. o >>= λ w. some (Fields.field k v w.0, w.1))
          (read_fields-print n fs r (omega arith) ps)

first_of : Option (Json × Bytes) → Json
first_of none = Json.null
first_of (some p) = p.0

-- Two values with the same text are the same.
pub print-injective : (a b : Json) → Plain a → Plain b → print a ≡ print b → a ≡ b
unfolding first_of
print-injective a b pa pb h =
    let n = size a + size b in
    let back : (j : Json) → Plain j → size j ≤ n → first_of (read n (print j)) ≡ j = λ j pj le.
      ap (λ s. first_of (read n s)) (sym (append-nil (print j)))
      ∙ ap first_of (read-print n j [] le pj tt) in
    sym (back a pa (omega arith)) ∙ ap (λ s. first_of (read n s)) h ∙ back b pb (omega arith)
