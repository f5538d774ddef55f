-- ===== src/Tree/Numbers.antt =====
-- About the numbers in canonical JSON, from tree/tree.go: their form, and how they are read.
use baas_go_sdk.Base.{
  ℕ, ◌+◌, ◌≡◌, refl, Bool, true, false, ◌&&◌, ◌||◌, [], ◌∷◌, ◌++◌, arith, leb, ◌==◌, if◌then◌else◌,
}
use baas_go_sdk.Base.Text.{Bytes}
use baas_go_sdk.Base.All.{All}
use baas_go_sdk.Json.{Json, Items, Fields}

unfoldable pub is_number_byte : ℕ → Bool
is_number_byte c = (leb b'0' c && leb c b'9') || (c == b'-' || c == b'.')

abbrev pub IsNumberByte : ℕ → Type 0
IsNumberByte c = is_number_byte c ≡ true

-- What follows a number does not prolong it.
abbrev pub Stops : Bytes → Type 0
Stops [] = Unit
Stops (c ∷ _) = is_number_byte c ≡ false

abbrev pub IsNumber : Bytes → Type 0
IsNumber [] = ⊥
IsNumber (c ∷ s) = IsNumberByte c × All IsNumberByte s

-- Every number has the form of one.
unfoldable mutual
  pub Plain : Json → Type 0
  Plain Json.null = Unit
  Plain (Json.bool _) = Unit
  Plain (Json.number s) = IsNumber s
  Plain (Json.string _) = Unit
  Plain (Json.array vs) = PlainItems vs
  Plain (Json.object fs) = PlainFields fs

  pub PlainItems : Items → Type 0
  PlainItems Items.nil = Unit
  PlainItems (Items.cons v vs) = Plain v × PlainItems vs

  pub PlainFields : Fields → Type 0
  PlainFields Fields.end = Unit
  PlainFields (Fields.field _ v fs) = Plain v × PlainFields fs

unfoldable mutual
  pub size : Json → ℕ
  size Json.null = 1
  size (Json.bool _) = 1
  size (Json.number _) = 1
  size (Json.string _) = 1
  size (Json.array vs) = 1 + size_items vs
  size (Json.object fs) = 1 + size_fields fs

  pub size_items : Items → ℕ
  size_items Items.nil = 1
  size_items (Items.cons v vs) = 1 + (size v + size_items vs)

  pub size_fields : Fields → ℕ
  size_fields Fields.end = 1
  size_fields (Fields.field _ v fs) = 1 + (size v + size_fields fs)

unfoldable pub read_number : Bytes → Bytes × Bytes
read_number [] = ([], [])
read_number (c ∷ s) =
    let rest = read_number s in if is_number_byte c then (c ∷ rest.0, rest.1) else ([], c ∷ s)

pub read_number-append :
    (s r : Bytes) → All IsNumberByte s → Stops r → read_number (s ++ r) ≡ (s, r)
unfolding read_number
read_number-append [] [] h stops = refl
read_number-append [] (c ∷ r) h stops = ground (arith, stops)
read_number-append (c ∷ s) r (hc, hs) stops = ground (arith, hc, read_number-append s r hs stops)
