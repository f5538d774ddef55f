-- ===== src/Tree/Strings.antt =====
-- About writeCanonicalString of tree/tree.go: the JSON strings, read back.
use baas_go_sdk.Base.{
  ℕ, zero, suc, ◌+◌, ◌*◌, ◌/◌, ◌%◌, ◌≤◌, ◌<◌, ◌≡◌, refl, ap, ◌∙◌, Option, none, some, [], ◌∷◌, ◌++◌,
  append_assoc, arith, ◌==◌, if◌then◌else◌, length, length-append, drop,
}
use baas_go_sdk.Base.Text.{Bytes}
use baas_go_sdk.Encoding.Hex.{from_hex, hex_digit, from_hex-hex_digit}
use baas_go_sdk.Tree.{write_byte, write_bytes, write_canonical_string}

infixl 5 ◌>>=◌
abbrev pub ◌>>=◌ {ℓ κ} : {A : Type ℓ} {B : Type κ} → Option A → (A → Option B) → Option B
none >>= f = none
some a >>= f = f a

-- What follows `\u`.
unfoldable read_unicode : Bytes → Option (ℕ × Bytes)
read_unicode (_ ∷ _ ∷ a ∷ b ∷ s) = do x ← from_hex a; y ← from_hex b; some (x * 16 + y, s)
read_unicode _ = none

-- What follows a backslash.
unfoldable read_escape : Bytes → Option (ℕ × Bytes)
read_escape [] = none
read_escape (e ∷ s) =
    if e == b'b'
    then some (8, s)
    else if e == b'f'
    then some (12, s)
    else if e == b'n'
    then some (b'\n', s)
    else if e == b'r'
    then some (b'\r', s)
    else if e == b't'
    then some (b'\t', s)
    else if e == b'u'
    then read_unicode s
    else some (e, s)

-- One byte of a string; none where the string ends.
unfoldable read_byte : Bytes → Option (ℕ × Bytes)
read_byte [] = none
read_byte (c ∷ s) = if c == b'"' then none else if c == b'\\' then read_escape s else some (c, s)

read_unicode_lem :
    (c : ℕ) (r : Bytes)
    → c < 32
    → read_unicode (b'0' ∷ b'0' ∷ hex_digit (c / 16) ∷ hex_digit (c % 16) ∷ r) ≡ some (c, r)
unfolding read_unicode
read_unicode_lem c r h =
    ground
      (arith, from_hex-hex_digit (c / 16) (omega arith), from_hex-hex_digit (c % 16) (omega arith))

read_byte-write_byte : (c : ℕ) (r : Bytes) → read_byte (write_byte c ++ r) ≡ some (c, r)
unfolding read_byte read_escape write_byte
read_byte-write_byte c r = ground (arith, read_unicode_lem c r)

-- The bytes up to the closing quote, and what follows it.
unfoldable read_bytes : ℕ → Bytes → Option (Bytes × Bytes)
read_bytes zero s = none
read_bytes (suc n) s = elim (read_byte s) [
  | none ↦ some ([], drop 1 s)
  | some (b, rest) ↦ read_bytes n rest >>= λ p. some (b ∷ p.0, p.1)
]

read_byte_end : (r : Bytes) → read_byte (b'"' ∷ r) ≡ none
unfolding read_byte
read_byte_end r = refl

read_bytes_end :
    (n : ℕ) (s : Bytes) → read_byte s ≡ none → read_bytes (suc n) s ≡ some ([], drop 1 s)
unfolding read_bytes
read_bytes_end n s h = ground (arith, h)

read_bytes_more :
    (n b : ℕ) (s rest : Bytes)
    → read_byte s ≡ some (b, rest)
    → read_bytes (suc n) s ≡ (read_bytes n rest >>= λ p. some (b ∷ p.0, p.1))
unfolding read_bytes
read_bytes_more n b s rest h = ground (arith, h)

read_bytes-write_bytes :
    (n : ℕ) (s r : Bytes) → length s < n → read_bytes n (write_bytes s ++ (b'"' ∷ r)) ≡ some (s, r)
unfolding write_bytes
read_bytes-write_bytes zero s r h = absurd (omega arith)
read_bytes-write_bytes (suc n) [] r h = read_bytes_end n (b'"' ∷ r) (read_byte_end r)
read_bytes-write_bytes (suc n) (c ∷ s) r h =
    let tail = write_bytes s ++ (b'"' ∷ r) in
    ap (read_bytes (suc n)) (append_assoc (write_byte c) (write_bytes s) (b'"' ∷ r))
    ∙ read_bytes_more n c (write_byte c ++ tail) tail (read_byte-write_byte c tail)
    ∙ ap (λ o. o >>= λ p. some (c ∷ p.0, p.1)) (read_bytes-write_bytes n s r (omega arith))

-- A JSON string, its quotes included.
pub read_string : Bytes → Option (Bytes × Bytes)
read_string [] = none
read_string (_ ∷ s) = read_bytes (length s) s

length-write_byte : (c : ℕ) → 1 ≤ length (write_byte c)
unfolding write_byte
length-write_byte c = ground arith

length-write_bytes : (s : Bytes) → length s ≤ length (write_bytes s)
unfolding write_bytes
length-write_bytes [] = omega arith
length-write_bytes (c ∷ s) =
    omega (
      arith,
      length-append (write_byte c) (write_bytes s),
      length-write_byte c,
      length-write_bytes s,
    )

pub read_string-write_canonical_string :
    (s r : Bytes) → read_string (write_canonical_string s ++ r) ≡ some (s, r)
unfolding read_string write_canonical_string
read_string-write_canonical_string s r =
    let room : length s < length (write_bytes s ++ (b'"' ∷ r)) =
      omega (arith, length-append (write_bytes s) (b'"' ∷ r), length-write_bytes s) in
    rw (append_assoc (write_bytes s) (b'"' ∷ []) r)
      (read_bytes-write_bytes (length (write_bytes s ++ (b'"' ∷ r))) s r room)
