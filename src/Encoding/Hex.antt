-- ===== src/Encoding/Hex.antt =====
-- encoding/hex: `EncodeToString` and `DecodeString`, and `strconv.ParseUint(s, 16, 32)`.
use baas_go_sdk.Base.{
  ℕ, ◌+◌, ◌-◌, ◌*◌, ◌/◌, ◌%◌, ◌<◌, ◌≡◌, refl, sym, ap, ◌∙◌, ◌&&◌, Option, none, some, [], ◌∷◌,
  arith, ltb, leb, if◌then◌else◌, length,
}
use baas_go_sdk.Base.Text.{Bytes}
use baas_go_sdk.Base.All.{All}

-- Options as a chain of steps that may fail.
infixl 5 ◌>>=◌
abbrev ◌>>=◌ {ℓ κ} : {A : Type ℓ} {B : Type κ} → Option A → (A → Option B) → Option B
none >>= f = none
some a >>= f = f a

unfoldable pub hex_digit : ℕ → ℕ
hex_digit n = if ltb n 10 then b'0' + n else b'a' + (n - 10)

unfoldable pub from_hex : ℕ → Option ℕ
from_hex c =
    if leb b'0' c && leb c b'9'
    then some (c - b'0')
    else if leb b'a' c && leb c b'f'
    then some (c - b'a' + 10)
    else if leb b'A' c && leb c b'F'
    then some (c - b'A' + 10)
    else none

unfoldable pub encode : Bytes → Bytes
encode [] = []
encode (b ∷ s) = hex_digit (b / 16) ∷ hex_digit (b % 16) ∷ encode s

unfoldable pub decode : Bytes → Option Bytes
decode [] = some []
decode (a ∷ []) = none
decode (a ∷ b ∷ s) = do x ← from_hex a; y ← from_hex b; r ← decode s; some ((x * 16 + y) ∷ r)

pub from_hex-hex_digit : (n : ℕ) → n < 16 → from_hex (hex_digit n) ≡ some n
unfolding from_hex hex_digit
from_hex-hex_digit n h = ground arith

abbrev pub IsByte : ℕ → Type 0
IsByte b = b < 256

-- Decoding gives the encoded bytes back.
pub decode-encode : (s : Bytes) → All IsByte s → decode (encode s) ≡ some s
unfolding decode encode
decode-encode [] h = refl
decode-encode (b ∷ s) (hb, hs) = ground (
  arith,
  from_hex-hex_digit (b / 16) (omega arith),
  from_hex-hex_digit (b % 16) (omega arith),
  decode-encode s hs,
)

bytes_or_nil : Option Bytes → Bytes
bytes_or_nil none = []
bytes_or_nil (some s) = s

pub encode-injective : (s t : Bytes) → All IsByte s → All IsByte t → encode s ≡ encode t → s ≡ t
unfolding bytes_or_nil
encode-injective s t hs ht h =
    ap bytes_or_nil (sym (decode-encode s hs) ∙ ap decode h ∙ decode-encode t ht)

pub length-encode : (s : Bytes) → length (encode s) ≡ 2 * length s
unfolding encode
length-encode [] = refl
length-encode (b ∷ s) = omega (arith, length-encode s)

-- The digits of a number in base 16, `none` at a byte that is no digit.
unfoldable pub hex_value : ℕ → Bytes → Option ℕ
hex_value n [] = some n
hex_value n (c ∷ s) = do d ← from_hex c; hex_value (n * 16 + d) s

-- `v, _ := strconv.ParseUint(s, 16, 32); uint32(v)`: 0 where a byte is no digit or there is none,
-- and the largest value where the number is too large.
unfoldable pub parse_hex32 : Bytes → ℕ
parse_hex32 [] = 0
parse_hex32 (c ∷ s) = elim (hex_value 0 (c ∷ s)) [
  | none ↦ 0
  | some v ↦ if ltb v 4294967296 then v else 4294967295
]

pub parse_hex32-lt : (s : Bytes) → parse_hex32 s < 4294967296
unfolding parse_hex32
parse_hex32-lt [] = omega arith
parse_hex32-lt (c ∷ s) = ground arith
