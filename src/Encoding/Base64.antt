-- ===== src/Encoding/Base64.antt =====
-- encoding/base64: `StdEncoding.EncodeToString` and `DecodeString`.
use baas_go_sdk.Base.{
  ℕ, ◌+◌, ◌-◌, ◌*◌, ◌/◌, ◌%◌, ◌<◌, ◌≡◌, refl, ap, ◌&&◌, ◌||◌, false, Option, none, some, [], ◌∷◌,
  ◌++◌, arith, ltb, leb, ◌==◌, if◌then◌else◌,
}
use baas_go_sdk.Base.Text.{Bytes}
use baas_go_sdk.Base.All.{All}
use baas_go_sdk.Encoding.Hex.{IsByte}

infixl 5 ◌>>=◌
abbrev ◌>>=◌ {ℓ κ} : {A : Type ℓ} {B : Type κ} → Option A → (A → Option B) → Option B
none >>= f = none
some a >>= f = f a

unfoldable pub digit : ℕ → ℕ
digit n =
    if ltb n 26
    then b'A' + n
    else if ltb n 52
    then b'a' + (n - 26)
    else if ltb n 62
    then b'0' + (n - 52)
    else if n == 62
    then b'+'
    else b'/'

unfoldable pub value : ℕ → Option ℕ
value c =
    if leb b'A' c && leb c b'Z'
    then some (c - b'A')
    else if leb b'a' c && leb c b'z'
    then some (c - b'a' + 26)
    else if leb b'0' c && leb c b'9'
    then some (c - b'0' + 52)
    else if c == b'+'
    then some 62
    else if c == b'/'
    then some 63
    else none

unfoldable pub encode : Bytes → Bytes
encode [] = []
encode (a ∷ []) = digit (a / 4) ∷ digit (a % 4 * 16) ∷ b'=' ∷ b'=' ∷ []
encode (a ∷ b ∷ []) = digit (a / 4) ∷ digit (a % 4 * 16 + b / 16) ∷ digit (b % 16 * 4) ∷ b'=' ∷ []
encode (a ∷ b ∷ c ∷ s) =
    digit (a / 4)
    ∷ digit (a % 4 * 16 + b / 16)
    ∷ digit (b % 16 * 4 + c / 64)
    ∷ digit (c % 64)
    ∷ encode s

-- One, two or three bytes from the values of the digits.
abbrev one : ℕ → ℕ → Bytes
one x y = (x * 4 + y / 16) ∷ []

abbrev two : ℕ → ℕ → ℕ → Bytes
two x y z = (x * 4 + y / 16) ∷ (y % 16 * 16 + z / 4) ∷ []

abbrev three : ℕ → ℕ → ℕ → ℕ → Bytes
three x y z w = (x * 4 + y / 16) ∷ (y % 16 * 16 + z / 4) ∷ (z % 4 * 64 + w) ∷ []

-- The last group of four, which may be padded.
unfoldable pub last_group : ℕ → ℕ → ℕ → ℕ → Option Bytes
last_group a b c d =
    if c == b'=' && d == b'='
    then (do x ← value a; y ← value b; some (one x y))
    else if d == b'='
    then (do x ← value a; y ← value b; z ← value c; some (two x y z))
    else (do x ← value a; y ← value b; z ← value c; w ← value d; some (three x y z w))

unfoldable pub groups : Bytes → Option Bytes
groups [] = some []
groups (a ∷ b ∷ c ∷ d ∷ []) = last_group a b c d
groups (a ∷ b ∷ c ∷ d ∷ e ∷ s) = do
  x ← value a
  y ← value b
  z ← value c
  w ← value d
  r ← groups (e ∷ s)
  some (three x y z w ++ r)
groups _ = none

-- Line breaks are skipped.
unfoldable pub strip : Bytes → Bytes
strip [] = []
strip (c ∷ s) = let rest = strip s in if c == 10 || c == 13 then rest else c ∷ rest

unfoldable pub decode : Bytes → Option Bytes
decode s = groups (strip s)

value-digit : (n : ℕ) → n < 64 → value (digit n) ≡ some n
unfolding value digit
value-digit n h = ground arith

digit_plain : (n : ℕ) → ((digit n == b'=') ≡ false) × ((digit n == 10 || digit n == 13) ≡ false)
unfolding digit
digit_plain n = ground arith

strip_step : (n : ℕ) (s : Bytes) → strip (digit n ∷ s) ≡ digit n ∷ strip s
unfolding strip
strip_step n s = ground (arith, digit_plain n)

strip-encode : (s : Bytes) → strip (encode s) ≡ encode s
unfolding encode
strip-encode [] = unfold strip in refl
strip-encode (a ∷ []) = rw (strip_step, strip_step) (unfold strip in refl)
strip-encode (a ∷ b ∷ []) = rw (strip_step, strip_step, strip_step) (unfold strip in refl)
strip-encode (a ∷ b ∷ c ∷ s) = rw (strip_step, strip_step, strip_step, strip_step, strip-encode s)

groups_step :
    (x y z w : ℕ) (t : Bytes)
    → x < 64
    → y < 64
    → z < 64
    → w < 64
    → groups (digit x ∷ digit y ∷ digit z ∷ digit w ∷ t)
      ≡ (groups t >>= λ r. some (three x y z w ++ r))
unfolding groups last_group
groups_step x y z w [] hx hy hz hw =
    ground
      (arith, value-digit x hx, value-digit y hy, value-digit z hz, value-digit w hw, digit_plain w)
groups_step x y z w (e ∷ s) hx hy hz hw =
    rw (value-digit x hx, value-digit y hy, value-digit z hz, value-digit w hw)

three_bytes :
    (a b c : ℕ)
    → IsByte a
    → IsByte b
    → IsByte c
    → three (a / 4) (a % 4 * 16 + b / 16) (b % 16 * 4 + c / 64) (c % 64) ≡ a ∷ b ∷ c ∷ []
three_bytes a b c ha hb hc = ground arith

groups-encode : (s : Bytes) → All IsByte s → groups (encode s) ≡ some s
unfolding encode
groups-encode [] h = unfold groups in refl
groups-encode (a ∷ []) (ha, _) =
    unfold groups last_group in
    ground (arith, value-digit (a / 4) (omega arith), value-digit (a % 4 * 16) (omega arith))
groups-encode (a ∷ b ∷ []) (ha, (hb, _)) =
    unfold groups last_group in
    ground (
      arith,
      value-digit (a / 4) (omega arith),
      value-digit (a % 4 * 16 + b / 16) (omega arith),
      value-digit (b % 16 * 4) (omega arith),
      digit_plain (b % 16 * 4),
    )
groups-encode (a ∷ b ∷ c ∷ s) (ha, (hb, (hc, hs))) =
    rw
      (
        groups_step (a / 4) (a % 4 * 16 + b / 16) (b % 16 * 4 + c / 64) (c % 64) (encode s)
            (omega arith) (omega arith) (omega arith) (omega arith),
        groups-encode s hs,
      )
      (ap (λ l. some (l ++ s)) (three_bytes a b c ha hb hc))

-- Decoding gives the encoded bytes back.
pub decode-encode : (s : Bytes) → All IsByte s → decode (encode s) ≡ some s
unfolding decode
decode-encode s h = rw strip-encode (groups-encode s h)
