-- ===== src/Encoding/Decimal.antt =====
-- About strconv: `FormatInt(n, 10)` and `FormatUint(n, 10)`.
use mathlib.Core.Path.{subst}
use mathlib.Core.Bool.{false≢true}
use baas_go_sdk.Base.{
  ℕ, zero, suc, ◌+◌, ◌-◌, ◌*◌, ◌/◌, ◌%◌, ◌≤◌, ◌<◌, ◌≡◌, refl, sym, ap, ◌∙◌, Bool, true, false, [],
  ◌∷◌, ◌++◌, arith, ltb, ltb→lt, length, length-append, drop, ◌==◌, ltb→le, Bool-cases, inl, inr,
}
use baas_go_sdk.Base.Text.{Bytes}
use baas_go_sdk.Base.Int.{ℤ, pos, negsuc}
use baas_go_sdk.Base.All.{All, All-append}

-- The digits of a number, with fuel for the divisions by ten.
unfoldable digits : ℕ → ℕ → Bytes
digits zero n = []
digits (suc fuel) n = elim (ltb n 10) [
  | true ↦ (b'0' + n) ∷ []
  | false ↦ digits fuel (n / 10) ++ ((b'0' + n % 10) ∷ [])
]

-- A number has fewer divisions by ten than it counts.
unfoldable pub format_uint : ℕ → Bytes
unfolding digits
format_uint n = digits (suc n) n

unfoldable pub format_int : ℤ → Bytes
unfolding format_uint
format_int (pos n) = format_uint n
format_int (negsuc n) = b'-' ∷ format_uint (suc n)

abbrev value_from : ℕ → Bytes → ℕ
value_from n [] = n
value_from n (c ∷ s) = value_from (n * 10 + (c - b'0')) s

value_from-append :
    (n c : ℕ) (s : Bytes) → value_from n (s ++ (c ∷ [])) ≡ value_from n s * 10 + (c - b'0')
value_from-append n c [] = refl
value_from-append n c (d ∷ s) = value_from-append (n * 10 + (d - b'0')) c s

digits_small : (fuel n : ℕ) → ltb n 10 ≡ true → digits (suc fuel) n ≡ (b'0' + n) ∷ []
unfolding digits
digits_small fuel n h = ground arith

digits_large :
    (fuel n : ℕ)
    → ltb n 10 ≡ false
    → digits (suc fuel) n ≡ digits fuel (n / 10) ++ ((b'0' + n % 10) ∷ [])
unfolding digits
digits_large fuel n h = ground arith

value_from-digits : (fuel n : ℕ) → n < fuel → value_from 0 (digits fuel n) ≡ n
value_from-digits zero n h = absurd (omega arith)
value_from-digits (suc fuel) n h = elim (Bool-cases (ltb n 10)) [
  | inl small ↦ ap (value_from 0) (digits_small fuel n small) ∙ omega arith
  | inr large ↦
      let ge = ltb→le n 10 large in
      ap (value_from 0) (digits_large fuel n large)
      ∙ value_from-append 0 (b'0' + n % 10) (digits fuel (n / 10))
      ∙ omega (arith, value_from-digits fuel (n / 10) (omega arith))
]

abbrev pub IsDigit : ℕ → Type 0
IsDigit c = (b'0' ≤ c) × (c ≤ b'9')

digits-IsDigit : (fuel n : ℕ) → All IsDigit (digits fuel n)
unfolding digits
digits-IsDigit zero n = tt
digits-IsDigit (suc fuel) n = elim (Bool-cases (ltb n 10)) [
  | inl small ↦
      let le = ltb→lt n 10 small in
      subst (λ s. All IsDigit s) (sym (digits_small fuel n small)) ((omega arith, omega arith), tt)
  | inr large ↦
      subst (λ s. All IsDigit s) (sym (digits_large fuel n large))
        (All-append IsDigit (digits fuel (n / 10)) ((b'0' + n % 10) ∷ [])
          (digits-IsDigit fuel (n / 10)) ((omega arith, omega arith), tt))
]

pub format_uint-injective : (m n : ℕ) → format_uint m ≡ format_uint n → m ≡ n
unfolding format_uint
format_uint-injective m n h =
    sym (value_from-digits (suc m) m (omega arith))
    ∙ ap (value_from 0) h
    ∙ value_from-digits (suc n) n (omega arith)

pub format_uint-IsDigit : (n : ℕ) → All IsDigit (format_uint n)
unfolding format_uint
format_uint-IsDigit n = digits-IsDigit (suc n) n

length-digits : (fuel n : ℕ) → 1 ≤ length (digits (suc fuel) n)
length-digits fuel n = elim (Bool-cases (ltb n 10)) [
  | inl small ↦ rw (digits_small fuel n small) (omega arith)
  | inr large ↦
      rw (digits_large fuel n large)
        (omega (arith, length-append (digits fuel (n / 10)) ((b'0' + n % 10) ∷ [])))
]

pub length-format_uint : (n : ℕ) → 1 ≤ length (format_uint n)
unfolding format_uint
length-format_uint n = length-digits n n

is_minus : Bytes → Bool
is_minus [] = false
is_minus (c ∷ _) = c == b'-'

digits-ne-minus : (s : Bytes) → All IsDigit s → is_minus s ≡ false
unfolding is_minus
digits-ne-minus [] h = refl
digits-ne-minus (c ∷ s) ((low, high), _) = ground (arith, low)

pub format_int-injective : (a b : ℤ) → format_int a ≡ format_int b → a ≡ b
unfolding format_int is_minus
format_int-injective (pos m) (pos n) h = ap pos (format_uint-injective m n h)
format_int-injective (negsuc m) (negsuc n) h =
    ap negsuc (omega (arith, format_uint-injective (suc m) (suc n) (ap (drop 1) h)))
format_int-injective (pos m) (negsuc n) h =
    absurd
      (false≢true (sym (digits-ne-minus (format_uint m) (format_uint-IsDigit m)) ∙ ap is_minus h))
format_int-injective (negsuc m) (pos n) h = absurd (
    false≢true
      (sym (digits-ne-minus (format_uint n) (format_uint-IsDigit n)) ∙ ap is_minus (sym h)))
