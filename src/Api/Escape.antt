-- ===== src/Api/Escape.antt =====
-- About the ids in paths, `url.PathEscape` in api/httpclient.go.
use baas_go_sdk.Base.{
  ℕ, ◌/◌, ◌%◌, ◌<◌, ◌≡◌, ◌≢◌, refl, sym, ap, ◌∙◌, Bool, true, false, [], ◌∷◌, ◌++◌, arith, drop,
  length, ◌≤◌, if◌then◌else◌,
}
use mathlib.Core.Bool.{false≢true}
use baas_go_sdk.Base.Text.{Bytes, codes}
use baas_go_sdk.Api.Endpoints.{member_path}
use baas_go_sdk.Base.All.{All}
use baas_go_sdk.Api.{path_escape, is_segment_byte, upper_hex, percent}

-- A byte that neither ends a segment of a path nor the path.
abbrev pub Stays : ℕ → Type 0
Stays c = (c ≢ b'/') × (c ≢ b'?') × (c ≢ b'#')

segment-Stays : (c : ℕ) → is_segment_byte c ≡ true → Stays c
unfolding is_segment_byte
segment-Stays c h = (
  λ e. false≢true (ap is_segment_byte (sym e) ∙ h),
  λ e. false≢true (ap is_segment_byte (sym e) ∙ h),
  λ e. false≢true (ap is_segment_byte (sym e) ∙ h),
)

-- A hex digit as a byte of a segment: it is one, so no digit ends it.
upper_hex-Stays : (n : ℕ) → n < 16 → Stays (upper_hex n)
unfolding upper_hex
upper_hex-Stays n h = (λ e. ground (arith, e), λ e. ground (arith, e), λ e. ground (arith, e))

upper_hex-injective : (m n : ℕ) → m < 16 → n < 16 → upper_hex m ≡ upper_hex n → m ≡ n
unfolding upper_hex
upper_hex-injective m n hm hn h = ground (arith, h)

abbrev pub IsByte : ℕ → Type 0
IsByte c = c < 256

abbrev escaped : Bool → ℕ → Bytes
escaped keep c = if keep then c ∷ [] else percent c

path_escape-Stays_by :
    (keep : Bool) (c : ℕ) (s : Bytes)
    → is_segment_byte c ≡ keep
    → IsByte c
    → All Stays s
    → All Stays (escaped keep c ++ s)
path_escape-Stays_by true c s h byte hs = (segment-Stays c h, hs)
path_escape-Stays_by false c s h byte hs = (
  (λ e. omega (arith, e), λ e. omega (arith, e), λ e. omega (arith, e)),
  (upper_hex-Stays (c / 16) (omega arith), (upper_hex-Stays (c % 16) (omega arith), hs)),
)

-- An escaped text stays within its segment.
pub path_escape-Stays : (s : Bytes) → All IsByte s → All Stays (path_escape s)
unfolding path_escape
path_escape-Stays [] h = tt
path_escape-Stays (c ∷ s) (byte, h) =
    path_escape-Stays_by (is_segment_byte c) c (path_escape s) refl byte (path_escape-Stays s h)

head_or : ℕ → Bytes → ℕ
head_or n [] = n
head_or n (c ∷ _) = c

-- The first byte of what is written for two texts decides the first byte of each.
first-injective :
    (keep keep' : Bool) (c d : ℕ) (s t : Bytes)
    → is_segment_byte c ≡ keep
    → is_segment_byte d ≡ keep'
    → IsByte c
    → IsByte d
    → escaped keep c ++ s ≡ escaped keep' d ++ t
    → (c ≡ d) × (s ≡ t)
unfolding head_or is_segment_byte
first-injective true true c d s t hc hd bc bd h = (ap (head_or 0) h, ap (drop 1) h)
first-injective true false c d s t hc hd bc bd h =
    absurd (false≢true (ap is_segment_byte (sym (ap (head_or 0) h)) ∙ hc))
first-injective false true c d s t hc hd bc bd h =
    absurd (false≢true (ap is_segment_byte (ap (head_or 0) h) ∙ hd))
first-injective false false c d s t hc hd bc bd h =
    let high =
      upper_hex-injective (c / 16) (d / 16) (omega arith) (omega arith)
        (ap (λ w. head_or 0 (drop 1 w)) h) in
    let low =
      upper_hex-injective (c % 16) (d % 16) (omega arith) (omega arith)
        (ap (λ w. head_or 0 (drop 2 w)) h) in
    (omega (arith, high, low), ap (drop 3) h)

length-escaped : (keep : Bool) (c : ℕ) (s : Bytes) → 1 ≤ length (escaped keep c ++ s)
length-escaped true c s = omega arith
length-escaped false c s = omega arith

pub path_escape-injective :
    (s t : Bytes) → All IsByte s → All IsByte t → path_escape s ≡ path_escape t → s ≡ t
unfolding path_escape
path_escape-injective [] [] hs ht h = refl
path_escape-injective [] (d ∷ t) hs ht h =
    absurd (omega (arith, ap length h, length-escaped (is_segment_byte d) d (path_escape t)))
path_escape-injective (c ∷ s) [] hs ht h =
    absurd (omega (arith, ap length h, length-escaped (is_segment_byte c) c (path_escape s)))
path_escape-injective (c ∷ s) (d ∷ t) (bc, hs) (bd, ht) h =
    let (first, rest) =
      first-injective (is_segment_byte c) (is_segment_byte d) c d (path_escape s) (path_escape t)
        refl refl bc bd h in
    let below = path_escape-injective s t hs ht rest in λ i. first i ∷ below i

-- Two texts that are cut at their first slash.
split-slash :
    (xs ys r s : Bytes)
    → All Stays xs
    → All Stays ys
    → xs ++ (b'/' ∷ r) ≡ ys ++ (b'/' ∷ s)
    → (xs ≡ ys) × (r ≡ s)
unfolding head_or
split-slash [] [] r s hx hy h = (refl, ap (drop 1) h)
split-slash [] (y ∷ ys) r s hx ((hy, _, _), _) h = absurd (hy (sym (ap (head_or 0) h)))
split-slash (x ∷ xs) [] r s ((hx, _, _), _) hy h = absurd (hx (ap (head_or 0) h))
split-slash (x ∷ xs) (y ∷ ys) r s (_, hx) (_, hy) h =
    let (first, rest) = split-slash xs ys r s hx hy (ap (drop 1) h) in
    let head = ap (head_or 0) h in ((λ i. head i ∷ first i), rest)

-- The path of a member of a workspace names one workspace and one user: two such paths are the same
-- only for the same two ids.
pub member_path-injective :
    (workspace_id user_id workspace_id' user_id' : Bytes)
    → All IsByte workspace_id
    → All IsByte user_id
    → All IsByte workspace_id'
    → All IsByte user_id'
    → member_path workspace_id user_id ≡ member_path workspace_id' user_id'
    → (workspace_id ≡ workspace_id') × (user_id ≡ user_id')
member_path-injective w u w' u' hw hu hw' hu' h =
    let (same, rest) =
      split-slash (path_escape w) (path_escape w') (codes "members/" ++ path_escape u)
        (codes "members/" ++ path_escape u') (path_escape-Stays w hw) (path_escape-Stays w' hw')
        (ap (drop 12) h) in
    (path_escape-injective w w' hw hw' same, path_escape-injective u u' hu hu' (ap (drop 8) rest))
