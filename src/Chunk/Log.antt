-- ===== src/Chunk/Log.antt =====
-- About chunk/chunker.go: `ilog2` and the masks that `NewChunker` makes from it.
use baas_go_sdk.Base.{
  ℕ, zero, suc, ◌+◌, ◌/◌, ◌%◌, ◌^◌, ◌≤◌, ◌<◌, ◌≡◌, ◌≢◌, ◌⊎◌, refl, sym, arith, ltb, some, none,
  ltb→lt, ltb→le, Bool-cases, inl, inr, ◌-◌, ◌==◌, ==_iff, ◌↔◌, true,
}
use native.Mathlib.Nat.{pow-suc, pow-le-pow_right}
use native.Mathlib.Decide.{dec_lt}
use mathlib.Core.Path.{subst}
use baas_go_sdk.Base.Int.{ℤ, pos, negsuc}
use baas_go_sdk.Types.{ChunkOptions}
use baas_go_sdk.Chunk.{Chunker, ilog2, ilog2_loop, low_mask, make_chunker, new_chunker}

-- The count so far is added to the rounds made.
ilog2_loop_add : (fuel v bits : ℕ) → ilog2_loop fuel v bits ≡ ilog2_loop fuel v 0 + bits
unfolding ilog2_loop
ilog2_loop_add zero v bits = omega arith
ilog2_loop_add (suc fuel) v bits =
    ground (arith, ilog2_loop_add fuel (v / 2) (bits + 1), ilog2_loop_add fuel (v / 2) 1)

ilog2_loop_bounds :
    (fuel v : ℕ)
    → 1 ≤ v
    → v < 2 ^ fuel
    → (2 ^ ilog2_loop fuel v 0 ≤ v) × (v < 2 ^ suc (ilog2_loop fuel v 0))
ilog2_loop_bounds zero v h k = absurd (omega arith)
ilog2_loop_bounds (suc fuel) v h k = elim (Bool-cases (ltb 1 v)) [
  | inl more ↦
      let e : ilog2_loop (suc fuel) v 0 ≡ suc (ilog2_loop fuel (v / 2) 0) =
        unfold ilog2_loop in rw more (omega (arith, ilog2_loop_add fuel (v / 2) 1)) in
      let big = ltb→lt 1 v more in
      let (low, high) =
        ilog2_loop_bounds fuel (v / 2) (omega arith) (omega (arith, pow-suc 2 fuel)) in
      rw e (
        omega (arith, pow-suc 2 (ilog2_loop fuel (v / 2) 0)),
        omega (arith, pow-suc 2 (suc (ilog2_loop fuel (v / 2) 0))),
      )
  | inr done ↦
      let e : ilog2_loop (suc fuel) v 0 ≡ 0 = unfold ilog2_loop in rw done refl in
      let small = ltb→le 1 v done in rw e (omega arith)
]

-- For a positive int the loop ends, and `ilog2` is the whole part of the binary logarithm.
pub ilog2_lem :
    (n : ℕ) → 1 ≤ n → n < 2 ^ 64 → (2 ^ ilog2 (pos n) ≤ n) × (n < 2 ^ suc (ilog2 (pos n)))
unfolding ilog2
ilog2_lem n h k =
    let e : n % 2 ^ 64 ≡ n = omega arith in rw e (ilog2_loop_bounds 64 n h (omega arith))

not_zero : (n : ℕ) → suc (suc n) < 2 ^ 64 → ilog2 (pos (suc (suc n))) ≡ 0 → ⊥
not_zero n k e =
    let high : suc (suc n) < 2 ^ suc 0 =
      subst (λ b. suc (suc n) < 2 ^ suc b) e (ilog2_lem (suc (suc n)) (omega arith) k).1 in
    omega arith

ilog2-eq-zero : (n : ℕ) → n < 2 ^ 64 → ((ilog2 (pos n) == 0) ≡ true) ↔ (n ≤ 1)
ilog2-eq-zero zero k = unfold ilog2 ilog2_loop in (λ _. omega arith, λ _. refl)
ilog2-eq-zero (suc zero) k = unfold ilog2 ilog2_loop in (λ _. omega arith, λ _. refl)
ilog2-eq-zero (suc (suc n)) k = (
  λ e. absurd (not_zero n k ((==_iff (ilog2 (pos (suc (suc n)))) 0).0 e)),
  λ h. absurd (omega arith),
)

pow_mono : (s t : ℕ) → s ≤ t → 2 ^ s ≤ 2 ^ t
pow_mono s t h = pow-le-pow_right (omega arith) h

lt_of_pow : (s t : ℕ) → 2 ^ s < 2 ^ t → s < t
lt_of_pow s t h = elim (dec_lt s t) [
  | yes p ↦ p
  | no q ↦ absurd (omega (arith, pow_mono t s (omega arith)))
]

low_mask_lem : (s : ℕ) → s ≤ 32 → low_mask s ≡ 2 ^ s - 1
unfolding low_mask
low_mask_lem s h = omega (arith, pow_mono s 32 h, pow_mono 0 s (omega arith))

-- A Go int, of 64 bits.
abbrev pub IsInt : ℤ → Type 0
IsInt (pos n) = n < 2 ^ 63
IsInt (negsuc n) = n < 2 ^ 63

-- A negative int is a large uint.
ilog2-negative : (n : ℕ) → n < 2 ^ 63 → ilog2 (negsuc n) ≢ 0
unfolding ilog2
ilog2-negative n k e =
    let v = 2 ^ 64 - 1 - n % 2 ^ 64 in
    let large : 2 ≤ v = omega arith in
    let high : v < 2 ^ suc 0 =
      subst (λ b. v < 2 ^ suc b) e (ilog2_loop_bounds 64 v (omega arith) (omega arith)).1 in
    omega arith

zero_or_one : (n : ℕ) → (n ≤ 1) ↔ ((pos n ≡ pos 0) ⊎ (pos n ≡ pos 1))
zero_or_one zero = (λ _. inl refl, λ _. omega arith)
zero_or_one (suc zero) = (λ _. inr refl, λ _. omega arith)
zero_or_one (suc (suc n)) = (λ h. absurd (omega arith), λ s. elim s [ inl e ↦ cc | inr e ↦ cc ])

-- The panic is that of a shift by -1.
new_chunker-eq-none :
    (opts : ChunkOptions) → (new_chunker opts ≡ none) ↔ ((ilog2 opts.avg_size == 0) ≡ true)
unfolding new_chunker
new_chunker-eq-none opts = ground arith

panics_by :
    (opts : ChunkOptions) (size : ℤ)
    → opts.avg_size ≡ size
    → IsInt size
    → (new_chunker opts ≡ none) ↔ ((size ≡ pos 0) ⊎ (size ≡ pos 1))
panics_by opts (pos n) e k =
    let none_iff = new_chunker-eq-none opts in
    let zero_iff = ilog2-eq-zero n (omega arith) in
    let small_iff = zero_or_one n in
    (
      λ h. small_iff.0 (zero_iff.0 (subst (λ size. (ilog2 size == 0) ≡ true) e (none_iff.0 h))),
      λ s.
          none_iff.1
            (subst (λ size. (ilog2 size == 0) ≡ true) (sym e) (zero_iff.1 (small_iff.1 s))),
    )
panics_by opts (negsuc n) e k = (
  λ h. absurd (
      ilog2-negative n k (
        (==_iff (ilog2 (negsuc n)) 0).0
          (subst (λ size. (ilog2 size == 0) ≡ true) e ((new_chunker-eq-none opts).0 h)))),
  λ s. elim s [ inl never ↦ cc | inr never ↦ cc ],
)

-- `NewChunker` panics exactly when the average size, which is any int of 64 bits, is 0 or 1.
pub new_chunker_panics :
    (opts : ChunkOptions)
    → IsInt opts.avg_size
    → (new_chunker opts ≡ none) ↔ ((opts.avg_size ≡ pos 0) ⊎ (opts.avg_size ≡ pos 1))
new_chunker_panics opts h = panics_by opts opts.avg_size refl h

-- For an average size of 2 to 2 ^ 32 - 1 with k binary digits behind the first, the strict mask has k + 1 ones and the loose mask k - 1.
pub new_chunker-masks :
    (opts : ChunkOptions) (n : ℕ)
    → opts.avg_size ≡ pos n
    → 2 ≤ n
    → n < 2 ^ 32
    → (c : Chunker) × (k : ℕ) × (new_chunker opts ≡ some c)
      × (2 ^ k ≤ n)
      × (n < 2 ^ (k + 1))
      × (c.mask_s ≡ 2 ^ (k + 1) - 1)
      × (c.mask_l ≡ 2 ^ (k - 1) - 1)
unfolding new_chunker
new_chunker-masks opts n e h k =
    let b = ilog2 (pos n) in
    let (low, high) = ilog2_lem n (omega arith) (omega arith) in
    let small : b < 32 = lt_of_pow b 32 (omega arith) in
    (
      make_chunker opts b,
      b,
      rw e (ground (arith, ilog2-eq-zero n (omega arith))),
      low,
      subst (λ s. n < 2 ^ s) (omega arith) high,
      unfold make_chunker in low_mask_lem (b + 1) (omega arith),
      unfold make_chunker in low_mask_lem (b - 1) (omega arith),
    )
