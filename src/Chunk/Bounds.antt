-- ===== src/Chunk/Bounds.antt =====
-- About `Push` of chunk/chunker.go: how long the chunks are.
use baas_go_sdk.Base.{
  ℕ, ◌+◌, ◌≤◌, ◌<◌, ◌≡◌, true, false, [], ◌∷◌, ◌++◌, arith, length, length-append, Bool-cases, inl,
  inr, append-nil,
}
use baas_go_sdk.Base.Text.{Bytes}
use baas_go_sdk.Base.Int.{pos}
use baas_go_sdk.Base.All.{All}
use baas_go_sdk.Chunk.{Chunker, push, roll, cut_here}
use baas_go_sdk.Chunk.Spec.{scan, ends}
use baas_go_sdk.Chunk.Refine.{IsScanned, push-scan}

-- The sizes are as a caller would choose them: not negative, the least not above the largest, and
-- the largest not 0.
pub record HasSizes (c : Chunker) (low high : ℕ) : Type 0 where
  pub min_eq : c.min_size ≡ pos low
  pub max_eq : c.max_size ≡ pos high
  pub ordered : low ≤ high
  pub positive : 1 ≤ high

abbrev pub InSizes : ℕ → ℕ → Bytes → Type 0
InSizes low high x = (1 ≤ length x) × (low ≤ length x) × (length x ≤ high)

module _ (c : Chunker) (low high : ℕ) (sizes : HasSizes c low high) where
  low-le_of_ends : (cur : Bytes) (h : ℕ) → ends c cur h ≡ true → low ≤ length cur
  unfolding cut_here
  low-le_of_ends cur h e = ground (arith, sizes.min_eq)

  lt_of_not_ends : (cur : Bytes) (h : ℕ) → ends c cur h ≡ false → length cur < high
  unfolding cut_here
  lt_of_not_ends cur h e = ground (arith, sizes.min_eq, sizes.max_eq, sizes.ordered)

  scan_bounds :
      (cur : Bytes) (h : ℕ) (rest : Bytes)
      → length cur < high
      → All (InSizes low high) (scan c cur h rest).chunks × (length (scan c cur h rest).cur < high)
  unfolding scan
  scan_bounds cur h [] lt = (tt, lt)
  scan_bounds cur h (b ∷ rest) lt =
      let cur' = cur ++ b ∷ [] in
      let len : length cur' ≡ length cur + 1 = omega (arith, length-append cur (b ∷ [])) in
      elim (Bool-cases (ends c cur' (roll h b))) [
        | inl cut ↦
            let (all, left) = scan_bounds [] 0 rest sizes.positive in
            rw cut (((omega arith, low-le_of_ends cur' (roll h b) cut, omega arith), all), left)
        | inr go_on ↦
            rw go_on (scan_bounds cur' (roll h b) rest (lt_of_not_ends cur' (roll h b) go_on))
      ]

-- On a chunker whose buffer is hashed and shorter than the largest size, with a least size not above
-- the largest and a largest of at least 1, every chunk that `Push` returns is not empty, has at
-- least the least size and at most the largest, and what stays in the buffer is shorter than the
-- largest.
pub push_bounds :
    (c : Chunker) (low high : ℕ) (bytes : Bytes)
    → HasSizes c low high
    → IsScanned c
    → length c.buf < high
    → All (InSizes low high) (push c bytes).1 × (length (push c bytes).0.buf < high)
push_bounds c low high bytes sizes scanned lt = rw (push-scan c bytes scanned) (
    ground (
      arith,
      append-nil (scan c c.buf c.gear_hash bytes).cur,
      scan_bounds c low high sizes c.buf c.gear_hash bytes lt,
    ))
