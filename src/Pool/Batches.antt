-- ===== src/Pool/Batches.antt =====
-- About `Batch` of pool/pool.go.
use baas_go_sdk.Base.{
  ℕ, zero, suc, ◌+◌, ◌-◌, ◌≤◌, ◌<◌, ◌≡◌, sym, ◌∙◌, ap, true, false, some, List, [], ◌∷◌, ◌++◌,
  append_assoc, append-nil, arith, ltb, ltb→lt, ltb→le, Bool-cases, inl, inr, if◌then◌else◌, length,
  length-append, length-drop, length-take, take, drop, take-append-drop, drop-drop, take_all,
  drop_all, concat,
}
use baas_go_sdk.Pool.{batch, batch_loop}

module _ {A : Type 0} where
  -- Every part but the last has `size` items, and the last one to `size`.
  abbrev pub FullParts : ℕ → List (List A) → Type 0
  FullParts size [] = Unit
  FullParts size (x ∷ []) = (1 ≤ length x) × (length x ≤ size)
  FullParts size (x ∷ y ∷ parts) = (length x ≡ size) × FullParts size (y ∷ parts)

  -- The slice is cut at the end of the list without the test.
  slice_lem :
      (i size : ℕ) (items : List A)
      → take ((if ltb (length items) (i + size) then length items else i + size) - i) (drop i items)
        ≡ take size (drop i items)
  slice_lem i size items = elim (Bool-cases (ltb (length items) (i + size))) [
    | inl past ↦
        let h = ltb→lt _ _ past in
        rw (
          past,
          take_all (length items - i) (drop i items) (omega (arith, length-drop i items)),
          take_all size (drop i items) (omega (arith, length-drop i items)),
        )
    | inr within ↦ rw within (ap (λ n. take n (drop i items)) (omega arith))
  ]

  FullParts-head :
      (size : ℕ) (x : List A) (parts : List (List A))
      → FullParts size (x ∷ parts)
      → 1 ≤ size
      → 1 ≤ length x
  FullParts-head size x [] h pos = h.0
  FullParts-head size x (y ∷ parts) h pos = omega (arith, h.0)

  FullParts-cons :
      (size : ℕ) (x : List A) (parts : List (List A))
      → 1 ≤ size
      → 1 ≤ length x
      → length x ≤ size
      → (1 ≤ length (concat parts) → length x ≡ size)
      → FullParts size parts
      → FullParts size (x ∷ parts)
  FullParts-cons size x [] pos low high full rest = (low, high)
  FullParts-cons size x (y ∷ parts) pos low high full rest = (
    full (omega (arith, length-append y (concat parts), FullParts-head size y parts rest pos)),
    rest,
  )

  batch_loop_more :
      (fuel i size : ℕ) (items : List A) (out : List (List A))
      → ltb i (length items) ≡ true
      → batch_loop (suc fuel) i items size out
        ≡ batch_loop fuel (i + size) items size (out ++ take size (drop i items) ∷ [])
  unfolding batch_loop
  batch_loop_more fuel i size items out more = rw (more, slice_lem i size items)

  batch_loop_done :
      (fuel i size : ℕ) (items : List A) (out : List (List A))
      → ltb i (length items) ≡ false
      → batch_loop (suc fuel) i items size out ≡ some out
  unfolding batch_loop
  batch_loop_done fuel i size items out done = rw done

  batch_loop_parts :
      (fuel i size : ℕ) (items : List A) (out : List (List A))
      → 1 ≤ size
      → 1 ≤ fuel
      → length items < i + fuel
      → (parts : List (List A)) × (batch_loop fuel i items size out ≡ some (out ++ parts))
        × (concat parts ≡ drop i items)
        × FullParts size parts
  batch_loop_parts zero i size items out pos some_fuel enough = absurd (omega arith)
  batch_loop_parts (suc fuel) i size items out pos some_fuel enough =
      elim (Bool-cases (ltb i (length items))) [
        | inl more ↦
            let h = ltb→lt i (length items) more in
            let x = take size (drop i items) in
            let left = length-drop i items in
            let len = length-take size (drop i items) in
            let (parts, runs, spell, full) =
              batch_loop_parts fuel (i + size) size items (out ++ x ∷ []) pos (omega arith)
                (omega arith) in
            (
              x ∷ parts,
              batch_loop_more fuel i size items out more
                  ∙ runs
                  ∙ ap some (append_assoc out (x ∷ []) parts),
              rw (spell, ← drop-drop size i items) (take-append-drop size (drop i items)),
              FullParts-cons size x parts pos (omega arith) (omega arith)
                  (λ r. omega (arith, ap length spell, length-drop (i + size) items)) full,
            )
        | inr done ↦
            let h = ltb→le i (length items) done in
            (
              [],
              batch_loop_done fuel i size items out done ∙ ap some (sym (append-nil out)),
              sym (drop_all i items h),
              tt,
            )
      ]

-- For a size of at least 1 the loop ends, the parts spell the list, every part but the last has
-- `size` items, and the last has one to `size`.
pub batch_lem :
    {A : Type 0} (items : List A) (size : ℕ)
    → 1 ≤ size
    → (parts : List (List A)) × (batch items size ≡ some parts)
      × (concat parts ≡ items)
      × FullParts size parts
batch_lem items size pos =
    unfold batch in
    batch_loop_parts (length items + 1) 0 size items [] pos (omega arith) (omega arith)
