-- ===== src/Chunk/Refine.antt =====
-- About `Push` of chunk/chunker.go: the loop with its buffer and position, and the reference scan.
use mathlib.Core.Path.{subst}
use baas_go_sdk.Base.{
  ℕ, zero, suc, ◌≤◌, ◌≡◌, refl, List, [], ◌∷◌, ◌++◌, append_assoc, append-nil, arith, length,
  length-append, take, take-append, drop-append, get_elem?, get_elem?-append, some, none, sym,
  get_elem?_end, if◌then◌else◌,
}
use baas_go_sdk.Base.Text.{Bytes}
use baas_go_sdk.Chunk.{Chunker, roll, advance, restart, cut_here, push_loop, push}
use baas_go_sdk.Chunk.Spec.{with_state, ends, scan}

module _ (c : Chunker) where
  advance-with_state :
      (cur rest : Bytes) (h b : ℕ)
      → advance (with_state c cur (b ∷ rest) h) b ≡ with_state c (cur ++ b ∷ []) rest (roll h b)
  unfolding advance
  advance-with_state cur rest h b = cc (length-append cur (b ∷ []), append_assoc cur (b ∷ []) rest)

  restart-with_state :
      (cur rest : Bytes) (h : ℕ) → restart (with_state c cur rest h) ≡ with_state c [] rest 0
  unfolding restart
  restart-with_state cur rest h = rw (drop-append (length cur) cur rest refl)

  ends-with_state : (cur rest : Bytes) (h : ℕ) → cut_here (with_state c cur rest h) ≡ ends c cur h
  unfolding cut_here
  ends-with_state cur rest h = refl

  -- One round of the loop, with the callees shut.
  push_loop_step :
      (fuel : ℕ) (d : Chunker) (b : ℕ) (out : List Bytes)
      → get_elem? d.buf d.pos ≡ some b
      → push_loop (suc fuel) d out ≡ (
          if cut_here (advance d b)
          then push_loop fuel
              (restart (advance d b))
              (out ++ take (advance d b).pos (advance d b).buf ∷ [])
          else push_loop fuel (advance d b) out)
  unfolding push_loop
  push_loop_step fuel d b out e = rw (e, push_loop)

  push_loop_stop :
      (fuel : ℕ) (d : Chunker) (out : List Bytes)
      → get_elem? d.buf d.pos ≡ none
      → push_loop (suc fuel) d out ≡ (d, out)
  unfolding push_loop
  push_loop_stop fuel d out e = rw (e, push_loop)

  pub push_loop-scan :
      (fuel : ℕ) (cur rest : Bytes) (h : ℕ) (out : List Bytes)
      → length rest ≤ fuel
      → push_loop fuel (with_state c cur rest h) out ≡ (
        with_state c (scan c cur h rest).cur [] (scan c cur h rest).hash,
        out ++ (scan c cur h rest).chunks,
      )
  push_loop-scan zero cur [] h out le = unfold push_loop scan in cc (append-nil out)
  push_loop-scan zero cur (b ∷ rest) h out le = absurd (omega arith)
  push_loop-scan (suc fuel) cur [] h out le =
      rw
        (push_loop_stop fuel (with_state c cur [] h) out (
          subst (λ xs. get_elem? xs (length cur) ≡ none) (sym (append-nil cur))
            (get_elem?_end cur)))
        (unfold scan in cc (append-nil out))
  push_loop-scan (suc fuel) cur (b ∷ rest) h out le =
      rw
        (
          push_loop_step fuel (with_state c cur (b ∷ rest) h) b out
              (get_elem?-append (length cur) cur b rest refl),
          advance-with_state cur rest h b,
          restart-with_state (cur ++ b ∷ []) rest (roll h b),
          take-append (length (cur ++ b ∷ [])) (cur ++ b ∷ []) rest refl,
          push_loop-scan fuel [] rest 0 (out ++ (cur ++ b ∷ []) ∷ []) (omega arith),
          push_loop-scan fuel (cur ++ b ∷ []) rest (roll h b) out (omega arith),
          ends-with_state (cur ++ b ∷ []) rest (roll h b),
        )
        (unfold scan in
          ground (arith, append_assoc out ((cur ++ b ∷ []) ∷ []) (scan c [] 0 rest).chunks))

-- Between two calls every byte of the buffer has been hashed.
abbrev pub IsScanned : Chunker → Type 0
IsScanned c = c.pos ≡ length c.buf

-- `Push` on a chunker whose buffer is hashed leaves it so, and scans the new bytes behind the old.
pub push-scan :
    (c : Chunker) (bytes : Bytes)
    → IsScanned c
    → push c bytes ≡ (
      with_state c (scan c c.buf c.gear_hash bytes).cur [] (scan c c.buf c.gear_hash bytes).hash,
      (scan c c.buf c.gear_hash bytes).chunks,
    )
unfolding push
push-scan c bytes scanned = cc (
  scanned,
  push_loop-scan c (length (c.buf ++ bytes)) c.buf bytes c.gear_hash []
      (omega (arith, length-append c.buf bytes)),
)
