-- ===== src/Chunk/Spec.antt =====
-- A reference for the chunker: one pass over the bytes with no buffer. `cur` are the bytes since
-- the last cut and `h` is their hash.
use baas_go_sdk.Base.{
  ℕ, ◌≡◌, refl, sym, List, [], ◌∷◌, ◌++◌, append_assoc, append-nil, arith, Bool, if◌then◌else◌,
  length, concat,
}
use baas_go_sdk.Base.Text.{Bytes}
use baas_go_sdk.Chunk.{Chunker, roll, cut_here}

-- The state of the chunker with `cur` hashed and `rest` still to hash.
abbrev pub with_state : Chunker → Bytes → Bytes → ℕ → Chunker
with_state c cur rest h = record c { buf = cur ++ rest; gear_hash = h; pos = length cur }

-- Does a chunk end behind `cur`, whose hash is `h`?
abbrev pub ends : Chunker → Bytes → ℕ → Bool
ends c cur h = cut_here (with_state c cur [] h)

pub record Scan : Type 0 where
  pub chunks : List Bytes
  pub cur : Bytes
  pub hash : ℕ

abbrev pub prepend : List Bytes → Scan → Scan
prepend out s = record s { chunks = out ++ s.chunks }

unfoldable pub scan : Chunker → Bytes → ℕ → Bytes → Scan
scan c cur h [] = record { chunks = []; cur = cur; hash = h }
scan c cur h (b ∷ rest) =
    let cur' = cur ++ b ∷ [] in
    let h' = roll h b in
    let cut = prepend (cur' ∷ []) (scan c [] 0 rest) in
    let go_on = scan c cur' h' rest in if ends c cur' h' then cut else go_on

-- The chunks and the unfinished chunk spell what was read.
pub concat-scan :
    (c : Chunker) (cur : Bytes) (h : ℕ) (rest : Bytes)
    → concat (scan c cur h rest).chunks ++ (scan c cur h rest).cur ≡ cur ++ rest
unfolding scan
concat-scan c cur h [] = sym (append-nil cur)
concat-scan c cur h (b ∷ rest) = ground (
  arith,
  concat-scan c [] 0 rest,
  concat-scan c (cur ++ b ∷ []) (roll h b) rest,
  append_assoc cur (b ∷ []) rest,
  append_assoc (cur ++ b ∷ []) (concat (scan c [] 0 rest).chunks) (scan c [] 0 rest).cur,
)

-- Reading on from where a scan stopped is one scan of both texts.
pub scan-append :
    (c : Chunker) (cur : Bytes) (h : ℕ) (xs ys : Bytes)
    → scan c cur h (xs ++ ys)
      ≡ prepend (scan c cur h xs).chunks (scan c (scan c cur h xs).cur (scan c cur h xs).hash ys)
unfolding scan
scan-append c cur h [] ys = refl
scan-append c cur h (b ∷ xs) ys =
    ground (arith, scan-append c [] 0 xs ys, scan-append c (cur ++ b ∷ []) (roll h b) xs ys)
