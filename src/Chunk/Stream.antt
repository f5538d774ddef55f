-- ===== src/Chunk/Stream.antt =====
-- About `Push` and `Flush` of chunk/chunker.go, and the stream of bytes that goes through them.
use baas_go_sdk.Base.{
  ℕ, ◌≡◌, refl, sym, ap, [], ◌∷◌, ◌++◌, append-nil, arith, length, concat, none, some,
  if◌then◌else◌, ◌==◌,
}
use baas_go_sdk.Base.Text.{Bytes}
use baas_go_sdk.Chunk.{Chunker, push, flush, roll, cut_here}
use baas_go_sdk.Chunk.Spec.{scan, with_state, concat-scan, scan-append}
use baas_go_sdk.Chunk.Refine.{IsScanned, push-scan}

-- `Push` leaves every byte of its buffer hashed, so that calls of it may follow one another.
pub push-IsScanned : (c : Chunker) (bytes : Bytes) → IsScanned c → IsScanned (push c bytes).0
push-IsScanned c bytes scanned =
    rw (push-scan c bytes scanned)
      (ap length (sym (append-nil (scan c c.buf c.gear_hash bytes).cur)))

-- The chunks that one `Push` returns, followed by the buffer that it leaves, are the buffer that
-- it found followed by the bytes that it was given, on a chunker whose buffer is hashed.
pub concat-push :
    (c : Chunker) (bytes : Bytes)
    → IsScanned c
    → concat (push c bytes).1 ++ (push c bytes).0.buf ≡ c.buf ++ bytes
concat-push c bytes scanned =
    rw (push-scan c bytes scanned, append-nil (scan c c.buf c.gear_hash bytes).cur)
      (concat-scan c c.buf c.gear_hash bytes)

-- The scan reads the sizes and the masks of the chunker, and not its state.
scan-with_state :
    (c : Chunker) (buf : Bytes) (k : ℕ) (cur : Bytes) (h : ℕ) (rest : Bytes)
    → scan (with_state c buf [] k) cur h rest ≡ scan c cur h rest
unfolding scan cut_here
scan-with_state c buf k cur h [] = refl
scan-with_state c buf k cur h (b ∷ rest) =
    cc (scan-with_state c buf k [] 0 rest, scan-with_state c buf k (cur ++ b ∷ []) (roll h b) rest)

-- On a chunker whose buffer is hashed, two calls of `Push` in a row are one call with both texts: the
-- same chunks, and the same state.
pub push-append :
    (c : Chunker) (xs ys : Bytes)
    → IsScanned c
    → push c (xs ++ ys) ≡ ((push (push c xs).0 ys).0, (push c xs).1 ++ (push (push c xs).0 ys).1)
push-append c xs ys scanned =
    let now = scan c c.buf c.gear_hash xs in
    rw
      (
        push-scan c (xs ++ ys) scanned,
        push-scan (push c xs).0 ys (push-IsScanned c xs scanned),
        push-scan c xs scanned,
        scan-append c c.buf c.gear_hash xs ys,
      )
      (cc (append-nil now.cur, scan-with_state c now.cur now.hash (now.cur ++ []) now.hash ys))

-- `Flush` hands out what is left and resets the state.
pub flush_lem :
    (c : Chunker)
    → ((flush c).1 ≡ (if length c.buf == 0 then none else some c.buf))
      × (length (flush c).0.buf ≡ 0)
unfolding flush
flush_lem c = ground arith
