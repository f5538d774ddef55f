-- ===== src/Chunk.antt =====
-- chunk/chunker.go: the streaming content-defined chunker. The state is the record of the source;
-- `buf` holds the bytes that are not yet in a chunk, and the first `pos` of them have been hashed.
mod Gear
pub mod Spec
pub mod Refine
pub mod Stream
pub mod Bounds
pub mod Log
pub mod File
use Prim.Native.Nat.{bit_and}
use baas_go_sdk.Base.{
  ℕ, zero, suc, ◌+◌, ◌-◌, ◌*◌, ◌/◌, ◌%◌, ◌^◌, Bool, true, false, Option, none, some, List, [], ◌∷◌,
  ◌++◌, ◌==◌, ltb, not, if◌then◌else◌, length, get_elem?, take, drop,
}
use baas_go_sdk.Base.Text.{Bytes}
use baas_go_sdk.Base.Int.{ℤ, pos, negsuc, ltb_ℤ, leb_ℤ}
use baas_go_sdk.Types.{ChunkOptions}
use Gear.{gear_table}

abbrev pub u32_mod : ℕ
u32_mod = 2 ^ 32

abbrev pub u64_mod : ℕ
u64_mod = 2 ^ 64

-- `uint(n)`
abbrev pub to_uint : ℤ → ℕ
to_uint (pos n) = n % u64_mod
to_uint (negsuc n) = (u64_mod - 1 - n % u64_mod)

-- `for v > 1 { v >>= 1; bits++ }`
unfoldable pub ilog2_loop : ℕ → ℕ → ℕ → ℕ
ilog2_loop zero v bits = bits
ilog2_loop (suc fuel) v bits =
    let rest = ilog2_loop fuel (v / 2) (bits + 1) in if ltb 1 v then rest else bits

-- A uint has 64 bits, so 64 rounds are enough.
unfoldable pub ilog2 : ℤ → ℕ
ilog2 n = ilog2_loop 64 (to_uint n) 0

pub record Chunker : Type 0 where
  pub buf : Bytes
  pub gear_hash : ℕ
  pub pos : ℕ
  pub min_size : ℤ
  pub avg_size : ℤ
  pub max_size : ℤ
  pub mask_s : ℕ
  pub mask_l : ℕ

-- `(1 << s) - 1` as a uint32; a shift of 32 or more gives 0, and 0 - 1 wraps around.
unfoldable pub low_mask : ℕ → ℕ
low_mask s = (2 ^ s % u32_mod + u32_mod - 1) % u32_mod

-- The new record, once `bits` is known.
unfoldable pub make_chunker : ChunkOptions → ℕ → Chunker
unfolding low_mask
make_chunker opts bits = record {
  buf = [];
  gear_hash = 0;
  pos = 0;
  min_size = opts.min_size;
  avg_size = opts.avg_size;
  max_size = opts.max_size;
  mask_s = low_mask (bits + 1);
  mask_l = low_mask (bits - 1);
}

-- `none` is the panic of a negative shift, `1 << (bits - 1)` at `bits == 0`.
unfoldable pub new_chunker : ChunkOptions → Option Chunker
new_chunker opts =
    let bits = ilog2 opts.avg_size in if bits == 0 then none else some (make_chunker opts bits)

-- The hash of one more byte: `(c.gearHash<<1 + gearTable[b]) & 0xFFFFFFFF`, in uint32.
unfoldable pub roll : ℕ → ℕ → ℕ
unfolding gear_table
roll h b = bit_and ((h * 2 % u32_mod + gear_table b) % u32_mod) 0xffff_ffff

-- The first two lines of the loop's body.
unfoldable pub advance : Chunker → ℕ → Chunker
unfolding roll
advance c b = record c { gear_hash = roll c.gear_hash b; pos = c.pos + 1 }

-- Whether a chunk ends behind the byte just hashed; below `min_size` the loop continues.
unfoldable pub cut_here : Chunker → Bool
cut_here c =
    if ltb_ℤ (pos c.pos) c.min_size
    then false
    else if leb_ℤ c.max_size (pos c.pos)
    then true
    else bit_and c.gear_hash (if leb_ℤ c.avg_size (pos c.pos) then c.mask_l else c.mask_s) == 0

-- `c.buf = c.buf[c.pos:]; c.pos = 0; c.gearHash = 0`
unfoldable pub restart : Chunker → Chunker
restart c = record c { buf = drop c.pos c.buf; pos = 0; gear_hash = 0 }

-- `for c.pos < len(c.buf) { … }`: there is a byte at `pos` exactly if the test holds.
unfoldable pub push_loop : ℕ → Chunker → List Bytes → Chunker × List Bytes
unfolding advance cut_here restart
push_loop zero c out = (c, out)
push_loop (suc fuel) c out = elim (get_elem? c.buf c.pos) [
  | none ↦ (c, out)
  | some b ↦
      let c' = advance c b in
      let cut = push_loop fuel (restart c') (out ++ take c'.pos c'.buf ∷ []) in
      let go_on = push_loop fuel c' out in if cut_here c' then cut else go_on
]

-- A round uses one byte up, so as many rounds as there are bytes are enough.
unfoldable pub push : Chunker → Bytes → Chunker × List Bytes
unfolding push_loop
push c bytes = let buf = c.buf ++ bytes in push_loop (length buf) (record c { buf = buf }) []

-- `nil` is `none`.
unfoldable pub flush : Chunker → Chunker × Option Bytes
flush c =
    if length c.buf == 0
    then (c, none)
    else (record c { buf = []; pos = 0; gear_hash = 0 }, some c.buf)
