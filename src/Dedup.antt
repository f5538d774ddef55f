-- ===== src/Dedup.antt =====
-- dedup/bloom.go: the server's Bloom filter, which tells the backup what need not be uploaded.
pub mod Probes
use Prim.Native.Nat.{bit_and}
use baas_go_sdk.Base.{
  ℕ, zero, suc, ◌+◌, ◌-◌, ◌*◌, ◌/◌, ◌%◌, ◌^◌, Bool, true, false, Option, none, some, ◌==◌, ltb,
  if◌then◌else◌, length, take, drop, get_elem?,
}
use baas_go_sdk.Base.Text.{Bytes, codes}
use baas_go_sdk.Base.Int.{ℤ, pos, negsuc}
use baas_go_sdk.Encoding.Base64
use baas_go_sdk.Encoding.Hex.{parse_hex32}
use baas_go_sdk.Errors.{library}
use baas_go_sdk.Errors.Outcome.{Outcome, ok, err, panic, ◌>>=◌}
use baas_go_sdk.Types.{BloomResponse}

abbrev pub u32 : ℕ
u32 = 4294967296

-- `uint32(n)`
unfoldable pub to_u32 : ℤ → ℕ
to_u32 (pos n) = n % u32
to_u32 (negsuc n) = u32 - 1 - n % u32

pub record BloomFilter : Type 0 where
  pub bytes : Bytes
  pub num_bits : ℕ
  pub num_hashes : ℤ

abbrev filter_of : BloomResponse → Option Bytes → Outcome BloomFilter
filter_of resp none = err (library (codes "base64"))
filter_of resp (some bytes) =
    ok (record { bytes = bytes; num_bits = to_u32 resp.num_bits; num_hashes = resp.num_hashes })

unfoldable pub new_bloom_filter : BloomResponse → Outcome BloomFilter
unfolding to_u32
new_bloom_filter resp = filter_of resp (Base64.decode resp.data_text)

-- `hash[from:to]`, which panics on a shorter text.
unfoldable pub hash_part : ℕ → ℕ → Bytes → Outcome Bytes
hash_part from to hash =
    if ltb (length hash) to then panic else ok (take (to - from) (drop from hash))

-- `1 << (pos & 7)` of a byte.
unfoldable pub bit_is_zero : ℕ → ℕ → Bool
bit_is_zero byte position = bit_and byte (2 ^ (position % 8)) == 0

-- The i-th position, in uint32.
unfoldable pub position : BloomFilter → ℕ → ℕ → ℕ → ℕ
position bf h1 h2 i = ((h1 + i * h2 % u32) % u32) % bf.num_bits

-- The test of one byte, which stops at a bit that is 0; `none` is an index out of range.
abbrev stop_or : ℕ → Outcome Bool → Option ℕ → Outcome Bool
stop_or p rest none = panic
stop_or p rest (some byte) = if bit_is_zero byte p then ok false else rest

-- The loop with `todo` rounds left; `% bf.numBits` panics on 0.
unfoldable pub probe : BloomFilter → ℕ → ℕ → ℕ → ℕ → Outcome Bool
unfolding bit_is_zero position
probe bf h1 h2 zero i = ok true
probe bf h1 h2 (suc todo) i =
    let p = position bf h1 h2 i in
    let rest = probe bf h1 h2 todo (i + 1) in
    if bf.num_bits == 0 then panic else stop_or p rest (get_elem? bf.bytes (p / 8))

unfoldable pub bloom_test : BloomFilter → Bytes → Outcome Bool
bloom_test bf hash = do
  a ← hash_part 0 8 hash
  b ← hash_part 8 16 hash
  probe bf (parse_hex32 a) (parse_hex32 b) (to_u32 bf.num_hashes) 0

-- `BloomTester`: a filter, or `emptyBloom`.
pub data BloomTester : Type 0 where
  empty_bloom : BloomTester
  bloom : BloomFilter → BloomTester

unfoldable pub tester_test : BloomTester → Bytes → Outcome Bool
tester_test empty_bloom hash = ok false
tester_test (bloom bf) hash = bloom_test bf hash
