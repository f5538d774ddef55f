-- ===== src/Dedup/Probes.antt =====
-- About `Test` of dedup/bloom.go: the bits that are probed.
use baas_go_sdk.Base.{ℕ, ◌+◌, ◌*◌, ◌/◌, ◌%◌, ◌≤◌, ◌<◌, ◌≡◌, Bool, false, some, length, get_elem?}
use baas_go_sdk.Dedup.{BloomFilter, bit_is_zero}

-- The bit is 1 in the byte that holds it.
abbrev pub BitSet : BloomFilter → ℕ → Type 0
BitSet bf p = (byte : ℕ) × (get_elem? bf.bytes (p / 8) ≡ some byte) × (bit_is_zero byte p ≡ false)

-- The filter has bits, and its bytes hold them all.
pub record IsBloom (bf : BloomFilter) : Type 0 where
  pub some_bit : 1 ≤ bf.num_bits
  pub room : bf.num_bits ≤ 8 * length bf.bytes

-- The i-th position, with one wrap-around at the end.
abbrev pub place : BloomFilter → ℕ → ℕ → ℕ → ℕ
place bf h1 h2 i = ((h1 + i * h2) % 4294967296) % bf.num_bits

-- The bits from the i-th position on, `todo` of them.
abbrev Between : BloomFilter → ℕ → ℕ → ℕ → ℕ → Type 0
Between bf h1 h2 todo i = (j : ℕ) → i ≤ j → j < i + todo → BitSet bf (place bf h1 h2 j)
