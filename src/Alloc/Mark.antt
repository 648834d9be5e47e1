-- ===== src/Alloc/Mark.antt =====
-- Marking a block in `bmap_cache` changes the bit of that block and of no other.
use myfuse.Common.{ℕ, ◌/◌, ◌%◌, ◌<◌, ◌≡◌, arith, ◌==◌, if◌then◌else◌}
use myfuse.Machine.{BmapCache}
use myfuse.Alloc.{bmap_block_statue_get, mark}
use myfuse.Alloc.Bits.{set_bit-get, set_bit-lt}

abbrev pub AllBytes : BmapCache → Type 0
AllBytes c = (j : ℕ) → c.cache_buf j < 256

pub get_bit_lt : (c : BmapCache) (b : ℕ) → bmap_block_statue_get c b < 2
unfolding bmap_block_statue_get
get_bit_lt c b = omega arith

module _ (c : BmapCache) (bytes : AllBytes c) (b i : ℕ) (bit : i < 2) where
  pub mark-AllBytes : AllBytes (mark c b i)
  unfolding mark
  mark-AllBytes j =
      ground (arith, bytes j, set_bit-lt (c.cache_buf (b / 8)) (b % 8) i (bytes _) (omega arith))

  pub get-mark :
      (b' : ℕ)
      → bmap_block_statue_get (mark c b i) b' ≡ (if b == b' then i else bmap_block_statue_get c b')
  unfolding bmap_block_statue_get mark
  get-mark b' = ground (
    arith,
    set_bit-get (c.cache_buf (b / 8)) (b % 8) (b' % 8) i (bytes _) (omega arith) (omega arith) bit,
  )
