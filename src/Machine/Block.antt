-- ===== src/Machine/Block.antt =====
-- The contents of a disk block (include/fs.h: BSIZE bytes), and the integers that the code lays
-- over them by casts, little-endian.
use myfuse.Common.{
  ℕ, ◌+◌, ◌*◌, ◌/◌, ◌%◌, ◌^◌, ◌≤◌, ◌<◌, ◌≡◌, ◌⊎◌, ◌&&◌, arith, ◌==◌, leb, ltb, if◌then◌else◌, ◌-◌,
}

-- The byte at each offset; offsets from BSIZE on are never read.
abbrev pub Block : Type 0
Block = ℕ → ℕ

abbrev pub zeros : Block
zeros off = 0

-- `*(uint *)(d + off)`
unfoldable pub get32 : Block → ℕ → ℕ
get32 d off = d off + 256 * d (off + 1) + 65536 * d (off + 2) + 16777216 * d (off + 3)

unfoldable pub set32 : Block → ℕ → ℕ → Block
set32 d off v j =
    if j == off
    then v % 256
    else if j == off + 1
    then v / 256 % 256
    else if j == off + 2
    then v / 65536 % 256
    else if j == off + 3
    then v / 16777216 % 256
    else d j

-- `memmove(dst + to, src + from, n)`
unfoldable pub copy_bytes : Block → ℕ → Block → ℕ → ℕ → Block
copy_bytes dst to src from n j = if leb to j && ltb j (to + n) then src (from + (j - to)) else dst j

pub get32-set32_self : (d : Block) (off v : ℕ) → v < 2 ^ 32 → get32 (set32 d off v) off ≡ v
unfolding get32 set32
get32-set32_self d off v h = ground arith

pub get32-set32_apart :
    (d : Block) (off p v : ℕ) → (off + 4 ≤ p) ⊎ (p + 4 ≤ off) → get32 (set32 d off v) p ≡ get32 d p
unfolding get32 set32
get32-set32_apart d off p v h = ground arith
