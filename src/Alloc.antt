-- ===== src/Alloc.antt =====
-- The block allocator, src/block_allocator.c. `bmap_cache.lock` is taken and given back within each
-- function, and is left out; an access beyond the arrays of `bmap_cache` is `fault`.
pub mod Bits
pub mod Mark
pub mod Groups
pub mod Search
pub mod Effects
pub mod Retire
pub mod Take
pub mod Runs
pub mod Frees
pub mod Scan
pub mod Refresh
pub mod Give
pub mod Counts
unfoldable use Bits.{set_bit}
use myfuse.Common.{
  ℕ, zero, suc, ◌+◌, ◌-◌, ◌*◌, ◌/◌, ◌%◌, ◌^◌, Bool, true, false, Option, none, some, not, ◌&&◌,
  ◌||◌, ◌==◌, ltb, leb, add32, sub32, if◌then◌else◌, update,
}
use myfuse.Params.{bsize, bpb}
use myfuse.Machine.{
  Machine, SuperBlock, BmapCache, Cmd, fault, pure, ◌>>=◌, ◌>>◌, state, modify, err_exit,
}
use myfuse.Machine.Block.{zeros, copy_bytes}
use myfuse.Machine.Buffer.{buf_data, set_data}
use myfuse.Log.Op.{begin_op, end_op, logged_read, logged_write, logged_relse}

-- -1 as an `int`
abbrev pub minus_one : ℕ
minus_one = 2 ^ 32 - 1

unfoldable pub bmap_block_statue_get : BmapCache → ℕ → ℕ
bmap_block_statue_get c blockno = c.cache_buf (blockno / 8) / 2 ^ (blockno % 8) % 2

-- the cache after the first half of `bmap_block_statue_set`
unfoldable pub mark : BmapCache → ℕ → ℕ → BmapCache
mark c blockno i = record c {
  cache_buf =
      update c.cache_buf (blockno / 8) (set_bit (c.cache_buf (blockno / 8)) (blockno % 8) i);
}

unfoldable pub bmap_block_statue_set : ℕ → ℕ → Cmd (Unit {0})
bmap_block_statue_set blockno i = do
  m ← state
  if ltb (blockno / bpb) m.bmap.n_cache then pure tt else (λ _. fault)
  let bits_flag = (mark m.bmap blockno i).cache_buf (blockno / 8)
  modify (λ s. record s { bmap = mark s.bmap blockno i })
  let bmapno = add32 (blockno / bpb) m.sb.bmapstart
  logged_read bmapno
  d ← buf_data bmapno
  set_data bmapno (update d (blockno % bpb / 8) bits_flag)
  logged_write bmapno
  logged_relse bmapno

unfoldable pub logged_zero_a_block : ℕ → Cmd (Unit {0})
logged_zero_a_block bno = do logged_read bno; set_data bno zeros; logged_write bno; logged_relse bno

unfoldable pub bmap2blockno : ℕ → ℕ → ℕ
bmap2blockno bmapno bmap_cache_index = (bmapno + bmap_cache_index * bpb) % 2 ^ 32

-- the first of `k` groups from `i` on with a free block
unfoldable pub find_group : (ℕ → ℕ) → ℕ → ℕ → Option ℕ
find_group first_unalloced zero i = none
find_group first_unalloced (suc k) i =
    let rest = find_group first_unalloced k (i + 1) in
    if first_unalloced i == minus_one then rest else some i

-- the first free block of group `g` among `k` bits from `i` on
unfoldable pub find_free : BmapCache → ℕ → ℕ → ℕ → Option ℕ
find_free c g zero i = none
find_free c g (suc k) i =
    let rest = find_free c g k (i + 1) in
    if bmap_block_statue_get c (bmap2blockno i g) == 0 then some i else rest

abbrev pub set_first_unalloced : BmapCache → ℕ → ℕ → BmapCache
set_first_unalloced c g i = record c { first_unalloced = update c.first_unalloced g i }

-- after the search for a group with a free block
unfoldable pub refocus : Option ℕ → Cmd (Unit {0})
refocus (some i) = modify (λ s. record s { bmap = record s.bmap { first_free_cache = i } })
refocus none =
    modify (λ s. record s { bmap = record s.bmap { first_free_cache = minus_one } }) >> err_exit

-- after the search for the next free block of group `g`
unfoldable pub advance : ℕ → Option ℕ → Cmd (Unit {0})
advance g (some i) = modify (λ s. record s { bmap = set_first_unalloced s.bmap g i })
advance g none = pure tt

-- "third, update the cache": the group `g` had its first free block `first` taken.
unfoldable pub retire : ℕ → ℕ → Cmd (Unit {0})
retire g first = do
  modify (λ m. record m {
    bmap = record m.bmap { n_alloced = update m.bmap.n_alloced g (add32 (m.bmap.n_alloced g) 1) };
  })
  m ← state
  if m.bmap.n_alloced g == bpb
      then (do
        modify (λ s. record s { bmap = set_first_unalloced s.bmap g minus_one })
        s ← state
        refocus (find_group s.bmap.first_unalloced s.bmap.n_cache 0))
      else advance g (find_free m.bmap g (bpb - (first + 1)) (first + 1))

-- `free_cache_index < 0` compares a `uint`.
unfoldable pub block_alloc : Cmd ℕ
block_alloc = do
  m ← state
  let free_cache_index = m.bmap.first_free_cache
  if ltb free_cache_index 0 then err_exit else pure tt
  if ltb free_cache_index m.bmap.n_cache then pure tt else (λ _. fault)
  let first_free_block = m.bmap.first_unalloced free_cache_index
  let victim_blockno = bmap2blockno first_free_block free_cache_index
  bmap_block_statue_set victim_blockno 1
  retire free_cache_index first_free_block
  logged_zero_a_block victim_blockno
  pure victim_blockno

unfoldable pub block_free : ℕ → Cmd (Unit {0})
block_free blockno = do
  let cache_index = blockno / bpb
  let bmapno = blockno % bpb
  bmap_block_statue_set blockno 0
  modify (λ m. record m {
    bmap = record m.bmap {
      n_alloced = update m.bmap.n_alloced cache_index (sub32 (m.bmap.n_alloced cache_index) 1);
      first_unalloced = update m.bmap.first_unalloced cache_index (
          if ltb bmapno (m.bmap.first_unalloced cache_index)
          then bmapno
          else m.bmap.first_unalloced cache_index);
      first_free_cache = cache_index;
    };
  })

-- The inner loop of `block_allocator_refresh`: the set bits of `k` blocks from `blockno` on, and
-- the first clear one.
unfoldable pub scan : BmapCache → ℕ → ℕ → ℕ → ℕ → ℕ × ℕ
scan c zero blockno n first = (n, first)
scan c (suc k) blockno n first =
    let free = bmap_block_statue_get c blockno == 0 in
    scan c k (blockno + 1) (if free then n else add32 n 1)
      (if free && first == minus_one then blockno % bpb else first)

-- A round of its outer loop. `first_free` is 0 when it is tested, and is not used after.
unfoldable pub refresh_group : SuperBlock → ℕ → Cmd (Unit {0})
refresh_group sb i = do
  logged_read (add32 i sb.bmapstart)
  d ← buf_data (add32 i sb.bmapstart)
  modify (λ m. record m {
    bmap = record m.bmap { cache_buf = copy_bytes m.bmap.cache_buf (i * bsize) d 0 bsize };
  })
  logged_relse (add32 i sb.bmapstart)
  m ← state
  let (n, first) = scan m.bmap bpb (i * bpb) 0 minus_one
  modify (λ s. record s {
    bmap = record s.bmap {
      n_alloced = update s.bmap.n_alloced i n;
      first_unalloced = update s.bmap.first_unalloced i first;
    };
  })

-- for `k` more groups
unfoldable pub refresh_loop : SuperBlock → ℕ → ℕ → Cmd (Unit {0})
refresh_loop sb zero i = pure tt
refresh_loop sb (suc k) i = refresh_group sb i >> refresh_loop sb k (i + 1)

-- `(x + align - 1) & ~(align - 1)`, at a power of two
abbrev pub roundup : ℕ → ℕ → ℕ
roundup x align = (x + (align - 1)) / align * align

unfoldable pub block_allocator_refresh : SuperBlock → Cmd (Unit {0})
block_allocator_refresh sb = do
  let ncache_blocks = roundup sb.size bpb / bpb
  modify (λ m. record m { bmap = record m.bmap { n_cache = ncache_blocks } })
  begin_op
  refresh_loop sb ncache_blocks 0
  end_op

-- `for (i = from; i < from + k; i++)` of `init_meta_blocks_bmap`, each bit in its own operation
unfoldable pub mark_all : ℕ → ℕ → Cmd (Unit {0})
mark_all zero i = pure tt
mark_all (suc k) i = do begin_op; bmap_block_statue_set i 1; end_op; mark_all k (i + 1)

unfoldable pub init_meta_blocks_bmap : Cmd (Unit {0})
init_meta_blocks_bmap = do
  m ← state
  mark_all (sub32 m.sb.size m.sb.nblocks) 0
  mark_all (roundup m.sb.size bpb - m.sb.size) m.sb.size

-- The loop of `myfuse_statfs` (src/file.c): the clear bits of `k` blocks from `i` on.
unfoldable pub count_free : BmapCache → ℕ → ℕ → ℕ
count_free c zero i = 0
count_free c (suc k) i = (if bmap_block_statue_get c i == 0 then 1 else 0) + count_free c k (i + 1)
