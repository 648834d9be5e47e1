-- ===== src/Alloc/Counts.antt =====
-- Two loops over the bitmap that count: the one of `block_allocator_refresh`
-- (src/block_allocator.c), which counts the blocks in use, and that of `myfuse_statfs` (src/file.c).
use myfuse.Common.{
  ℕ, zero, suc, ◌+◌, ◌^◌, ◌<◌, ◌≡◌, refl, true, ◌==◌, ◌&&◌, if◌then◌else◌, inl, inr, Bool-cases,
  arith, add32, ◌%◌,
}
use myfuse.Params.{bpb}
use myfuse.Machine.{BmapCache}
use myfuse.Alloc.{scan, count_free, bmap_block_statue_get, minus_one}

-- Over any stretch of the bitmap the blocks that `block_allocator_refresh` counts as in use and those
-- that `myfuse_statfs` counts as free add up to all of it, whatever count the former starts with, as
-- long as it stays below 2^32.
pub scan-count_free :
    (c : BmapCache) (k blockno n first : ℕ)
    → n + k < 2 ^ 32
    → (scan c k blockno n first).0 + count_free c k blockno ≡ n + k
unfolding scan count_free
scan-count_free c zero blockno n first h = refl
scan-count_free c (suc k) blockno n first h =
    elim (Bool-cases (bmap_block_statue_get c blockno == 0)) [
      | inl free ↦
          let first' = if true && first == minus_one then blockno % bpb else first in
          let e : (scan c (suc k) blockno n first).0 ≡ (scan c k (blockno + 1) n first').0 =
            rw (scan, free) refl in
          let e' : count_free c (suc k) blockno ≡ 1 + count_free c k (blockno + 1) =
            rw (count_free, free) refl in
          omega (arith, e, e', scan-count_free c k (blockno + 1) n first' (omega arith))
      | inr used ↦
          let up : add32 n 1 ≡ n + 1 = omega arith in
          let e : (scan c (suc k) blockno n first).0 ≡ (scan c k (blockno + 1) (n + 1) first).0 =
            rw (scan, used, up) refl in
          let e' : count_free c (suc k) blockno ≡ 0 + count_free c k (blockno + 1) =
            rw (count_free, used) refl in
          omega (arith, e, e', scan-count_free c k (blockno + 1) (n + 1) first (omega arith))
    ]
