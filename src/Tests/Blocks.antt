-- ===== src/Tests/Blocks.antt =====
-- Allocation of blocks, on a bitmap of one group.
use myfuse.Common.{
  ℕ, zero, suc, ◌+◌, ◌-◌, ◌/◌, ◌%◌, ◌^◌, ◌≤◌, ◌<◌, ◌≡◌, refl, sym, arith, false, ◌==◌,
  if◌then◌else◌,
}
use mathlib.Core.Path.{subst}
use native.Mathlib.Nat.{div-le_self}
use native.Mathlib.Decide.{dec_lt}
use myfuse.Machine.{Machine, Returns}
use myfuse.Params.{bpb}
use myfuse.Machine.Buffer.{bread, buf_data, set_data, bpin, brelse}
use myfuse.Log.Op.{logged_read, logged_write, logged_relse, find_block}
use myfuse.Alloc.{
  bmap_block_statue_get, bmap_block_statue_set, bmap2blockno, mark, retire, advance, refocus,
  find_free, find_group, logged_zero_a_block, block_alloc, block_free,
}
use myfuse.Alloc.Bits.{set_bit}
use myfuse.Alloc.Groups.{count_set, at, IsSound}
use myfuse.Alloc.Retire.{IsWell, HasFree}
use myfuse.Alloc.Take.{Took}
use myfuse.Alloc.Runs.{block_alloc-Returns}
use myfuse.Common.{◌*◌}
use myfuse.Alloc.Scan.{scan-IsFirst}
use myfuse.Alloc.Refresh.{block_allocator_refresh-current}
use myfuse.Log.Op.{begin_op, end_op}
use myfuse.Log.Commit.{commit}
use myfuse.Alloc.{scan, minus_one, block_allocator_refresh, refresh_loop, refresh_group}
use myfuse.Tests.Fixture.{superblock, idle}
use myfuse.Alloc.Groups.{IsFirst}
use myfuse.Alloc.Frees.{block_free-Returns, block_free-block_alloc}
use myfuse.Log.Edited.{HasRoomFor}
use myfuse.Alloc.Give.{Gave}
use myfuse.Tests.Fixture.{bitmap, busy, after}

abbrev IsBit : ℕ → Type 0
IsBit b = bmap_block_statue_get bitmap b ≡ (if b == 0 then 1 else if b == 1 then 1 else 0)

low_bits : (b : ℕ) → b < 8 → IsBit b
unfolding bmap_block_statue_get
low_bits zero h = refl
low_bits (suc zero) h = refl
low_bits (suc (suc zero)) h = refl
low_bits (suc (suc (suc zero))) h = refl
low_bits (suc (suc (suc (suc zero)))) h = refl
low_bits (suc (suc (suc (suc (suc zero))))) h = refl
low_bits (suc (suc (suc (suc (suc (suc zero)))))) h = refl
low_bits (suc (suc (suc (suc (suc (suc (suc zero))))))) h = refl
low_bits (suc (suc (suc (suc (suc (suc (suc (suc b)))))))) h = absurd (omega arith)

high_bits : (b : ℕ) → 8 ≤ b → IsBit b
unfolding bmap_block_statue_get
high_bits b h =
    let none_set : (b / 8 == 0) ≡ false = ground arith in
    let z : 0 / 2 ^ (b % 8) ≡ 0 = omega (arith, div-le_self 0 (2 ^ (b % 8))) in
    rw (none_set, z) (ground arith)

bits : (b : ℕ) → IsBit b
bits b = elim (dec_lt b 8) [ yes h ↦ low_bits b h | no h ↦ high_bits b (omega arith) ]

count_clear : (b k : ℕ) → 2 ≤ b → count_set bitmap b k ≡ 0
unfolding count_set
count_clear b zero h = refl
count_clear b (suc k) h = ground (arith, bits b, count_clear (b + 1) k (omega arith))

count_two : (k : ℕ) → count_set bitmap 0 (suc (suc k)) ≡ 2
unfolding count_set
count_two k = ground (arith, bits 0, bits 1, count_clear 2 k (omega arith))

bitmap-IsSound : IsSound bitmap 0
bitmap-IsSound = record {
  counted = sym (count_two (bpb - 2));
  first = at (omega arith) (ground (arith, bits 2)) λ i h. ground (arith, bits i);
}

bitmap-IsWell : IsWell bitmap
bitmap-IsWell = record {
  bytes = λ j. ground arith;
  fits = omega arith;
  groups = λ g h. let e : 0 ≡ g = omega arith in subst (IsSound bitmap) e bitmap-IsSound;
}

bitmap-HasFree : HasFree bitmap
bitmap-HasFree = record { inside = omega arith; free = omega arith }

busy-Room : HasRoomFor 2 busy
busy-Room = record {
  few = omega arith;
  room = omega arith;
  small = omega arith;
  inside = omega arith;
  sane = omega arith;
}

block_alloc-Returns_example : Returns (λ v m'. Took busy.bmap v m'.bmap) (block_alloc busy)
block_alloc-Returns_example = block_alloc-Returns busy bitmap-IsWell bitmap-HasFree (record {
  room = busy-Room;
  bitmap_free = refl;
  block_free = refl;
  other = 3;
  other_inside = omega arith;
  other_free = bits 3;
  other_not = omega arith;
})

block_free-Returns_example : Returns (λ _ m'. Gave busy.bmap 1 m'.bmap) (block_free 1 busy)
block_free-Returns_example =
    block_free-Returns 1 busy bitmap-IsWell (omega arith) (bits 1)
      (record {
        few = omega arith;
        room = omega arith;
        small = omega arith;
        inside = omega arith;
        sane = omega arith;
      })
      refl

abbrev allocated : Machine
allocated = after (block_alloc busy) busy

abbrev released : Machine
released = after (block_free 2 allocated) allocated

block_free-block_alloc_example :
    IsWell released.bmap
    × HasFree released.bmap
    × ((b : ℕ) → bmap_block_statue_get released.bmap b ≡ bmap_block_statue_get busy.bmap b)
unfolding block_free block_alloc retire advance refocus find_free find_group logged_zero_a_block
    bmap_block_statue_set bmap2blockno logged_read bread buf_data set_data logged_write bpin
    logged_relse brelse mark set_bit find_block bmap_block_statue_get
block_free-block_alloc_example =
    block_free-block_alloc busy {v = 2} bitmap-IsWell bitmap-HasFree refl refl

abbrev mounted : Machine
mounted = after (block_allocator_refresh superblock idle) idle

block_allocator_refresh-current_example : mounted.bmap.first_free_cache ≡ idle.bmap.first_free_cache
unfolding block_allocator_refresh refresh_loop refresh_group begin_op end_op commit logged_read
    logged_relse bread buf_data brelse
block_allocator_refresh-current_example = block_allocator_refresh-current superblock idle refl

scan-IsFirst_example :
    let r = scan bitmap bpb (0 * bpb) 0 minus_one in
    (r.0 ≡ count_set bitmap (0 * bpb) bpb) × IsFirst bitmap 0 r.1
scan-IsFirst_example = scan-IsFirst bitmap 0
