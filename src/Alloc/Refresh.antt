-- ===== src/Alloc/Refresh.antt =====
-- `block_allocator_refresh` of src/block_allocator.c, and the group that `block_alloc` starts with.
use myfuse.Common.{ℕ, zero, suc, ◌+◌, ◌≡◌, refl}
use myfuse.Machine.{Machine, SuperBlock, ok}
use myfuse.Machine.Keeps.{Keeps, IsAbove, keeps, keeps_bind, keeps_pure, keeps_modify}
use myfuse.Log.Op.{begin_op, end_op, logged_read, logged_relse}
use myfuse.Log.Upper.{IsUpper, keeps_begin_op, keeps_end_op, keeps_logged_read, keeps_logged_relse}
use myfuse.Alloc.{refresh_group, refresh_loop, block_allocator_refresh}

abbrev current : Machine → ℕ
current m = m.bmap.first_free_cache

upper : IsUpper current
upper = record {
  above = record { bufs = λ m b. refl; disk = λ m d t. refl };
  log = λ m l. refl;
  wrote = λ m n. refl;
  log_wrote = λ m l n. refl;
}

above : IsAbove current
above = upper.above

read_kept : (b : ℕ) → Keeps current (logged_read b)
read_kept = keeps_logged_read upper

relse_kept : (b : ℕ) → Keeps current (logged_relse b)
relse_kept = keeps_logged_relse upper

begin_kept : Keeps current begin_op
begin_kept = keeps_begin_op upper

end_kept : Keeps current end_op
end_kept = keeps_end_op upper

group_kept : (sb : SuperBlock) (i : ℕ) → Keeps current (refresh_group sb i)
unfolding refresh_group
group_kept sb i = search (keeps, keeps_modify, above, read_kept, relse_kept) depth 24

loop_kept : (sb : SuperBlock) (k i : ℕ) → Keeps current (refresh_loop sb k i)
unfolding refresh_loop
loop_kept sb zero i = keeps_pure tt
loop_kept sb (suc k) i = keeps_bind (group_kept sb i) λ _. loop_kept sb k (i + 1)

-- Whatever the bitmap holds, `block_allocator_refresh` leaves `first_free_cache` as it was (at mount
-- the 0 of `memset`): it does not look for a group with a free block.
pub block_allocator_refresh-current :
    (sb : SuperBlock) (m : Machine) {m' : Machine} {a : Unit {0}}
    → block_allocator_refresh sb m ≡ ok a m'
    → m'.bmap.first_free_cache ≡ m.bmap.first_free_cache
unfolding block_allocator_refresh
block_allocator_refresh-current sb m e = kept_all.kept {m = m} e
  where
    kept_all : Keeps current (block_allocator_refresh sb)
    kept_all = search (keeps, keeps_modify, begin_kept, end_kept, loop_kept) depth 12
