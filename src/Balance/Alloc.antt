-- ===== src/Balance/Alloc.antt =====
-- The block allocator (src/block_allocator.c) leaves the count of operations under way alone.
use myfuse.Common.{ℕ, Option, none, some}
use myfuse.Machine.Keeps.{Keeps, keeps, keeps_modify}
use myfuse.Alloc.{
  bmap_block_statue_set, logged_zero_a_block, refocus, advance, retire, block_alloc, block_free,
}
use myfuse.Balance.Log.{held, off_bufs, read_kept, write_kept, relse_kept}

pub set_kept : (b i : ℕ) → Keeps held (bmap_block_statue_set b i)
unfolding bmap_block_statue_set
set_kept b i = search (keeps, keeps_modify, off_bufs, read_kept, write_kept, relse_kept) depth 20

zero_kept : (b : ℕ) → Keeps held (logged_zero_a_block b)
unfolding logged_zero_a_block
zero_kept b = search (keeps, off_bufs, read_kept, write_kept, relse_kept) depth 20

refocus_kept : (g : Option ℕ) → Keeps held (refocus g)
unfolding refocus
refocus_kept none = search (keeps, keeps_modify)
refocus_kept (some i) = search (keeps, keeps_modify)

advance_kept : (g : ℕ) (i : Option ℕ) → Keeps held (advance g i)
unfolding advance
advance_kept g none = search keeps
advance_kept g (some i) = search (keeps, keeps_modify)

retire_kept : (g first : ℕ) → Keeps held (retire g first)
unfolding retire
retire_kept g first = search (keeps, keeps_modify, refocus_kept, advance_kept) depth 20

pub alloc_kept : Keeps held block_alloc
unfolding block_alloc
alloc_kept = search (keeps, set_kept, retire_kept, zero_kept) depth 20

pub free_kept : (b : ℕ) → Keeps held (block_free b)
unfolding block_free
free_kept b = search (keeps, keeps_modify, set_kept) depth 20
