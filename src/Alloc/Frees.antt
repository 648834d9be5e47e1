-- ===== src/Alloc/Frees.antt =====
-- When `block_free` of src/block_allocator.c returns, and what it undoes.
use myfuse.Common.{
  ℕ, ◌/◌, ◌<◌, ◌≡◌, sym, ap, ◌∙◌, false, true, arith, ◌==◌, if◌then◌else◌, add32, inl, inr,
  Bool-cases,
}
use myfuse.Params.{bpb}
use myfuse.Machine.{Machine, ok, Returns, returns, Returns-then, Returns-weaken, Returns-run}
use myfuse.Log.Edited.{HasRoomFor}
use myfuse.Alloc.{bmap_block_statue_get, block_alloc, block_free}
use myfuse.Alloc.Retire.{IsWell, HasFree}
use myfuse.Alloc.Take.{Took, block_alloc-Took}
use myfuse.Alloc.Give.{Gave, block_free-Gave}
use myfuse.Alloc.Runs.{statue_set-Edited}

-- `block_free` returns for an allocated block of the device, on a cache that is right, in an
-- operation, with room in the log for one block and the buffer of the bitmap block not held. It
-- clears the bit of that block and no other one; the counts and the first free blocks of all groups
-- are right again, and `first_free_cache` is a group with a free block.
pub block_free-Returns :
    (b : ℕ) (m : Machine)
    → IsWell m.bmap
    → b / bpb < m.bmap.n_cache
    → bmap_block_statue_get m.bmap b ≡ 1
    → HasRoomFor 1 m
    → (m.bufs (add32 (b / bpb) m.sb.bmapstart)).locked ≡ false
    → Returns (λ _ m'. Gave m.bmap b m'.bmap) (block_free b m)
unfolding block_free
block_free-Returns b m well inside taken room unlocked =
    Returns-weaken (Returns-run runs) λ _ m' r. block_free-Gave b m well taken r.1
  where
    runs : Returns (λ _ _. Unit {0}) (block_free b m)
    runs = Returns-then (statue_set-Edited 0 b 0 m room inside unlocked) λ _ m1 e. returns tt

-- On a cache that is right, whose `first_free_cache` is a group with a free block, let `block_alloc` return a block and `block_free` of that block return: afterwards every
-- block's bit is what it was before the two calls, and the cache is right again and has a group with
-- a free block.
pub block_free-block_alloc :
    (m : Machine) {m1 m2 : Machine} {v : ℕ} {a : Unit {0}}
    → IsWell m.bmap
    → HasFree m.bmap
    → block_alloc m ≡ ok v m1
    → block_free v m1 ≡ ok a m2
    → IsWell m2.bmap
      × HasFree m2.bmap
      × ((b : ℕ) → bmap_block_statue_get m2.bmap b ≡ bmap_block_statue_get m.bmap b)
block_free-block_alloc m {m1} {m2} {v} well free alloc release =
    let took = block_alloc-Took m well free alloc in
    let self : (v == v) ≡ true = ground arith in
    let taken : bmap_block_statue_get m1.bmap v ≡ 1 = took.taken v ∙ rw self in
    let gave = block_free-Gave v m1 took.well taken release in
    (gave.well, gave.more, λ b. gave.given b ∙ back took b)
  where
    back :
        Took m.bmap v m1.bmap
        → (b : ℕ)
        → (if v == b then 0 else bmap_block_statue_get m1.bmap b) ≡ bmap_block_statue_get m.bmap b
    back took b = elim (Bool-cases (v == b)) [
      | inl is ↦
          let e : v ≡ b = ground arith in
          rw is (sym took.was_free ∙ ap (bmap_block_statue_get m.bmap) e)
      | inr not_is ↦ rw not_is (took.taken b ∙ rw not_is)
    ]
