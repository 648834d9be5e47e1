-- ===== src/Inode/WriteFile.antt =====
-- `inode_write_nbytes_locked` (src/inode.c) overwrites the bytes of a file whose blocks are mapped.

use myfuse.Common.{
  ℕ, zero, suc, ◌+◌, ◌-◌, ◌*◌, ◌%◌, ◌^◌, ◌≤◌, ◌<◌, ◌≡◌, refl, false, ◌==◌, ltb, leb, if◌then◌else◌,
  arith, inl, inr, Bool-cases,
}
use myfuse.Params.{bsize, maxopblocks}
use myfuse.Machine.{Machine, ok, pure, Returns, returns, Returns-then}
use myfuse.Machine.Block.{Block}
use myfuse.Inode.Content.{write_block, write_loop, restart_op_on}
use myfuse.Inode.Overwritten.{overwritten}
use myfuse.Inode.Separate.{IsSeparate}
use myfuse.Inode.Writing.{Writing, Writing-weaken}
use myfuse.Inode.WriteBlock.{write_block-Writing}

module _ (m0 : Machine) (ip lim : ℕ) (separate : IsSeparate m0 ip lim) where
  -- no restart
  pub restart_op_on-calm :
      {g : ℕ → ℕ} {s : ℕ} {m : Machine} (k limit : ℕ)
      → maxopblocks - 5 ≤ limit
      → Writing m0 ip lim separate g s (k + 1) m
      → restart_op_on ip limit m ≡ ok tt m
  unfolding restart_op_on
  restart_op_on-calm {m} k limit many w =
      let calm = w.calm in
      let stay : leb (limit - 1) m.n_log_wrote ≡ false = ground (arith, calm, many) in rw stay refl

  module _ (g : ℕ → ℕ) (s off total : ℕ) (bytes : Block) (within : off + total ≤ lim) where
    -- Where the loop is: the bytes written, the block to write next, and what is left.
    pub record IsAt (r : ℕ × ℕ × ℕ) : Type 0 where
      pub block : off + r.0 ≡ r.1 * bsize
      pub sum : r.0 + r.2 ≡ total
      pub some : 0 < r.2

    pub write_loop-Writing :
        (fuel k from bn nbytes : ℕ) (m : Machine)
        → nbytes ≤ (fuel + 1) * bsize
        → IsAt (from, bn, nbytes)
        → Writing m0 ip lim separate (overwritten g off bytes from) s (k + fuel) m
        → Returns
            (λ r m'.
              IsAt r
              × (r.2 ≤ bsize)
              × Writing m0 ip lim separate (overwritten g off bytes r.0) s k m')
            (write_loop fuel ip bytes from bn nbytes m)
    unfolding write_loop
    write_loop-Writing zero k from bn nbytes m enough at w =
        returns
          (at, omega (arith, enough), Writing-weaken m0 ip lim separate (k + 0) k (omega arith) w)
    write_loop-Writing (suc fuel) k from bn nbytes m enough at w =
        elim (Bool-cases (ltb bsize nbytes)) [
          | inr last ↦ rw last (
              returns (
                at,
                ground (arith, last),
                Writing-weaken m0 ip lim separate (k + suc fuel) k (omega arith) w,
              ))
          | inl more ↦
              let long : bsize < nbytes = ground (arith, more) in
              let block = at.block in
              let sum = at.sum in
              let fits = separate.fits in
              let low : bn * bsize < lim = omega (arith, block, sum, within, long) in
              let next : (bn + 1) % 2 ^ 32 ≡ bn + 1 = omega (arith, low, fits) in
              let w' =
                Writing-weaken m0 ip lim separate (k + suc fuel) (k + fuel + 1) (omega arith) w in
              rw
                (
                  more,
                  restart_op_on-calm (k + fuel) (maxopblocks - 1 - 3 - 1) (omega arith) w',
                  next,
                )
                (Returns-then
                  (write_block-Writing m0 ip lim separate g bytes off from bn 0 bsize w'
                    (omega (arith, block)) (omega arith) low)
                  (λ _ m1 w1.
                    write_loop-Writing fuel k (from + bsize) (bn + 1) (nbytes - bsize) m1
                      (omega (arith, enough, long))
                      (record {
                        block = omega (arith, block);
                        sum = omega (arith, sum, long);
                        some = omega (arith, long);
                      })
                      w1))
        ]

    -- the last block
    pub write_last-Writing :
        (k from bn left : ℕ) (m : Machine)
        → IsAt (from, bn, left)
        → left ≤ bsize
        → Writing m0 ip lim separate (overwritten g off bytes from) s (k + 1) m
        → Returns
            (λ _ m'. Writing m0 ip lim separate (overwritten g off bytes total) s k m')
            ((if left == 0 then pure tt else write_block ip bn bytes from 0 left) m)
    write_last-Writing k from bn left m at small w =
        let block = at.block in
        let sum = at.sum in
        let some = at.some in
        let go : (left == 0) ≡ false = ground (arith, some) in
        let low : bn * bsize < lim = omega (arith, block, sum, within, some) in
        rw (go, ← sum)
          (write_block-Writing m0 ip lim separate g bytes off from bn 0 left w
            (omega (arith, block)) (omega (arith, small)) low)
