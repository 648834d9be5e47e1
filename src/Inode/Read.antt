-- ===== src/Inode/Read.antt =====
-- `inode_read_nbytes_locked` (src/inode.c) reads the bytes of the file.
use myfuse.Common.{
  ℕ, zero, suc, ◌+◌, ◌-◌, ◌*◌, ◌/◌, ◌%◌, ◌^◌, ◌≤◌, ◌<◌, ◌≡◌, ◌∙◌, refl, sym, ap, true, false, ◌==◌,
  ltb, leb, if◌then◌else◌, arith, inl, inr, Bool-cases, fun_ext,
}
use myfuse.Params.{bsize, maxopblocks, maxfile_size}
use myfuse.Machine.{Machine, ok, pure, Returns, returns, Returns-then, Returns-weaken, ◌>>=◌, ◌>>◌}
use myfuse.Machine.Block.{Block, copy_bytes}
use myfuse.Machine.Buffer.{view, bread, brelse, buf_data}
use myfuse.Log.Op.{logged_read, logged_relse}
use myfuse.Inode.Map.{place}
use myfuse.Inode.Content.{read_block, read_round, read_loop, restart_op_on}
use myfuse.Inode.Walk.{
  is_mapped, walk, Looked, Looked-trans, looked_at, looked_at-Looked, imap2blockno-Looked,
  is_mapped-Looked, walk-Looked,
}

-- The byte of the file at `pos`.
abbrev pub byte : Machine → ℕ → ℕ → ℕ
byte m ip pos = view m (walk m ip (pos / bsize)) (pos % bsize)

-- A file that can be read without a block being allocated or the operation being restarted.
pub record IsReadable (m : Machine) (ip : ℕ) : Type 0 where
  pub free : (b : ℕ) → (m.bufs b).locked ≡ false
  pub calm : m.n_log_wrote < maxopblocks - 5
  pub fits : (m.inodes ip).size ≤ maxfile_size
  pub mapped :
      (pos : ℕ)
      → pos < (m.inodes ip).size
      → is_mapped (view m) (m.inodes ip).addrs (place (pos / bsize)) ≡ true

-- `bytes` with the first `n` replaced by those of `g`
abbrev pub filled : (ℕ → ℕ) → Block → ℕ → Block
filled g bytes n i = if ltb i n then g i else bytes i

-- `n` more of them, from another array
copy_bytes-filled :
    (g : ℕ → ℕ) (bytes src : Block) (to from n : ℕ)
    → ((i : ℕ) → to ≤ i → i < to + n → src (from + (i - to)) ≡ g i)
    → copy_bytes (filled g bytes to) to src from n ≡ filled g bytes (to + n)
unfolding copy_bytes
copy_bytes-filled g bytes src to from n h = fun_ext (λ i. elim (Bool-cases (ltb i to)) [
  | inl before ↦
      let a : leb to i ≡ false = ground arith in
      let b : ltb i (to + n) ≡ true = ground arith in rw (a, before, b) refl
  | inr after ↦
      let a : leb to i ≡ true = ground arith in
      elim (Bool-cases (ltb i (to + n))) [
        | inl inside ↦ rw (a, inside) (h i (ground arith) (ground arith))
        | inr beyond ↦ rw (a, beyond, after) refl
      ]
])

read_at-ok :
    (b : ℕ) (bytes : Block) (to from n : ℕ) (m : Machine)
    → (m.bufs b).locked ≡ false
    → (do logged_read b; d ← buf_data b; logged_relse b; pure (copy_bytes bytes to d from n)) m
      ≡ ok (copy_bytes bytes to (view m b) from n) (looked_at b m)
unfolding logged_read logged_relse bread brelse buf_data
read_at-ok b bytes to from n m free =
    let hit : (b == b) ≡ true = ground arith in rw (free, hit) refl

module _ (m0 : Machine) (ip : ℕ) (ready : IsReadable m0 ip) where
  -- a file block that is mapped is read
  read_block-Looked :
      (bn : ℕ) (bytes : Block) (to from n : ℕ) (m : Machine)
      → bn * bsize < (m0.inodes ip).size
      → Looked m0 m
      → Returns
          (λ d m'. (d ≡ copy_bytes bytes to (view m0 (walk m0 ip bn)) from n) × Looked m0 m')
          (read_block ip bn bytes to from n m)
  unfolding read_block
  read_block-Looked bn bytes to from n m low looked =
      let free = λ (b : ℕ). looked.locks b ∙ ready.free b in
      let wrote : m.n_log_wrote ≡ m0.n_log_wrote =
        ap (λ (x : Machine). x.n_log_wrote) looked.same in
      let div : bn * bsize / bsize ≡ bn = omega arith in
      let there = ready.mapped (bn * bsize) low in
      let mapped = is_mapped-Looked looked ip (place bn) ∙ (rw div at there) in
      Returns-then
        (imap2blockno-Looked m ip free (omega (arith, wrote, ready.calm)) bn
          (omega (arith, ready.fits, low)) mapped)
        (λ b m1 (e, looked1).
          let looked' = Looked-trans looked looked1 in
          let free' = looked'.locks b ∙ ready.free b in
          rw (read_at-ok b bytes to from n m1 free') (
            returns (
              ap (λ v. copy_bytes bytes to (v b) from n) looked'.seen
                  ∙ ap (λ b. copy_bytes bytes to (view m0 b) from n) (e ∙ walk-Looked looked ip bn),
              Looked-trans looked' (looked_at-Looked b m1 free'),
            )))

  -- block `bn` has the bytes from `off + to` on
  block_bytes :
      (off to bn from n i : ℕ)
      → off + to ≡ bn * bsize + from
      → from + n ≤ bsize
      → to ≤ i
      → i < to + n
      → view m0 (walk m0 ip bn) (from + (i - to)) ≡ byte m0 ip (off + i)
  block_bytes off to bn from n i at fits low high =
      let q : (off + i) / bsize ≡ bn = omega (arith, at) in
      let r : (off + i) % bsize ≡ from + (i - to) = omega (arith, at) in
      ap (λ b. view m0 (walk m0 ip b) (from + (i - to))) (sym q)
      ∙ ap (λ j. view m0 (walk m0 ip ((off + i) / bsize)) j) (sym r)

  -- Buffer `bytes` filled to `to`; `n` bytes more are read.
  pub read_block-filled :
      (off to bn from n : ℕ) (bytes : Block) (m : Machine)
      → off + to ≡ bn * bsize + from
      → from + n ≤ bsize
      → bn * bsize < (m0.inodes ip).size
      → Looked m0 m
      → Returns
          (λ d m'. (d ≡ filled (λ i. byte m0 ip (off + i)) bytes (to + n)) × Looked m0 m')
          (read_block ip bn (filled (λ i. byte m0 ip (off + i)) bytes to) to from n m)
  read_block-filled off to bn from n bytes m at fits low looked =
      Returns-weaken (read_block-Looked bn _ to from n m low looked) (λ d m' (e, looked'). (
        e
            ∙ copy_bytes-filled (λ i. byte m0 ip (off + i)) bytes _ to from n
                (λ i a b. block_bytes off to bn from n i at fits a b),
        looked',
      ))

  -- no restart
  restart_op_on-calm :
      (k : ℕ) (m : Machine) → maxopblocks - 4 ≤ k → Looked m0 m → restart_op_on ip k m ≡ ok tt m
  unfolding restart_op_on
  restart_op_on-calm k m many looked =
      let wrote : m.n_log_wrote ≡ m0.n_log_wrote =
        ap (λ (x : Machine). x.n_log_wrote) looked.same in
      let calm = ready.calm in
      let stay : leb (k - 1) m.n_log_wrote ≡ false = ground arith in rw stay refl

  module _ (off : ℕ) (bytes : Block) where
    -- Where the loop is: the buffer, its length so far, the block to read next, and what is left.
    pub record IsAt (to_end : ℕ) (r : Block × ℕ × ℕ × ℕ) : Type 0 where
      pub buffer : r.0 ≡ filled (λ i. byte m0 ip (off + i)) bytes r.1
      pub block : off + r.1 ≡ r.2 * bsize
      pub total : r.1 + r.3 ≡ to_end
      pub some : 0 < r.3
      pub within : off + to_end ≤ (m0.inodes ip).size

    pub read_loop-IsAt :
        (fuel to_end to bn nbytes : ℕ) (d : Block) (m : Machine)
        → nbytes ≤ (fuel + 1) * bsize
        → IsAt to_end (d, to, bn, nbytes)
        → Looked m0 m
        → Returns
            (λ r m'. IsAt to_end r × (r.3 ≤ bsize) × Looked m0 m')
            (read_loop fuel ip d to bn nbytes m)
    unfolding read_loop read_round
    read_loop-IsAt zero to_end to bn nbytes d m enough at looked =
        returns (at, omega (arith, enough), looked)
    read_loop-IsAt (suc fuel) to_end to bn nbytes d m enough at looked =
        elim (Bool-cases (ltb bsize nbytes)) [
          | inr last ↦ rw last (returns (at, ground arith, looked))
          | inl more ↦
              let long : bsize < nbytes = ground arith in
              let block = at.block in
              let total = at.total in
              let within = at.within in
              let low : bn * bsize < (m0.inodes ip).size =
                omega (arith, block, total, within, long) in
              let fits = ready.fits in
              let next : (bn + 1) % 2 ^ 32 ≡ bn + 1 = omega (arith, low, fits) in
              rw
                (
                  more,
                  restart_op_on-calm (maxopblocks - 1 - 3) m (omega arith) looked,
                  next,
                  at.buffer,
                )
                (Returns-then
                  (read_block-filled off to bn 0 bsize bytes m (omega (arith, block)) (omega arith)
                    low looked)
                  (λ d' m1 (e, looked1).
                    read_loop-IsAt fuel to_end (to + bsize) (bn + 1) (nbytes - bsize) d' m1
                      (omega (arith, enough, long))
                      (record {
                        buffer = e;
                        block = omega (arith, block);
                        total = omega (arith, total, long);
                        some = omega (arith, long);
                        within = within;
                      })
                      looked1))
        ]

    -- the last part of a block
    pub read_last-filled :
        (to_end to bn left : ℕ) (d : Block) (m : Machine)
        → IsAt to_end (d, to, bn, left)
        → left ≤ bsize
        → Looked m0 m
        → Returns
            (λ d' m'. (d' ≡ filled (λ i. byte m0 ip (off + i)) bytes to_end) × Looked m0 m')
            ((if left == 0
                then pure d
                else (do restart_op_on ip (maxopblocks - 1 - 3); read_block ip bn d to 0 left))
              m)
    read_last-filled to_end to bn left d m at small looked =
        let block = at.block in
        let total = at.total in
        let within = at.within in
        let some = at.some in
        let go : (left == 0) ≡ false = ground arith in
        let e = total in
        rw (go, restart_op_on-calm (maxopblocks - 1 - 3) m (omega arith) looked, at.buffer, ← e)
          (read_block-filled off to bn 0 left bytes m (omega (arith, block)) (omega (arith, small))
            (omega (arith, block, total, within, some)) looked)
