-- ===== src/Inode/Rewrite.antt =====
-- `inode_write_nbytes_locked` (src/inode.c) as a whole, and the read that follows it.

use myfuse.Common.{
  ℕ, ◌+◌, ◌-◌, ◌/◌, ◌%◌, ◌^◌, ◌≤◌, ◌<◌, ◌≡◌, refl, sym, ap, false, ltb, leb, if◌then◌else◌, arith,
  inl, inr, Bool-cases,
}
use myfuse.Params.{bsize, nlog, maxopblocks, maxfile_size}
use myfuse.Machine.{Machine, pure, Returns, returns, Returns-then, ◌>>◌}
use myfuse.Machine.Block.{Block}
use myfuse.Inode.Table.{iupdate}
use myfuse.Inode.Content.{min, clip, touch, inode_write_nbytes_locked}
use myfuse.Inode.Read.{byte}
use myfuse.Inode.ReadFile.{min_lem}
use myfuse.Inode.Logging.{Logging-refl}
use myfuse.Inode.Overwritten.{overwritten, overwritten-zero}
use myfuse.Inode.Separate.{IsSeparate}
use myfuse.Inode.Writing.{Writing, Writing-weaken, edit-Writing}
use myfuse.Inode.Stamping.{IsStored, iupdate-Writing}
use myfuse.Inode.WriteBlock.{write_block-Writing}
use myfuse.Inode.WriteFile.{restart_op_on-calm, write_loop-Writing, write_last-Writing}

-- No buffer is held, and the log and the operation have room for `k` writes.
pub record HasRoomFor (k : ℕ) (m : Machine) : Type 0 where
  pub free : (b : ℕ) → (m.bufs b).locked ≡ false
  pub entries : m.log.n + k ≤ nlog
  pub room : m.log.n + k < m.log.size
  pub small : m.log.size < 2 ^ 31
  pub inside : 0 < m.log.outstanding
  pub sane : m.log.outstanding < 2 ^ 31
  pub calm : m.n_log_wrote + k < maxopblocks - 5

clip_short :
    (off nbytes limit : ℕ) → off + nbytes ≤ limit → limit < 2 ^ 64 → clip off nbytes limit ≡ nbytes
unfolding clip
clip_short off nbytes limit fits word =
    let e : (off + nbytes) % 2 ^ 64 ≡ off + nbytes = omega arith in
    let short : ltb limit (off + nbytes) ≡ false = ground arith in rw (e, short) refl

-- the size after a write that ends at `end`
abbrev pub grown : ℕ → ℕ → ℕ
grown size end = if ltb size end then end else size

module _ (m0 : Machine) (ip lim : ℕ) (separate : IsSeparate m0 ip lim) where
  start-Writing :
      (k off : ℕ) (bytes : Block)
      → HasRoomFor k m0
      → Writing m0 ip lim separate (overwritten (byte m0 ip) off bytes 0) (m0.inodes ip).size k m0
  start-Writing k off bytes room = record {
    addrs = refl;
    inum = refl;
    sb = refl;
    size = refl;
    free = room.free;
    elsewhere = λ b. inr (inr refl);
    bytes = λ pos low. sym (ap (λ f. f pos) (overwritten-zero (byte m0 ip) off bytes));
    entries = room.entries;
    room = room.room;
    small = room.small;
    inside = room.inside;
    sane = room.sane;
    calm = room.calm;
    logging = Logging-refl;
  }

  -- `touch` and `iupdate`, with which a write ends
  finish-Writing :
      {g : ℕ → ℕ} {s k : ℕ} {m : Machine} (n : ℕ)
      → Writing m0 ip lim separate g s (k + 1) m
      → Returns
          (λ r m'. (r ≡ n) × Writing m0 ip lim separate g s k m' × IsStored m0 ip s m')
          ((touch ip >> (iupdate ip >> pure n)) m)
  finish-Writing {s} {m} n w =
      Returns-then
        (iupdate-Writing m0 ip lim separate (
          edit-Writing m0 ip lim separate (λ n. record n { atime = m.now; mtime = m.now }) s
            (λ n. (refl, refl)) w.size w))
        (λ _ m' (w', stored). returns (refl, w', stored))

  pub inode_write_nbytes_locked-Writing :
      (bytes : Block) (nbytes off k : ℕ)
      → 0 < nbytes
      → off + nbytes ≤ lim
      → HasRoomFor (k + 1 + 1 + nbytes / bsize + 1 + 1) m0
      → Returns
          (λ r m'.
            (r ≡ nbytes)
            × Writing m0 ip lim separate
                (overwritten (byte m0 ip) off bytes nbytes)
                (grown (m0.inodes ip).size (off + nbytes))
                k
                m'
            × IsStored m0 ip (grown (m0.inodes ip).size (off + nbytes)) m')
          (inode_write_nbytes_locked ip bytes nbytes off m0)
  unfolding inode_write_nbytes_locked
  inode_write_nbytes_locked-Writing bytes nbytes off k some within room =
      let g = byte m0 ip in
      let size = (m0.inodes ip).size in
      let end = off + nbytes in
      let rounds = nbytes / bsize in
      let fits = separate.fits in
      let inside : ltb maxfile_size off ≡ false = ground (arith, within, fits) in
      let cut : clip off nbytes maxfile_size ≡ nbytes =
        clip_short off nbytes maxfile_size (omega (arith, within, fits)) (omega arith) in
      let word : (off + nbytes) % 2 ^ 64 ≡ off + nbytes = omega (arith, within, fits) in
      let word' : off / bsize % 2 ^ 32 ≡ off / bsize = omega (arith, within, fits, some) in
      let n_left = bsize - off % bsize in
      let (f_low, f_high, f_is) = min_lem n_left nbytes in
      let w0 =
        edit-Writing m0 ip lim separate (λ n. record n { size = grown n.size end }) (grown size end)
          (λ n. (refl, refl)) refl (start-Writing (k + 1 + 1 + rounds + 1 + 1) off bytes room) in
      rw (inside, cut, word, word')
        (Returns-then (iupdate-Writing m0 ip lim separate w0) (λ _ m1 (w1, _).
          rw
            (restart_op_on-calm m0 ip lim separate (k + 1 + 1 + rounds) (maxopblocks - 1 - 3 - 1)
              (omega arith) w1)
            (Returns-then
              (write_block-Writing m0 ip lim separate g bytes off 0 (off / bsize) (off % bsize)
                (min n_left nbytes) w1 (omega arith) (omega (arith, f_low))
                (omega (arith, within, some)))
              (λ _ m2 w2. elim (Bool-cases (leb nbytes n_left)) [
                | inl one ↦
                    let whole : 0 + min n_left nbytes ≡ nbytes =
                      ground (arith, one, f_low, f_high, f_is) in
                    let w3 = rw whole at w2 in
                    rw one (
                      finish-Writing nbytes (
                        Writing-weaken m0 ip lim separate (k + 1 + 1 + rounds) (k + 1) (omega arith)
                          w3))
                | inr many ↦
                    let long : n_left < nbytes = ground (arith, many) in
                    let part : 0 + min n_left nbytes ≡ n_left =
                      ground (arith, many, f_low, f_high, f_is) in
                    let next : (off / bsize + 1) % 2 ^ 32 ≡ off / bsize + 1 =
                      omega (arith, within, fits) in
                    let w3 = rw part at w2 in
                    rw (many, next)
                      (Returns-then
                        (write_loop-Writing m0 ip lim separate g (grown size end) off nbytes bytes
                          within rounds (k + 1 + 1) n_left (off / bsize + 1) (nbytes - n_left) m2
                          (omega arith)
                          (record {
                            block = omega arith;
                            sum = omega (arith, long);
                            some = omega (arith, long);
                          })
                          w3)
                        (λ r m3 (at, small, w4).
                          rw
                            (restart_op_on-calm m0 ip lim separate (k + 1) (maxopblocks - 3 - 1)
                              (omega arith) w4)
                            (Returns-then
                              (write_last-Writing m0 ip lim separate g (grown size end) off nbytes
                                bytes within (k + 1) r.0 r.1 r.2 m3 at small w4)
                              (λ _ m4 w5. finish-Writing nbytes w5))))
              ]))))
