-- ===== src/Inode/Durable.antt =====
-- A write to a file (`inode_write_nbytes_locked`, src/inode.c) that ends its operation (`end_op`,
-- src/log.c) is on the disk; a crash leaves all of it or none of it.
use myfuse.Common.{
  ℕ, ◌+◌, ◌/◌, ◌%◌, ◌≤◌, ◌<◌, ◌≡◌, ◌⊎◌, ◌∙◌, refl, sym, ap, inl, inr, Bool-cases, arith, ltb,
}
use myfuse.Params.{bsize}
use myfuse.Machine.{Machine, Inode, Returns, returns, Returns-then, ◌>>=◌, ◌>>◌, pure}
use myfuse.Machine.Block.{Block, get32}
use myfuse.Machine.Buffer.{view}
use myfuse.Log.Op.{end_op}
use myfuse.Log.Loops.{Outside}
use myfuse.Log.Crash.{committed}
use myfuse.Inode.Layout.{dinode_off, load}
use myfuse.Inode.Bytes.{limit}
use myfuse.Inode.Stamping.{IsStored}
use myfuse.Inode.Update.{home}
use myfuse.Inode.Content.{inode_write_nbytes_locked}
use myfuse.Inode.Walk.{walk}
use myfuse.Inode.Read.{byte}
use myfuse.Inode.Overwritten.{overwritten}
use myfuse.Inode.Separate.{IsSeparate}
use myfuse.Inode.Logging.{Touched}
use myfuse.Inode.Writing.{Writing}
use myfuse.Inode.Rewrite.{HasRoomFor, grown, inode_write_nbytes_locked-Writing}
use mathlib.Core.Path.{subst}
use myfuse.Common.{◌++◌}
use myfuse.Machine.{FsLog, SuperBlock, ok, of_returns, Returns-weaken}
use myfuse.Machine.Effect.{Writes, apply_writes}
use myfuse.Log.Commit.{log_init}
use myfuse.Log.Atomic.{Boots, nothing, all, append_cancel}
use myfuse.Inode.Alone.{IsAlone, IsStored-load, committed-view, Writing-Ended}

-- The block is one of the log.
abbrev pub Inside : FsLog → ℕ → Type 0
Inside log b = (log.start ≤ b) × (b < log.start + log.size)

Inside-or-Outside : (log : FsLog) (b : ℕ) → Inside log b ⊎ Outside log b
Inside-or-Outside log b = elim (Bool-cases (ltb b log.start)) [
  | inl below ↦ inr (inl (ground arith))
  | inr up ↦ elim (Bool-cases (ltb b (log.start + log.size))) [
    | inl here ↦ inl (ground arith, ground arith)
    | inr above ↦ inr (inr (ground arith))
  ]
]

-- The blocks `d` have the file as after the write of `nbytes` bytes at `off`: its bytes up to `lim`,
-- its size and its addresses, and elsewhere outside the log what was shown before.
pub record IsWritten (m0 : Machine) (ip lim : ℕ) (bytes : Block) (nbytes off : ℕ) (d : ℕ → Block)
    : Type 0 where
  pub content :
      (pos : ℕ)
      → (lim ≤ pos)
        ⊎ (d (walk m0 ip (pos / bsize)) (pos % bsize)
            ≡ overwritten (byte m0 ip) off bytes nbytes pos)
  pub inode :
      (old : Inode)
      → let n = load (d (home ip m0)) (dinode_off (m0.inodes ip).inum) old in
        (n.size ≡ grown (m0.inodes ip).size (off + nbytes)) × (n.addrs ≡ (m0.inodes ip).addrs)
  pub others : (b : ℕ) → Inside m0.log b ⊎ Touched m0 ip lim b ⊎ (d b ≡ view m0 b)

-- The count is returned, the log is empty, the disk has the file, and had a crash come at any of the
-- writes, `log_init` would find the disk of before or the file.
record IsDurable (m0 : Machine) (ip lim : ℕ) (bytes : Block) (nbytes off r : ℕ) (m' : Machine)
    : Type 0 where
  pub result : r ≡ nbytes
  pub empty : m'.log.n ≡ 0
  pub header : get32 (m'.disk m0.log.start) 0 ≡ 0
  pub disk : IsWritten m0 ip lim bytes nbytes off m'.disk
  pub made : Writes
  pub trace : m'.trace ≡ m0.trace ++ made
  pub crash :
      {sb : SuperBlock} {mb : Machine} (p q : Writes)
      → p ++ q ≡ made
      → Boots m0.log sb mb
      → mb.disk ≡ apply_writes p m0.disk
      → Returns
          (λ _ m''.
            ((b : ℕ) → Inside m0.log b ⊎ (m''.disk b ≡ m0.disk b))
            ⊎ IsWritten m0 ip lim bytes nbytes off m''.disk)
          (log_init sb mb)

module _ (m0 : Machine) (ip lim : ℕ) (separate : IsSeparate m0 ip lim) (alone : IsAlone m0 ip lim)
    (bytes : Block) (nbytes off : ℕ) (some : 0 < nbytes) (within : off + nbytes ≤ lim)
    (room : HasRoomFor (nbytes / bsize + 4) m0) where
  Writing-IsWritten :
      {k : ℕ} {m : Machine} {d : ℕ → Block}
      → Writing m0 ip lim separate
          (overwritten (byte m0 ip) off bytes nbytes)
          (grown (m0.inodes ip).size (off + nbytes))
          k
          m
      → IsStored m0 ip (grown (m0.inodes ip).size (off + nbytes)) m
      → ((b : ℕ) → Outside m0.log b → d b ≡ view m b)
      → IsWritten m0 ip lim bytes nbytes off d
  Writing-IsWritten w stored shown =
      let fits = separate.fits in
      let size = alone.size in
      let small : grown (m0.inodes ip).size (off + nbytes) < limit 8 =
        ground (arith, size, within, fits) in
      record {
        content = λ pos. elim (Bool-cases (ltb pos lim)) [
          | inl low ↦
              let less : pos < lim = ground arith in
              inr (
                ap (λ d. d (pos % bsize)) (shown _ (alone.touched _ (inr (pos, less, refl))).0)
                ∙ w.bytes pos less)
          | inr beyond ↦ inl (ground arith)
        ];
        inode =
            IsStored-load m0 ip lim separate alone stored small
              (shown _ (alone.touched _ (inl refl)).0);
        others = λ b. elim (Inside-or-Outside m0.log b) [
          | inl inside ↦ inl inside
          | inr o ↦ elim (w.elsewhere b) [
            | inl at_home ↦ inr (inl (inl at_home))
            | inr (inl hit) ↦ inr (inl (inr hit))
            | inr (inr kept) ↦ inr (inr (shown b o ∙ kept))
          ]
        ];
      }

  write-IsDurable :
      Returns
        (IsDurable m0 ip lim bytes nbytes off)
        ((do r ← inode_write_nbytes_locked ip bytes nbytes off; end_op; pure r) m0)
  write-IsDurable =
      let e : nbytes / bsize + 4 ≡ 0 + 1 + 1 + nbytes / bsize + 1 + 1 = omega arith in
      Returns-then
        (inode_write_nbytes_locked-Writing m0 ip lim separate bytes nbytes off 0 some within
          (rw e at room))
        (λ r m (result, w, stored).
          Returns-then (Writing-Ended m0 ip lim separate alone w) (λ _ m' end.
            let l = w.logging in
            let written : (d : ℕ → Block)
                → ((b : ℕ) → Outside m.log b → d b ≡ committed m b)
                → IsWritten m0 ip lim bytes nbytes off d =
              λ d same. Writing-IsWritten w stored (λ b o.
                same b (rw (l.start, l.size) o) ∙ committed-view m0 ip lim separate alone l b) in
            returns (record {
              result = result;
              empty = end.empty;
              header = ap (λ a. get32 (m'.disk a) 0) (sym l.start) ∙ end.clean.count;
              disk = written m'.disk end.clean.same;
              made = end.made;
              trace = end.trace ∙ ap (λ t. t ++ end.made) l.trace;
              crash = λ {sb} {mb} p q e boots disk.
                  Returns-weaken
                    (end.crash p q e
                      (record {
                        fresh = boots.fresh;
                        start = boots.start ∙ sym l.start;
                        size = boots.size ∙ sym l.size;
                      })
                      (disk ∙ ap (apply_writes p) (sym l.disk)))
                    (λ _ m'' found. elim found [
                      | nothing h ↦ inl (λ b. elim (Inside-or-Outside m0.log b) [
                        | inl inside ↦ inl inside
                        | inr o ↦ inr (h b (rw (l.start, l.size) o) ∙ ap (λ d. d b) l.disk)
                      ])
                      | all h ↦ inr (written m''.disk h)
                    ]);
            })))

  -- `inode_write_nbytes_locked` of at least one byte, with `end_op` after it, returns the count, when
  -- the operation is the only one, the log's header on the disk lists nothing, each block that is not
  -- logged shows what the disk has, the blocks of the log's entries, of the file and of its inode are
  -- outside the log, these numbers and the log fit in 32 bits, and the inode's size and addresses in a
  -- dinode; the bytes of the file up to `lim` are mapped by blocks that are apart (each is one block
  -- of the file, no indirect block of it, and not the block of the inode), the write ends at `lim` at
  -- most, no buffer is held, and the log and the operation have room for four writes more than there
  -- are whole blocks in the count. The log is then empty, in memory and in its header on the disk. Of
  -- the file's bytes up to `lim`, the disk has the array's where they were written and the old ones
  -- elsewhere. From the inode's block on the disk any slot is loaded with the file's addresses and its
  -- size, which is the end of the write, if that is larger. The blocks outside the log that are not
  -- the inode's and hold no byte of the file below `lim` have on the disk what they showed before.
  pub end_op-inode_write_nbytes_locked :
      Returns
        (λ r m'.
          (r ≡ nbytes)
          × (m'.log.n ≡ 0)
          × (get32 (m'.disk m0.log.start) 0 ≡ 0)
          × IsWritten m0 ip lim bytes nbytes off m'.disk)
        ((do r ← inode_write_nbytes_locked ip bytes nbytes off; end_op; pure r) m0)
  end_op-inode_write_nbytes_locked =
      Returns-weaken write-IsDurable
        (λ r m' done. (done.result, done.empty, done.header, done.disk))

  -- Under the conditions of `end_op-inode_write_nbytes_locked` the two calls are atomic. The disk
  -- is cut off after any prefix `p` of the writes that they made, and a new process with an empty
  -- cache finds that disk. Then `log_init` returns, and the disk outside the log is all as before
  -- the two calls, or the file is on it as they leave it: its bytes up to `lim`, its size and its
  -- addresses, with the other blocks outside the log as they were shown before.
  pub end_op-inode_write_nbytes_locked_atomic :
      {r : ℕ} {m' : Machine} {sb : SuperBlock} {mb : Machine} (p q : Writes)
      → (do r ← inode_write_nbytes_locked ip bytes nbytes off; end_op; pure r) m0 ≡ ok r m'
      → m'.trace ≡ m0.trace ++ (p ++ q)
      → Boots m0.log sb mb
      → mb.disk ≡ apply_writes p m0.disk
      → Returns
          (λ _ m''.
            ((b : ℕ) → Inside m0.log b ⊎ (m''.disk b ≡ m0.disk b))
            ⊎ IsWritten m0 ip lim bytes nbytes off m''.disk)
          (log_init sb mb)
  end_op-inode_write_nbytes_locked_atomic {r} {m'} p q run cut boots disk =
      let done : IsDurable m0 ip lim bytes nbytes off r m' =
        of_returns (subst (Returns (IsDurable m0 ip lim bytes nbytes off)) run write-IsDurable) in
      done.crash p q (append_cancel m0.trace (sym cut ∙ done.trace)) boots disk
