-- ===== src/Inode/Alone.antt =====
-- The log and the disk while one operation writes to a file, and at its `end_op` (src/log.c,
-- src/inode.c).
use myfuse.Common.{
  ℕ, ◌+◌, ◌^◌, ◌≤◌, ◌<◌, ◌≡◌, ◌∙◌, refl, sym, ap, true, false, inl, inr, Bool-cases, arith,
}
use myfuse.Machine.{Machine, Inode, Returns}
use myfuse.Machine.Block.{Block, get32}
use myfuse.Machine.Buffer.{view}
use myfuse.Log.Op.{end_op}
use myfuse.Log.Ended.{named_self, Ended, end_op-Ended}
use myfuse.Log.Write.{is_logged}
use myfuse.Log.Loops.{Outside}
use myfuse.Log.Committing.{Ready}
use myfuse.Log.Crash.{committed}
use myfuse.Inode.Layout.{dinode_off, nblockaddr, load}
use myfuse.Inode.Bytes.{limit}
use myfuse.Inode.Stored.{size-store, addrs-store}
use myfuse.Inode.Stamping.{IsStored}
use myfuse.Inode.Update.{home}
use myfuse.Inode.Separate.{IsSeparate}
use myfuse.Inode.Logging.{Touched, Logging}
use myfuse.Inode.Writing.{Writing}

-- One operation is under way and none is committing; the header on the disk lists nothing; each
-- block that is not logged shows what the disk has; the blocks of the log's entries, of the file and
-- of its inode are outside the log; these numbers and the log fit in 32 bits; the inode's size and
-- addresses fit in a dinode.
pub record IsAlone (m : Machine) (ip lim : ℕ) : Type 0 where
  pub one : m.log.outstanding ≡ 1
  pub idle : m.log.committing ≡ false
  pub small : m.log.start + m.log.size ≤ 2 ^ 32
  pub words : (i : ℕ) → m.log.block i < 2 ^ 32
  pub header : get32 (m.disk m.log.start) 0 ≡ 0
  pub synced : (b : ℕ) → is_logged m b ≡ false → view m b ≡ m.disk b
  pub listed : (b : ℕ) → is_logged m b ≡ true → Outside m.log b
  pub size : (m.inodes ip).size < limit 8
  pub addrs : (j : ℕ) → (m.inodes ip).addrs j < limit 4
  pub beyond : (j : ℕ) → nblockaddr ≤ j → (m.inodes ip).addrs j ≡ 0
  pub touched : (b : ℕ) → Touched m ip lim b → Outside m.log b × (b < 2 ^ 32)

module _ (m0 : Machine) (ip lim : ℕ) (separate : IsSeparate m0 ip lim)
    (alone : IsAlone m0 ip lim) where
  Logging-Outside :
      {m : Machine} → Logging m0 ip lim m → (b : ℕ) → is_logged m b ≡ true → Outside m0.log b
  Logging-Outside l b h = elim (l.logged b h) [
    | inl old ↦ alone.listed b old
    | inr touched ↦ (alone.touched b touched).0
  ]

  Logging-words : {m : Machine} → Logging m0 ip lim m → (i : ℕ) → m.log.block i < 2 ^ 32
  Logging-words l i = elim (l.words i) [
    | inl old ↦ rw old (alone.words i)
    | inr touched ↦ (alone.touched _ touched).1
  ]

  -- The log after the write can be committed.
  pub Writing-Ready :
      {g : ℕ → ℕ} {s k : ℕ} {m : Machine} → Writing m0 ip lim separate g s k m → Ready m
  Writing-Ready {k} {m} w =
      let room = w.room in
      let entries = w.entries in
      let l = w.logging in
      record {
        fits = record {
          room = omega (arith, room);
          small = rw (l.start, l.size) alone.small;
          outside = λ i low high.
              rw (l.start, l.size)
                (Logging-Outside l (m.log.block i)
                  (named_self m.log.block m.log.n 0 i low (omega (arith, high))));
        };
        few = omega (arith, entries);
        free = w.free;
        words = Logging-words l;
      }

  -- The dinode is loaded again with the size and the addresses.
  pub IsStored-load :
      {s : ℕ} {m : Machine} {d : Block}
      → IsStored m0 ip s m
      → s < limit 8
      → d ≡ view m (home ip m0)
      → (old : Inode)
      → let n = load d (dinode_off (m0.inodes ip).inum) old in
        (n.size ≡ s) × (n.addrs ≡ (m0.inodes ip).addrs)
  unfolding load
  IsStored-load {s} k fits same old =
      let e = same ∙ k.seen in
      let size = k.size in
      let o = dinode_off (m0.inodes ip).inum in
      (
        ap (λ d. (load d o old).size) e
            ∙ size-store k.inode o k.under (omega (arith, size, fits))
            ∙ size,
        ap (λ d. (load d o old).addrs) e
            ∙ addrs-store k.inode o k.under (λ j. rw k.addrs (alone.addrs j))
                (λ j high. rw k.addrs (alone.beyond j high))
            ∙ k.addrs,
      )

  -- What a commit puts on the disk is what the buffers show.
  pub committed-view : {m : Machine} → Logging m0 ip lim m → (b : ℕ) → committed m b ≡ view m b
  committed-view {m} l b = elim (Bool-cases (is_logged m b)) [
    | inl logged ↦ rw logged refl
    | inr away ↦
        let (first, kept) = l.unlogged b away in
        rw away (ap (λ d. d b) l.disk ∙ sym (alone.synced b first) ∙ sym kept)
  ]

  pub Writing-Ended :
      {g : ℕ → ℕ} {s k : ℕ} {m : Machine}
      → Writing m0 ip lim separate g s k m
      → Returns (λ _. Ended m) (end_op m)
  Writing-Ended {m} w =
      let l = w.logging in
      end_op-Ended m (l.outstanding ∙ alone.one) (l.committing ∙ alone.idle) (Writing-Ready w) (
        ap (λ d. get32 (d m.log.start) 0) l.disk
        ∙ ap (λ a. get32 (m0.disk a) 0) l.start
        ∙ alone.header)
