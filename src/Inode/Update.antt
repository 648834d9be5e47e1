-- ===== src/Inode/Update.antt =====
-- `iupdate` (src/inode.c): the inode goes to its place in the blocks, through the log.
use myfuse.Common.{
  ℕ, ◌≡◌, ◌⊎◌, refl, ap, true, false, ◌==◌, ◌∙◌, inl, inr, Bool-cases, arith, update,
}
use myfuse.Machine.{Machine, Inode, Returns}
use myfuse.Machine.Block.{Block}
use myfuse.Machine.Buffer.{view, bread, buf_data, set_data}
use myfuse.Log.Op.{logged_read}
use myfuse.Log.Write.{HasRoom}
use myfuse.Log.Logged.{Logged, edited-Logged}
use myfuse.Inode.Layout.{dinode_off, store}
use myfuse.Inode.Table.{iblock, iupdate}

-- the block that the inode is kept in
abbrev pub home : ℕ → Machine → ℕ
home ip m = iblock m.sb (m.inodes ip).inum

abbrev pub stamped : ℕ → Machine → Inode
stamped ip m = record (m.inodes ip) { ctime = m.now }

abbrev pub stamp : ℕ → Machine → Machine
stamp ip m = record m { inodes = update m.inodes ip (stamped ip m) }

-- its block with the inode stored
abbrev pub stored : ℕ → Machine → Block
stored ip m = store (stamped ip m) (dinode_off (m.inodes ip).inum) (view m (home ip m))

pub iupdate-Logged :
    (ip : ℕ) (m : Machine)
    → HasRoom m
    → (m.bufs (home ip m)).locked ≡ false
    → Returns (λ _ m'. Logged (home ip m) (stored ip m) (stamp ip m) m') (iupdate ip m)
unfolding iupdate logged_read bread buf_data set_data
iupdate-Logged ip m room free =
    let hit : (home ip m == home ip m) ≡ true = ground arith in
    rw (free, hit)
      (edited-Logged (home ip m) (stored ip m) (stamp ip m)
        (record {
          few = room.few;
          room = room.room;
          small = room.small;
          inside = room.inside;
          sane = room.sane;
        })
        free)

-- The other blocks show what they showed.
pub Logged-others :
    {b : ℕ} {d : Block} {m m' : Machine}
    → Logged b d m m'
    → (c : ℕ) → (c ≡ b) ⊎ (view m' c ≡ view m c)
Logged-others {b} logged c = elim (Bool-cases (b == c)) [
  | inl here ↦ inl (ground arith)
  | inr away ↦ inr (ap (λ v. v c) logged.seen ∙ rw away refl)
]
