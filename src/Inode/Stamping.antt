-- ===== src/Inode/Stamping.antt =====
-- `iupdate` (src/inode.c) while `inode_write_nbytes_locked` writes to a file.
use myfuse.Common.{ℕ, ◌+◌, ◌/◌, ◌≡◌, ◌∙◌, refl, sym, ap, true, false, ◌==◌, arith, inl}
use myfuse.Params.{bsize}
use myfuse.Machine.{Machine, Inode, Returns, Returns-weaken}
use myfuse.Machine.Block.{Block}
use myfuse.Machine.Buffer.{view}
use myfuse.Inode.Layout.{dinode_off, store}
use myfuse.Inode.Table.{iblock, iupdate}
use myfuse.Inode.Walk.{walk}
use myfuse.Inode.Update.{home, iupdate-Logged}
use myfuse.Inode.Separate.{IsSeparate}
use myfuse.Inode.Writing.{Writing, miss, has_room, edit-Writing, Logged-Writing}

-- The inode's block has an inode of size `s`, with the addresses the inode had at first.
pub record IsStored (m0 : Machine) (ip s : ℕ) (m : Machine) : Type 0 where
  pub inode : Inode
  pub under : Block
  pub size : inode.size ≡ s
  pub addrs : inode.addrs ≡ (m0.inodes ip).addrs
  pub seen : view m (home ip m0) ≡ store inode (dinode_off (m0.inodes ip).inum) under

module _ (m0 : Machine) (ip lim : ℕ) (separate : IsSeparate m0 ip lim) where
  -- `iupdate` costs one write.
  pub iupdate-Writing :
      {g : ℕ → ℕ} {s k : ℕ} {m : Machine}
      → Writing m0 ip lim separate g s (k + 1) m
      → Returns (λ _ m'. Writing m0 ip lim separate g s k m' × IsStored m0 ip s m') (iupdate ip m)
  iupdate-Writing {g} {s} {k} {m} w =
      let at_home : home ip m ≡ home ip m0 =
        ap (λ s. iblock s (m.inodes ip).inum) w.sb ∙ ap (iblock m0.sb) w.inum in
      let stamped =
        edit-Writing m0 ip lim separate (λ n. record n { ctime = m.now }) s (λ n. (refl, refl))
          w.size w in
      let hit : (home ip m == home ip m0) ≡ true = rw at_home (ground arith) in
      Returns-weaken (iupdate-Logged ip m (has_room m0 ip lim separate w (omega arith)) (w.free _))
        (λ _ m' logged. (
          Logged-Writing m0 ip lim separate g stamped logged (inl at_home) (λ pos low.
              let away : (home ip m == walk m0 ip (pos / bsize)) ≡ false =
                miss (λ e. separate.not_home pos low (sym e ∙ at_home)) in
              rw away (w.bytes pos low)),
          record {
            inode = record (m.inodes ip) { ctime = m.now };
            under = view m (home ip m);
            size = w.size;
            addrs = w.addrs;
            seen = ap (λ v. v (home ip m0)) logged.seen ∙ rw (hit, w.inum) refl;
          },
        ))
