-- ===== src/Inode/Separate.antt =====
-- Files whose blocks are apart, as the inodes of src/inode.c have them.
use myfuse.Common.{ℕ, ◌/◌, ◌≤◌, ◌<◌, ◌≡◌, ◌≢◌, true, false}
use myfuse.Params.{bsize, maxfile_size}
use myfuse.Machine.{Machine}
use myfuse.Machine.Buffer.{view}
use myfuse.Inode.Map.{place}
use myfuse.Inode.Walk.{is_mapped, walk}
use myfuse.Inode.Paths.{passes}
use myfuse.Inode.Update.{home}

-- Up to `lim` bytes of a file are mapped, by blocks that are apart: each data block is one block of
-- the file only, not an indirect block of it, and not the block that the inode is kept in.
pub record IsSeparate (m : Machine) (ip lim : ℕ) : Type 0 where
  pub fits : lim ≤ maxfile_size
  pub mapped : (p : ℕ) → p < lim → is_mapped (view m) (m.inodes ip).addrs (place (p / bsize)) ≡ true
  pub apart :
      (p q : ℕ)
      → p < lim
      → q < lim
      → walk m ip (p / bsize) ≡ walk m ip (q / bsize)
      → p / bsize ≡ q / bsize
  pub no_data :
      (p q : ℕ)
      → p < lim
      → q < lim
      → passes (view m) (m.inodes ip).addrs (place (q / bsize)) (walk m ip (p / bsize)) ≡ false
  pub not_home : (p : ℕ) → p < lim → walk m ip (p / bsize) ≢ home ip m
  pub no_home :
      (p : ℕ)
      → p < lim
      → passes (view m) (m.inodes ip).addrs (place (p / bsize)) (home ip m) ≡ false
