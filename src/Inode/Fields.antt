-- ===== src/Inode/Fields.antt =====
-- What `iupdate` stores in a dinode `ilock` loads again (src/inode.c).
use myfuse.Common.{ℕ, ◌+◌, ◌≤◌, ◌<◌, ◌≡◌, refl, ◌∙◌, arith}
use myfuse.Machine.{Inode}
use myfuse.Machine.Block.{Block}
use myfuse.Inode.Layout.{get_le, nblockaddr, get_time, set_time, load, store}
use myfuse.Inode.Stored.{size-store, addrs-store}
use myfuse.Inode.Bytes.{limit, get_le-set_le-Apart, get_le-set_le, get_le-set_addrs-Apart}

-- The fields fit the integers that hold them, and there are NBLOCKADDR addresses.
pub record Fits (ip : Inode) : Type 0 where
  pub kind : ip.kind < limit 2
  pub major : ip.major < limit 2
  pub minor : ip.minor < limit 2
  pub nlink : ip.nlink < limit 2
  pub size : ip.size < limit 8
  pub perm : ip.perm < limit 4
  pub atime : (ip.atime.sec < limit 8) × (ip.atime.nsec < limit 8)
  pub mtime : (ip.mtime.sec < limit 8) × (ip.mtime.nsec < limit 8)
  pub ctime : (ip.ctime.sec < limit 8) × (ip.ctime.nsec < limit 8)
  pub addrs : (j : ℕ) → ip.addrs j < limit 4
  pub beyond : (j : ℕ) → nblockaddr ≤ j → ip.addrs j ≡ 0

module _ (ip : Inode) (o : ℕ) (d : Block) (fits : Fits ip) where
  kind_kept : get_le 2 (store ip o d) o ≡ ip.kind
  unfolding store set_time
  kind_kept =
      get_le-set_addrs-Apart 2 o nblockaddr _ (o + 68) ip.addrs 0 (omega arith)
      ∙ get_le-set_le-Apart 2 o 8 _ (o + 48 + 8) ip.ctime.nsec (omega arith)
      ∙ get_le-set_le-Apart 2 o 8 _ (o + 48) ip.ctime.sec (omega arith)
      ∙ get_le-set_le-Apart 2 o 8 _ (o + 32 + 8) ip.mtime.nsec (omega arith)
      ∙ get_le-set_le-Apart 2 o 8 _ (o + 32) ip.mtime.sec (omega arith)
      ∙ get_le-set_le-Apart 2 o 8 _ (o + 16 + 8) ip.atime.nsec (omega arith)
      ∙ get_le-set_le-Apart 2 o 8 _ (o + 16) ip.atime.sec (omega arith)
      ∙ get_le-set_le-Apart 2 o 4 _ (o + 64) ip.perm (omega arith)
      ∙ get_le-set_le-Apart 2 o 8 _ (o + 8) ip.size (omega arith)
      ∙ get_le-set_le-Apart 2 o 2 _ (o + 6) ip.nlink (omega arith)
      ∙ get_le-set_le-Apart 2 o 2 _ (o + 4) ip.minor (omega arith)
      ∙ get_le-set_le-Apart 2 o 2 _ (o + 2) ip.major (omega arith)
      ∙ get_le-set_le 2 _ o ip.kind fits.kind

  major_kept : get_le 2 (store ip o d) (o + 2) ≡ ip.major
  unfolding store set_time
  major_kept =
      get_le-set_addrs-Apart 2 (o + 2) nblockaddr _ (o + 68) ip.addrs 0 (omega arith)
      ∙ get_le-set_le-Apart 2 (o + 2) 8 _ (o + 48 + 8) ip.ctime.nsec (omega arith)
      ∙ get_le-set_le-Apart 2 (o + 2) 8 _ (o + 48) ip.ctime.sec (omega arith)
      ∙ get_le-set_le-Apart 2 (o + 2) 8 _ (o + 32 + 8) ip.mtime.nsec (omega arith)
      ∙ get_le-set_le-Apart 2 (o + 2) 8 _ (o + 32) ip.mtime.sec (omega arith)
      ∙ get_le-set_le-Apart 2 (o + 2) 8 _ (o + 16 + 8) ip.atime.nsec (omega arith)
      ∙ get_le-set_le-Apart 2 (o + 2) 8 _ (o + 16) ip.atime.sec (omega arith)
      ∙ get_le-set_le-Apart 2 (o + 2) 4 _ (o + 64) ip.perm (omega arith)
      ∙ get_le-set_le-Apart 2 (o + 2) 8 _ (o + 8) ip.size (omega arith)
      ∙ get_le-set_le-Apart 2 (o + 2) 2 _ (o + 6) ip.nlink (omega arith)
      ∙ get_le-set_le-Apart 2 (o + 2) 2 _ (o + 4) ip.minor (omega arith)
      ∙ get_le-set_le 2 _ (o + 2) ip.major fits.major

  minor_kept : get_le 2 (store ip o d) (o + 4) ≡ ip.minor
  unfolding store set_time
  minor_kept =
      get_le-set_addrs-Apart 2 (o + 4) nblockaddr _ (o + 68) ip.addrs 0 (omega arith)
      ∙ get_le-set_le-Apart 2 (o + 4) 8 _ (o + 48 + 8) ip.ctime.nsec (omega arith)
      ∙ get_le-set_le-Apart 2 (o + 4) 8 _ (o + 48) ip.ctime.sec (omega arith)
      ∙ get_le-set_le-Apart 2 (o + 4) 8 _ (o + 32 + 8) ip.mtime.nsec (omega arith)
      ∙ get_le-set_le-Apart 2 (o + 4) 8 _ (o + 32) ip.mtime.sec (omega arith)
      ∙ get_le-set_le-Apart 2 (o + 4) 8 _ (o + 16 + 8) ip.atime.nsec (omega arith)
      ∙ get_le-set_le-Apart 2 (o + 4) 8 _ (o + 16) ip.atime.sec (omega arith)
      ∙ get_le-set_le-Apart 2 (o + 4) 4 _ (o + 64) ip.perm (omega arith)
      ∙ get_le-set_le-Apart 2 (o + 4) 8 _ (o + 8) ip.size (omega arith)
      ∙ get_le-set_le-Apart 2 (o + 4) 2 _ (o + 6) ip.nlink (omega arith)
      ∙ get_le-set_le 2 _ (o + 4) ip.minor fits.minor

  nlink_kept : get_le 2 (store ip o d) (o + 6) ≡ ip.nlink
  unfolding store set_time
  nlink_kept =
      get_le-set_addrs-Apart 2 (o + 6) nblockaddr _ (o + 68) ip.addrs 0 (omega arith)
      ∙ get_le-set_le-Apart 2 (o + 6) 8 _ (o + 48 + 8) ip.ctime.nsec (omega arith)
      ∙ get_le-set_le-Apart 2 (o + 6) 8 _ (o + 48) ip.ctime.sec (omega arith)
      ∙ get_le-set_le-Apart 2 (o + 6) 8 _ (o + 32 + 8) ip.mtime.nsec (omega arith)
      ∙ get_le-set_le-Apart 2 (o + 6) 8 _ (o + 32) ip.mtime.sec (omega arith)
      ∙ get_le-set_le-Apart 2 (o + 6) 8 _ (o + 16 + 8) ip.atime.nsec (omega arith)
      ∙ get_le-set_le-Apart 2 (o + 6) 8 _ (o + 16) ip.atime.sec (omega arith)
      ∙ get_le-set_le-Apart 2 (o + 6) 4 _ (o + 64) ip.perm (omega arith)
      ∙ get_le-set_le-Apart 2 (o + 6) 8 _ (o + 8) ip.size (omega arith)
      ∙ get_le-set_le 2 _ (o + 6) ip.nlink fits.nlink

  perm_kept : get_le 4 (store ip o d) (o + 64) ≡ ip.perm
  unfolding store set_time
  perm_kept =
      get_le-set_addrs-Apart 4 (o + 64) nblockaddr _ (o + 68) ip.addrs 0 (omega arith)
      ∙ get_le-set_le-Apart 4 (o + 64) 8 _ (o + 48 + 8) ip.ctime.nsec (omega arith)
      ∙ get_le-set_le-Apart 4 (o + 64) 8 _ (o + 48) ip.ctime.sec (omega arith)
      ∙ get_le-set_le-Apart 4 (o + 64) 8 _ (o + 32 + 8) ip.mtime.nsec (omega arith)
      ∙ get_le-set_le-Apart 4 (o + 64) 8 _ (o + 32) ip.mtime.sec (omega arith)
      ∙ get_le-set_le-Apart 4 (o + 64) 8 _ (o + 16 + 8) ip.atime.nsec (omega arith)
      ∙ get_le-set_le-Apart 4 (o + 64) 8 _ (o + 16) ip.atime.sec (omega arith)
      ∙ get_le-set_le 4 _ (o + 64) ip.perm fits.perm

  atime_sec_kept : get_le 8 (store ip o d) (o + 16) ≡ ip.atime.sec
  unfolding store set_time
  atime_sec_kept =
      get_le-set_addrs-Apart 8 (o + 16) nblockaddr _ (o + 68) ip.addrs 0 (omega arith)
      ∙ get_le-set_le-Apart 8 (o + 16) 8 _ (o + 48 + 8) ip.ctime.nsec (omega arith)
      ∙ get_le-set_le-Apart 8 (o + 16) 8 _ (o + 48) ip.ctime.sec (omega arith)
      ∙ get_le-set_le-Apart 8 (o + 16) 8 _ (o + 32 + 8) ip.mtime.nsec (omega arith)
      ∙ get_le-set_le-Apart 8 (o + 16) 8 _ (o + 32) ip.mtime.sec (omega arith)
      ∙ get_le-set_le-Apart 8 (o + 16) 8 _ (o + 16 + 8) ip.atime.nsec (omega arith)
      ∙ get_le-set_le 8 _ (o + 16) ip.atime.sec fits.atime.0

  atime_nsec_kept : get_le 8 (store ip o d) (o + 16 + 8) ≡ ip.atime.nsec
  unfolding store set_time
  atime_nsec_kept =
      get_le-set_addrs-Apart 8 (o + 16 + 8) nblockaddr _ (o + 68) ip.addrs 0 (omega arith)
      ∙ get_le-set_le-Apart 8 (o + 16 + 8) 8 _ (o + 48 + 8) ip.ctime.nsec (omega arith)
      ∙ get_le-set_le-Apart 8 (o + 16 + 8) 8 _ (o + 48) ip.ctime.sec (omega arith)
      ∙ get_le-set_le-Apart 8 (o + 16 + 8) 8 _ (o + 32 + 8) ip.mtime.nsec (omega arith)
      ∙ get_le-set_le-Apart 8 (o + 16 + 8) 8 _ (o + 32) ip.mtime.sec (omega arith)
      ∙ get_le-set_le 8 _ (o + 16 + 8) ip.atime.nsec fits.atime.1

  mtime_sec_kept : get_le 8 (store ip o d) (o + 32) ≡ ip.mtime.sec
  unfolding store set_time
  mtime_sec_kept =
      get_le-set_addrs-Apart 8 (o + 32) nblockaddr _ (o + 68) ip.addrs 0 (omega arith)
      ∙ get_le-set_le-Apart 8 (o + 32) 8 _ (o + 48 + 8) ip.ctime.nsec (omega arith)
      ∙ get_le-set_le-Apart 8 (o + 32) 8 _ (o + 48) ip.ctime.sec (omega arith)
      ∙ get_le-set_le-Apart 8 (o + 32) 8 _ (o + 32 + 8) ip.mtime.nsec (omega arith)
      ∙ get_le-set_le 8 _ (o + 32) ip.mtime.sec fits.mtime.0

  mtime_nsec_kept : get_le 8 (store ip o d) (o + 32 + 8) ≡ ip.mtime.nsec
  unfolding store set_time
  mtime_nsec_kept =
      get_le-set_addrs-Apart 8 (o + 32 + 8) nblockaddr _ (o + 68) ip.addrs 0 (omega arith)
      ∙ get_le-set_le-Apart 8 (o + 32 + 8) 8 _ (o + 48 + 8) ip.ctime.nsec (omega arith)
      ∙ get_le-set_le-Apart 8 (o + 32 + 8) 8 _ (o + 48) ip.ctime.sec (omega arith)
      ∙ get_le-set_le 8 _ (o + 32 + 8) ip.mtime.nsec fits.mtime.1

  ctime_sec_kept : get_le 8 (store ip o d) (o + 48) ≡ ip.ctime.sec
  unfolding store set_time
  ctime_sec_kept =
      get_le-set_addrs-Apart 8 (o + 48) nblockaddr _ (o + 68) ip.addrs 0 (omega arith)
      ∙ get_le-set_le-Apart 8 (o + 48) 8 _ (o + 48 + 8) ip.ctime.nsec (omega arith)
      ∙ get_le-set_le 8 _ (o + 48) ip.ctime.sec fits.ctime.0

  ctime_nsec_kept : get_le 8 (store ip o d) (o + 48 + 8) ≡ ip.ctime.nsec
  unfolding store set_time
  ctime_nsec_kept =
      get_le-set_addrs-Apart 8 (o + 48 + 8) nblockaddr _ (o + 68) ip.addrs 0 (omega arith)
      ∙ get_le-set_le 8 _ (o + 48 + 8) ip.ctime.nsec fits.ctime.1

  times_kept :
      (get_time (store ip o d) (o + 16) ≡ ip.atime)
      × (get_time (store ip o d) (o + 32) ≡ ip.mtime)
      × (get_time (store ip o d) (o + 48) ≡ ip.ctime)
  unfolding get_time
  times_kept =
      rw
        (
          atime_sec_kept, atime_nsec_kept, mtime_sec_kept, mtime_nsec_kept, ctime_sec_kept,
          ctime_nsec_kept,
        )
        (refl, refl, refl)

-- Storing an inode whose fields fit in a dinode and loading that dinode into any slot gives back
-- every field that lives on disk; the slot's number, references, lock and `valid` stay.
pub load-store :
    (ip old : Inode) (o : ℕ) (d : Block)
    → Fits ip
    → load (store ip o d) o old
      ≡ record ip { inum = old.inum; ref = old.ref; locked = old.locked; valid = old.valid }
unfolding load
load-store ip old o d fits = rw (
  kind_kept ip o d fits,
  major_kept ip o d fits,
  minor_kept ip o d fits,
  nlink_kept ip o d fits,
  size-store ip o d fits.size,
  perm_kept ip o d fits,
  (times_kept ip o d fits).0,
  (times_kept ip o d fits).1,
  (times_kept ip o d fits).2,
  addrs-store ip o d fits.addrs fits.beyond,
)
