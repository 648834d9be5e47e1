-- ===== src/Inode/Layout.antt =====
-- `struct dinode` of include/fs.h in the bytes of a block: 256 bytes, little-endian, with the fields
-- where an LP64 machine puts them.
use myfuse.Common.{ℕ, zero, suc, ◌+◌, ◌*◌, ◌/◌, ◌%◌, update, ltb, if◌then◌else◌}
use myfuse.Params.{ipb}
use myfuse.Machine.{Inode, TimeSpec}
use myfuse.Machine.Block.{Block}

-- an integer of `w` bytes
unfoldable pub get_le : ℕ → Block → ℕ → ℕ
get_le zero d off = 0
get_le (suc w) d off = d off + 256 * get_le w d (off + 1)

unfoldable pub set_le : ℕ → Block → ℕ → ℕ → Block
set_le zero d off v = d
set_le (suc w) d off v = set_le w (update d off (v % 256)) (off + 1) (v / 256)

-- `dip` within its block
abbrev pub dinode_off : ℕ → ℕ
dinode_off inum = 256 * (inum % ipb)

-- the addresses: NBLOCKADDR of them from offset 68 on
unfoldable pub get_addrs : ℕ → Block → ℕ → ℕ → ℕ
get_addrs k d off i = if ltb i k then get_le 4 d (off + 4 * i) else 0

-- `k` of them, from `addrs i` on
unfoldable pub set_addrs : ℕ → Block → ℕ → (ℕ → ℕ) → ℕ → Block
unfolding set_le
set_addrs zero d off addrs i = d
set_addrs (suc k) d off addrs i = set_addrs k (set_le 4 d off (addrs i)) (off + 4) addrs (i + 1)

unfoldable pub get_time : Block → ℕ → TimeSpec
unfolding get_le
get_time d off = record { sec = get_le 8 d off; nsec = get_le 8 d (off + 8) }

unfoldable pub set_time : Block → ℕ → TimeSpec → Block
unfolding set_le
set_time d off t = set_le 8 (set_le 8 d off t.sec) (off + 8) t.nsec

abbrev pub nblockaddr : ℕ
nblockaddr = 46

-- what `ilock` copies from `dip`
unfoldable pub load : Block → ℕ → Inode → Inode
unfolding get_le get_time get_addrs
load d o ip = record ip {
  kind = get_le 2 d o;
  major = get_le 2 d (o + 2);
  minor = get_le 2 d (o + 4);
  nlink = get_le 2 d (o + 6);
  size = get_le 8 d (o + 8);
  atime = get_time d (o + 16);
  mtime = get_time d (o + 32);
  ctime = get_time d (o + 48);
  perm = get_le 4 d (o + 64);
  addrs = get_addrs nblockaddr d (o + 68);
}

-- what `iupdate` copies to `dip`
unfoldable pub store : Inode → ℕ → Block → Block
unfolding set_le set_time set_addrs
store ip o d =
    let d1 = set_le 2 d o ip.kind in
    let d2 = set_le 2 d1 (o + 2) ip.major in
    let d3 = set_le 2 d2 (o + 4) ip.minor in
    let d4 = set_le 2 d3 (o + 6) ip.nlink in
    let d5 = set_le 8 d4 (o + 8) ip.size in
    let d6 = set_le 4 d5 (o + 64) ip.perm in
    let d7 = set_time d6 (o + 16) ip.atime in
    let d8 = set_time d7 (o + 32) ip.mtime in
    let d9 = set_time d8 (o + 48) ip.ctime in set_addrs nblockaddr d9 (o + 68) ip.addrs 0
