-- ===== src/Mkfs.antt =====
-- Formatting a disk: src/mkfs/mkfs.myfuse-util.cc, and src/mkfs/mkfs.myfuse.cc from the size of the
-- disk in blocks on.
pub mod Regions
use myfuse.Common.{
  ℕ, zero, suc, ◌+◌, ◌-◌, ◌*◌, ◌/◌, ◌%◌, ◌^◌, true, false, ◌==◌, leb, if◌then◌else◌, add32, sub32,
  mul32, update, List, [], ◌∷◌, ◌++◌,
}
use myfuse.Params.{nlog, bpb, ipb, t_dir}
use myfuse.Machine.{Machine, SuperBlock, Cmd, pure, ◌>>=◌, ◌>>◌, state, modify, err_exit}
use myfuse.Machine.Block.{Block, zeros, set32}
use myfuse.Machine.Buffer.{buf_data, set_data}
use myfuse.Log.Op.{begin_op, end_op, logged_read, logged_write, logged_relse}
use myfuse.Log.Commit.{log_init}
use myfuse.Alloc.{roundup, logged_zero_a_block, block_allocator_refresh, init_meta_blocks_bmap}
use myfuse.Inode.Table.{edit, inode_of, ialloc, ilock, iupdate, inode_init}
use myfuse.Inode.Trunc.{iunlockput}
use myfuse.Directory.Entries.{rootino}
use myfuse.Mount.{fsmagic, superblock_id, empty_cache}

-- `ceil` is of a quotient of `uint`s.
abbrev pub ninode_blocks : ℕ → ℕ
ninode_blocks disk_size = disk_size / 50 + 1

abbrev pub nbitmap : ℕ → ℕ
nbitmap disk_size = roundup disk_size bpb / bpb

abbrev pub nmeta_blocks : ℕ → ℕ
nmeta_blocks disk_size = (2 + nlog + ninode_blocks disk_size + nbitmap disk_size) % 2 ^ 32

unfoldable pub init_super_block : ℕ → SuperBlock
init_super_block disk_size = record {
  magic = fsmagic;
  size = disk_size;
  nblocks = sub32 disk_size (nmeta_blocks disk_size);
  ninodes = mul32 (ninode_blocks disk_size) ipb;
  nlog = nlog;
  logstart = 2;
  inodestart = 2 + nlog;
  bmapstart = 2 + nlog + ninode_blocks disk_size;
}

unfoldable pub add_rootinode : Cmd (Unit {0})
add_rootinode = do
  begin_op
  ip ← ialloc t_dir
  n ← inode_of ip
  if n.inum == rootino then pure tt else err_exit
  ilock ip
  m ← state
  edit ip (λ n. record n { nlink = 1; kind = t_dir; atime = m.now; mtime = m.now; ctime = m.now })
  iupdate ip
  iunlockput ip
  end_op

-- words at `off`, `off + 4`, …
unfoldable pub put_words : List ℕ → ℕ → Block → Block
put_words [] off d = d
put_words (v ∷ vs) off d = put_words vs (off + 4) (set32 d off v)

-- the bytes of `struct superblock` over those of a block
unfoldable pub put_superblock : SuperBlock → Block → Block
unfolding put_words
put_superblock sb =
    put_words
      (sb.magic ∷ sb.size ∷ sb.nblocks ∷ sb.ninodes ∷ sb.nlog ∷ sb.logstart ∷ sb.inodestart
        ∷ sb.bmapstart ∷ [])
      0

-- `write_block_raw(b, …)`
abbrev pub write_raw : ℕ → Block → Cmd (Unit {0})
write_raw b d =
    modify (λ m. record m { disk = update m.disk b d; trace = m.trace ++ ((b, d) ∷ []) })

-- `write_block_raw(i, zeros.data())` for `k` more blocks
unfoldable pub zero_blocks : ℕ → ℕ → Cmd (Unit {0})
zero_blocks zero i = pure tt
zero_blocks (suc k) i = write_raw i zeros >> zero_blocks k (i + 1)

-- the blocks of the bitmap, each in an operation, for `k` more
unfoldable pub zero_bitmap : ℕ → ℕ → Cmd (Unit {0})
zero_bitmap zero i = pure tt
zero_bitmap (suc k) i = do
  m ← state
  begin_op
  logged_zero_a_block (add32 m.sb.bmapstart i)
  end_op
  zero_bitmap k (i + 1)

-- From `if (block_size <= 100)` on.
unfoldable pub mkfs : ℕ → Cmd (Unit {0})
unfolding init_super_block put_superblock zero_blocks zero_bitmap add_rootinode
mkfs block_size = do
  if leb block_size 100 then err_exit else pure tt
  let sb = init_super_block block_size
  modify (λ m. record m { sb = sb })
  zero_blocks (sub32 sb.size sb.nblocks) 0
  write_raw 1 (put_superblock sb zeros)
  empty_cache
  log_init sb
  inode_init sb
  zero_bitmap (roundup sb.size bpb / bpb) 0
  block_allocator_refresh sb
  init_meta_blocks_bmap
  block_allocator_refresh sb
  begin_op
  logged_read superblock_id
  d ← buf_data superblock_id
  set_data superblock_id (put_superblock sb d)
  logged_write superblock_id
  logged_relse superblock_id
  end_op
  add_rootinode
