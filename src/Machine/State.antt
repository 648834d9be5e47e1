-- ===== src/Machine/State.antt =====
-- The state that the functions of src/ share: the disk, the buffer cache as its callers see it,
-- `fslog` (src/log.c), `bmap_cache` (include/block_allocator.h), the inode table (src/inode.c) and the file table (src/file.c).
use myfuse.Common.{ℕ, Bool, List, Option}
use myfuse.Machine.Block.{Block}

-- `struct superblock`
pub record SuperBlock : Type 0 where
  pub magic : ℕ
  pub size : ℕ
  pub nblocks : ℕ
  pub ninodes : ℕ
  pub nlog : ℕ
  pub logstart : ℕ
  pub inodestart : ℕ
  pub bmapstart : ℕ

-- `struct bcache_buf`, less its place in the cache's lists.
pub record Buf : Type 0 where
  pub contents : Block
  pub valid : Bool
  pub locked : Bool
  pub refcnt : ℕ

-- `struct fslog`, with its header `lh` in line; an `int` is a bit pattern.
pub record FsLog : Type 0 where
  pub start : ℕ
  pub size : ℕ
  pub outstanding : ℕ
  pub committing : Bool
  pub n : ℕ
  pub block : ℕ → ℕ

-- `struct bmap_cache`; `int first_unalloced[]` is kept as bit patterns.
pub record BmapCache : Type 0 where
  pub cache_buf : ℕ → ℕ
  pub first_unalloced : ℕ → ℕ
  pub n_alloced : ℕ → ℕ
  pub n_cache : ℕ
  pub first_free_cache : ℕ

pub record TimeSpec : Type 0 where
  pub sec : ℕ
  pub nsec : ℕ

-- `struct inode`; its `type` is `kind`.
pub record Inode : Type 0 where
  pub inum : ℕ
  pub ref : ℕ
  pub locked : Bool
  pub valid : Bool
  pub kind : ℕ
  pub major : ℕ
  pub minor : ℕ
  pub nlink : ℕ
  pub size : ℕ
  pub atime : TimeSpec
  pub mtime : TimeSpec
  pub ctime : TimeSpec
  pub perm : ℕ
  pub addrs : ℕ → ℕ

-- `struct file`; its `type` is `kind`, and the null pointer is `none`.
pub record File : Type 0 where
  pub kind : ℕ
  pub ref : ℕ
  pub readable : Bool
  pub writable : Bool
  pub ip : Option ℕ
  pub off : ℕ

pub record Machine : Type 0 where
  pub sb : SuperBlock
  pub disk : ℕ → Block
  -- every block written so far, oldest first: what a crash can cut short
  pub trace : List (ℕ × Block)
  pub bufs : ℕ → Buf
  pub log : FsLog
  pub n_log_wrote : ℕ
  pub bmap : BmapCache
  -- the inode table: its slots, and how many there are
  pub inodes : ℕ → Inode
  pub ninode : ℕ
  -- `ftable` (src/file.c)
  pub files : ℕ → File
  pub nfile : ℕ
  -- what `timespec_get` will say
  pub now : TimeSpec
