-- ===== src/Mount.antt =====
-- The start of the file system: `myfuse_init` of src/main.c, after `block_device_init`. The state
-- that the handlers find in `MYFUSE_STATE` is what it returns.
pub mod Started
use myfuse.Common.{ℕ, ◌==◌, not, true, false, if◌then◌else◌}
use myfuse.Machine.{Machine, SuperBlock, Buf, Cmd, pure, ◌>>=◌, ◌>>◌, state, modify, err_exit}
use myfuse.Machine.Block.{Block, get32, zeros}
use myfuse.Log.Commit.{log_init}
use myfuse.Inode.Table.{inode_init}
use myfuse.File.Table.{file_init}

-- `FSMAGIC` and `SUPERBLOCK_ID`
abbrev pub fsmagic : ℕ
fsmagic = 1667917427

abbrev pub superblock_id : ℕ
superblock_id = 1

-- `struct superblock` in the bytes that `read_block_raw_nbytes` reads
unfoldable pub superblock_of : Block → SuperBlock
superblock_of d = record {
  magic = get32 d 0;
  size = get32 d 4;
  nblocks = get32 d 8;
  ninodes = get32 d 12;
  nlog = get32 d 16;
  logstart = get32 d 20;
  inodestart = get32 d 24;
  bmapstart = get32 d 28;
}

-- `bcache_init`, as the other layers see it: no block is cached.
abbrev pub empty_cache : Cmd (Unit {0})
empty_cache = modify (λ m. record m {
  bufs = λ b. record { contents = zeros; valid = false; locked = false; refcnt = 0 };
})

unfoldable pub myfuse_init : Cmd (Unit {0})
unfolding superblock_of
myfuse_init = do
  m ← state
  let sb = superblock_of (m.disk superblock_id)
  if not (sb.magic == fsmagic) then err_exit else pure tt
  empty_cache
  log_init sb
  inode_init sb
  file_init
  modify (λ m. record m { sb = sb })
