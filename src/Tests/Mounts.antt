-- ===== src/Tests/Mounts.antt =====
-- The start of the file system on a disk without data blocks.
use myfuse.Common.{refl, ◌≡◌, ◌==◌, if◌then◌else◌}
use myfuse.Machine.{Machine, SuperBlock, ok}
use myfuse.Machine.Block.{zeros, get32, set32}
use myfuse.Machine.Buffer.{bread, buf_data, set_data, bwrite, brelse}
use myfuse.Log.Header.{
  read_log_header_from_disk, write_log_header_to_disk, read_entries, write_entries,
}
use myfuse.Log.Commit.{
  log_init, recover_from_log, install_transaction, install_loop, commit, write_from_cache_to_log,
  log_loop,
}
use myfuse.Log.Op.{begin_op, end_op}
use myfuse.Alloc.{block_allocator_refresh, refresh_loop}
use myfuse.Inode.Table.{inode_init}
use myfuse.File.Table.{file_init}
use myfuse.Mkfs.{put_superblock, put_words}
use myfuse.Mount.{myfuse_init, superblock_of, fsmagic}
use myfuse.Mount.Started.{myfuse_init-started}
use myfuse.Balance.Log.{ops}
use myfuse.Tests.Fixture.{boot, superblock, after}

abbrev tiny : SuperBlock
tiny = record superblock { size = 0 }

abbrev unmounted : Machine
unmounted = record boot { disk = λ b. if b == 1 then put_superblock tiny zeros else zeros }

abbrev mounted : Machine
mounted = after (myfuse_init unmounted) boot

mounts : myfuse_init unmounted ≡ ok tt mounted
unfolding myfuse_init superblock_of put_superblock put_words get32 set32 log_init recover_from_log
    read_log_header_from_disk bread buf_data read_entries brelse install_transaction install_loop
    write_log_header_to_disk write_entries set_data bwrite inode_init block_allocator_refresh
    begin_op refresh_loop end_op commit write_from_cache_to_log log_loop file_init
mounts = refl

myfuse_init-started_example :
    ((superblock_of (unmounted.disk 1)).magic ≡ fsmagic)
    × (ops mounted ≡ 0)
    × (mounted.sb ≡ superblock_of (unmounted.disk 1))
    × (mounted.bmap.first_free_cache ≡ 0)
myfuse_init-started_example = myfuse_init-started unmounted mounts
