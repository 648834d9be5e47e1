-- ===== src/Lib.antt =====
-- A model of myfuse, a file system on FUSE in the manner of xv6, with the theorems that make its
-- layers correct.
--
-- From the bottom: the block device (src/block_device.c) is read and written through a buffer cache
-- (src/buf_cache.c). The log (src/log.c) collects the blocks that operations change and writes them
-- at one stroke. The block allocator (src/block_allocator.c) hands out blocks by a bitmap, inodes
-- (src/inode.c) collect blocks to files, and directories (src/directory.c) name inodes. The handlers
-- of src/file.c, which src/main.c gives to FUSE, serve requests by them.
--
-- Common, Params: shared helpers, and the constants of include/fs.h.
-- Machine: the state that the layers share, and commands on it (State, Command). A command returns
--   (`ok`), ends the process (`exit`: err_exit), waits for what no one gives (`wait`), or reaches
--   beyond an array (`fault`). Block has the bytes of a block; Buffer is the cache as its callers
--   see it: one buffer for a block, filled by the first bread, held from bread to brelse, written
--   through by bwrite; a read or write of a block is whole. Effect says what a sequence of writes
--   does, Keeps what parts of the state a command leaves alone.
-- Log: src/log.c, each function under its name (Header, Commit, Op); the other modules prove.
-- Alloc: src/block_allocator.c, each function under its name, in Alloc.antt.
-- Inode: src/inode.c: the dinode's bytes (Layout), the table (Table), the block map (Map),
--   truncation (Trunc), content and attributes (Content). An inode is named by its slot. A file's
--   bytes are those of the blocks that Walk finds without the code; Read and ReadFile, and Writing
--   to ReadBack, compare the code with them; Alone and Durable are about the disk
--   after end_op, and after a crash.
-- Directory: src/directory.c: paths (Path), entries and the walk (Entries).
-- File: src/file.c: the table of open files (Table, Slots, References), the handlers that FUSE
--   calls (Attr, Open, Link), and the table of them in src/main.c, as the requests that can be
--   served (Serve).
--   A file is named by its slot; FUSE's `filler` is a parameter, and flags are bits of a number.
-- Balance: begin_op and end_op in the handlers, from the layers below (Log, Alloc, Inode, Directory)
--   to a single request (Handlers, Calls, Missing, Leaks) to histories of them (History), and
--   to what follows when eight operations are left open (Full).
-- BufCache: src/buf_cache.c itself, with its buckets, time stamps and reference counts. The other
--   layers do not stand on it, but on the view that Machine.Buffer has; what that view asks of the
--   cache is the record Fetches and the invariant IsCache.
-- BlockDevice: src/block_device.c. open, lseek, read and write are parameters.
-- Mount, Mkfs: myfuse_init of src/main.c; mkfs/mkfs.myfuse-util.cc, and main of mkfs/mkfs.myfuse.cc
--   from the number of the disk's blocks on.
-- Diagnostic: diagnostic/disk-diagnostic.cc, from disk_init on. What it prints is a list of pieces,
--   texts and the numbers that printf converts; `block_used` is a list.
-- Tests: concrete states, and the theorems applied to them.
--
-- Integers: `uint` and `int` are 32-bit patterns with their wrap-around written out (add32, sub32,
-- lt_int), `size_t` has 64 bits. Threads: a command is run without interruption, and Log.Reserve
-- has the interleavings of the log's operations; the spin locks that a function takes and gives
-- back itself are left out. Code under DEBUG_TEST is left out.
--
-- Fuel: iget calls itself once after itable_grow, so its fuel is 2. The loops of skiptoend and
-- namex take an element off the path in each round, and their fuel is the path's length and one
-- more. The loops over whole blocks in the reads and writes take BSIZE bytes in each round, and
-- their fuel is the bytes divided by BSIZE.
--
-- Not modelled: options, messages and the signal handler of src/main.c and src/util.c, mkfs's
-- prompt and its query of the disk's size, which only read and print, and the tests under test;
-- what FUSE does between the kernel and the handlers. fileread and filewrite are declared in
-- include/file.h and defined nowhere.
pub mod Common
pub mod Params
pub mod Machine
pub mod Log
pub mod Alloc
pub mod Inode
pub mod Directory
pub mod File
pub mod Balance
pub mod Tests
pub mod BufCache
pub mod BlockDevice
pub mod Mount
pub mod Mkfs
pub mod Diagnostic
