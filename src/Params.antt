-- ===== src/Params.antt =====
-- The constants of include/fs.h.
use myfuse.Common.{ℕ, ◌+◌, ◌-◌, ◌*◌, ◌/◌}

abbrev pub bsize : ℕ
bsize = 4096

abbrev pub maxopblocks : ℕ
maxopblocks = 127

abbrev pub nlog : ℕ
nlog = maxopblocks * 8

-- bits of the free map in a block
abbrev pub bpb : ℕ
bpb = bsize * 8

-- block numbers in a block
abbrev pub nindirect1 : ℕ
nindirect1 = bsize / 4

abbrev pub nindirect2 : ℕ
nindirect2 = nindirect1 * nindirect1

abbrev pub nindirect3 : ℕ
nindirect3 = nindirect1 * nindirect2

abbrev pub ndirect : ℕ
ndirect = 43

abbrev pub maxfile_size : ℕ
maxfile_size = (ndirect + (nindirect1 + nindirect2 + nindirect3)) * bsize

-- inodes in a block
abbrev pub ipb : ℕ
ipb = bsize / 256

-- `sizeof(struct dirent)` and the length of a name in it
abbrev pub direntsize : ℕ
direntsize = 64

abbrev pub dirsize : ℕ
dirsize = direntsize - 4

-- the types of an inode
abbrev pub t_unuse : ℕ
t_unuse = 0

abbrev pub t_dir : ℕ
t_dir = 1

abbrev pub t_file : ℕ
t_file = 2

abbrev pub t_device : ℕ
t_device = 3
