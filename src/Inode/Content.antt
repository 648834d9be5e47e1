-- ===== src/Inode/Content.antt =====
-- Reading and writing an inode's content, and its attributes, src/inode.c. `data` is the caller's
-- array; `size_t` has 64 bits.
use myfuse.Common.{ℕ, zero, suc, ◌+◌, ◌-◌, ◌/◌, ◌%◌, ◌^◌, ◌==◌, ltb, leb, if◌then◌else◌}
use Prim.Native.Nat.{bit_or}
use myfuse.Params.{bsize, maxopblocks, maxfile_size, t_dir, t_file, t_device}
use myfuse.Machine.{Inode, TimeSpec, Cmd, pure, ◌>>=◌, ◌>>◌, state}
use myfuse.Machine.Block.{Block, copy_bytes}
use myfuse.Machine.Buffer.{buf_data, set_data}
use myfuse.Log.Op.{begin_op, end_op, logged_read, logged_write, logged_relse}
use myfuse.Inode.Table.{edit, inode_of, iget, ilock, iunlock, iupdate}
use myfuse.Inode.Map.{imap2blockno}
use myfuse.Inode.Trunc.{iunlockput}

unfoldable pub min : ℕ → ℕ → ℕ
min a b = if ltb a b then a else b

unfoldable pub restart_op_on : ℕ → ℕ → Cmd (Unit {0})
restart_op_on ip nwrote = do
  m ← state
  if leb (nwrote - 1) m.n_log_wrote
      then (do iupdate ip; iunlock ip; end_op; begin_op; ilock ip)
      else pure tt

-- `nbytes` cut to what is below `limit`
unfoldable pub clip : ℕ → ℕ → ℕ → ℕ
clip off nbytes limit =
    let end = (off + nbytes) % 2 ^ 64 in
    if ltb limit end then (nbytes + 2 ^ 64 - (end - limit)) % 2 ^ 64 else nbytes

-- one block written: `n` bytes from `bytes + from` to `to`
unfoldable pub write_block : ℕ → ℕ → Block → ℕ → ℕ → ℕ → Cmd (Unit {0})
write_block ip inode_blockno bytes from to n = do
  bp ← imap2blockno ip inode_blockno
  logged_read bp
  d ← buf_data bp
  set_data bp (copy_bytes d to bytes from n)
  logged_write bp
  logged_relse bp

-- The loop over whole blocks, for at most `fuel` of them: the bytes and the block it stops at.
unfoldable pub write_loop : ℕ → ℕ → Block → ℕ → ℕ → ℕ → Cmd (ℕ × ℕ × ℕ)
write_loop zero ip bytes from inode_blockno nbytes = pure (from, inode_blockno, nbytes)
write_loop (suc fuel) ip bytes from inode_blockno nbytes =
    let rest =
      write_loop fuel ip bytes (from + bsize) ((inode_blockno + 1) % 2 ^ 32) (nbytes - bsize) in
    if ltb bsize nbytes
    then (do
      restart_op_on ip (maxopblocks - 1 - 3 - 1)
      write_block ip inode_blockno bytes from 0 bsize
      rest)
    else pure (from, inode_blockno, nbytes)

-- `get_current_timespec(&ip->st_atimespec); ip->st_mtimespec = ip->st_atimespec;`
abbrev pub touch : ℕ → Cmd (Unit {0})
touch ip = do m ← state; edit ip (λ n. record n { atime = m.now; mtime = m.now })

unfoldable pub inode_write_nbytes_locked : ℕ → Block → ℕ → ℕ → Cmd ℕ
unfolding write_loop
inode_write_nbytes_locked ip bytes nbytes0 off = if ltb maxfile_size off then pure 0 else (do
  let nbytes = clip off nbytes0 maxfile_size
  let end = (off + nbytes) % 2 ^ 64
  edit ip (λ n. record n { size = if ltb n.size end then end else n.size })
  iupdate ip
  let inode_block_start = off / bsize % 2 ^ 32
  let from_start = off % bsize
  let n_left = bsize - from_start
  restart_op_on ip (maxopblocks - 1 - 3 - 1)
  write_block ip inode_block_start bytes 0 from_start (min n_left nbytes)
  if leb nbytes n_left then (do touch ip; iupdate ip; pure nbytes) else (do
    rest ←
        write_loop (nbytes / bsize) ip bytes n_left ((inode_block_start + 1) % 2 ^ 32)
          (nbytes - n_left)
    let (from, inode_blockno, left) = rest
    restart_op_on ip (maxopblocks - 3 - 1)
    if left == 0 then pure tt else write_block ip inode_blockno bytes from 0 left
    touch ip
    iupdate ip
    pure nbytes))

-- one block read: `n` bytes from `from` on, to `bytes + to`
unfoldable pub read_block : ℕ → ℕ → Block → ℕ → ℕ → ℕ → Cmd Block
read_block ip inode_blockno bytes to from n = do
  bp ← imap2blockno ip inode_blockno
  logged_read bp
  d ← buf_data bp
  logged_relse bp
  pure (copy_bytes bytes to d from n)

-- a round of the loop over whole blocks; `rest` is what follows it
unfoldable pub read_round :
    ℕ → Block → ℕ → ℕ → (Block → Cmd (Block × ℕ × ℕ × ℕ)) → Cmd (Block × ℕ × ℕ × ℕ)
read_round ip bytes to inode_blockno rest = do
  restart_op_on ip (maxopblocks - 1 - 3)
  bytes' ← read_block ip inode_blockno bytes to 0 bsize
  rest bytes'

unfoldable pub read_loop : ℕ → ℕ → Block → ℕ → ℕ → ℕ → Cmd (Block × ℕ × ℕ × ℕ)
read_loop zero ip bytes to inode_blockno nbytes = pure (bytes, to, inode_blockno, nbytes)
read_loop (suc fuel) ip bytes to inode_blockno nbytes =
    if ltb bsize nbytes
    then read_round ip bytes to inode_blockno (λ bytes'.
      read_loop fuel ip bytes' (to + bsize) ((inode_blockno + 1) % 2 ^ 32) (nbytes - bsize))
    else pure (bytes, to, inode_blockno, nbytes)

-- With the caller's array as it is afterwards.
unfoldable pub inode_read_nbytes_locked : ℕ → Block → ℕ → ℕ → Cmd (ℕ × Block)
unfolding read_loop
inode_read_nbytes_locked ip bytes nbytes0 off = do
  n ← inode_of ip
  if ltb n.size off then pure (0, bytes) else (do
    let nbytes = clip off nbytes0 n.size
    let inode_block_start = off / bsize % 2 ^ 32
    let from_start = off % bsize
    let n_left = bsize - from_start
    data1 ← read_block ip inode_block_start bytes 0 from_start (min n_left nbytes)
    m ← state
    if leb nbytes n_left
        then (do edit ip (λ n. record n { atime = m.now }); iupdate ip; pure (nbytes, data1))
        else (do
          rest ←
              read_loop (nbytes / bsize) ip data1 n_left ((inode_block_start + 1) % 2 ^ 32)
                (nbytes - n_left)
          let (data2, to, inode_blockno, left) = rest
          data3 ←
              (if left == 0 then pure data2 else (do
                restart_op_on ip (maxopblocks - 1 - 3)
                read_block ip inode_blockno data2 to 0 left))
          iupdate ip
          edit ip (λ n. record n { atime = m.now })
          pure (nbytes, data3)))

unfoldable pub inode_write_nbytes_unlocked : ℕ → Block → ℕ → ℕ → Cmd ℕ
inode_write_nbytes_unlocked ip bytes count off = do
  begin_op
  ilock ip
  nbytes ← inode_write_nbytes_locked ip bytes count off
  iunlock ip
  end_op
  pure nbytes

unfoldable pub inode_read_nbytes_unlocked : ℕ → Block → ℕ → ℕ → Cmd (ℕ × Block)
inode_read_nbytes_unlocked ip bytes count off = do
  begin_op
  ilock ip
  r ← inode_read_nbytes_locked ip bytes count off
  iunlock ip
  end_op
  pure r

-- What `stat_inode` sets of `struct stat`.
pub record Stat : Type 0 where
  pub st_mode : ℕ
  pub st_nlink : ℕ
  pub st_size : ℕ
  pub st_ino : ℕ
  pub st_blksize : ℕ
  pub st_atim : TimeSpec
  pub st_ctim : TimeSpec
  pub st_mtim : TimeSpec

-- `-ENOENT` as an `int`
abbrev pub minus_enoent : ℕ
minus_enoent = 2 ^ 32 - 2

-- a `short` as an `nlink_t`, which has 64 bits
abbrev pub to_nlink : ℕ → ℕ
to_nlink n = if ltb n (2 ^ 15) then n else n + (2 ^ 64 - 2 ^ 16)

unfoldable pub stat_inode : Inode → Stat → ℕ × Stat
stat_inode ip st =
    let st' : Stat = record {
      st_mode = st.st_mode;
      st_nlink = to_nlink ip.nlink;
      st_size = ip.size;
      st_ino = ip.inum;
      st_blksize = bsize;
      st_atim = ip.atime;
      st_ctim = ip.ctime;
      st_mtim = ip.mtime;
    } in
    if ip.kind == t_dir
    then (0, record st' { st_mode = bit_or 16384 ip.perm })
    else if ip.kind == t_file
    then (0, record st' { st_mode = bit_or 32768 ip.perm })
    else if ip.kind == t_device
    then (minus_enoent, st')
    else (minus_enoent, st')

unfoldable pub stat_inum : ℕ → Stat → Cmd (ℕ × Stat)
stat_inum inum st = do
  ip ← iget inum
  ilock ip
  n ← inode_of ip
  let res = stat_inode n st
  iunlockput ip
  pure res
