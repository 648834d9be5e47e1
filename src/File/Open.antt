-- ===== src/File/Open.antt =====
-- Opening, creating, reading, writing and closing files, src/file.c: `myfuse_open`,
-- `myfuse_create`, `myfuse_read`, `myfuse_write`, `myfuse_release`.
use myfuse.Common.{
  ℕ, ◌+◌, ◌%◌, ◌^◌, Bool, true, false, not, if◌then◌else◌, Option, none, some, List,
}
use myfuse.Params.{t_file}
use myfuse.Machine.{Cmd, pure, ◌>>=◌, ◌>>◌, state, err_exit}
use myfuse.Machine.Block.{Block, zeros}
use myfuse.Log.Op.{begin_op, end_op}
use myfuse.Inode.Table.{edit, inode_of, ialloc, ilock, iunlock, iupdate}
use myfuse.Inode.Trunc.{iunlockput}
use myfuse.Inode.Content.{inode_read_nbytes_unlocked, inode_write_nbytes_unlocked}
use myfuse.Directory.Entries.{path2inode, path2parentinode, dirlink}
use myfuse.File.Table.{fd_inode, edit_file, file_of, deref, filealloc, fileclose}
use myfuse.File.Errno.{enoent, in_mask, o_rdonly, o_wronly, o_rdwr, o_creat, s_ifreg}

-- `file->readable` and `file->writable`, by the tests of `flags`
unfoldable pub access_of : ℕ → Bool × Bool
unfolding in_mask
access_of flags =
    if in_mask flags o_rdonly
    then (true, false)
    else if in_mask flags o_wronly
    then (false, true)
    else if in_mask flags o_rdwr
    then (true, true)
    else (true, true)

-- `file = filealloc(); file->type = …; file->ip = …; file->readable = …; file->writable = …`
unfoldable pub open_file : ℕ → ℕ → Cmd ℕ
unfolding access_of
open_file ip flags = do
  file ← filealloc
  edit_file file (λ x. record x {
    kind = fd_inode;
    ip = some ip;
    readable = (access_of flags).0;
    writable = (access_of flags).1;
  })
  pure file

abbrev pub add16 : ℕ → ℕ → ℕ
add16 a b = (a + b) % 2 ^ 16

-- The branch of `myfuse_open` that creates the file: the new inode, or no parent directory. The new
-- inode's link count is raised before the inode is read, and the directory is written before it is
-- locked.
unfoldable pub open_new : List ℕ → Cmd (Option ℕ)
open_new path = do
  found ← path2parentinode path zeros
  let (dir, filename) = found
  elim dir [
    | none ↦ (do end_op; pure none)
    | some dir_inode ↦ (do
      file_inode ← ialloc t_file
      edit file_inode (λ n. record n { nlink = add16 n.nlink 1 })
      iupdate dir_inode
      ilock dir_inode
      n ← inode_of file_inode
      linked ← dirlink dir_inode filename n.inum
      iunlockput dir_inode
      pure (some file_inode))
  ]

-- what `myfuse_open` does with the inode
unfoldable pub open_inode : ℕ → ℕ → Cmd (ℕ × Option ℕ)
open_inode file_inode flags = do
  ilock file_inode
  file ← open_file file_inode flags
  iunlock file_inode
  end_op
  pure (0, some file)

-- With `fi->fh`. A file that is not there and is not to be created leaves the operation open.
unfoldable pub myfuse_open : List ℕ → ℕ → Option ℕ → Cmd (ℕ × Option ℕ)
myfuse_open path flags fh = do
  begin_op
  found ← path2inode path
  elim found [
    | some file_inode ↦ open_inode file_inode flags
    | none ↦ if not (in_mask flags o_creat) then pure (enoent, fh) else (do
      made ← open_new path
      elim made [ none ↦ pure (enoent, fh) | some file_inode ↦ open_inode file_inode flags ])
  ]

unfoldable pub release_internal : Option (Option ℕ) → Cmd (Option (Option ℕ))
release_internal none = pure none
release_internal (some none) = pure (some none)
release_internal (some (some file)) = do fileclose file; pure (some none)

unfoldable pub myfuse_release : Option (Option ℕ) → Cmd (ℕ × Option (Option ℕ))
myfuse_release fi = release_internal fi >>= λ fi'. pure (0, fi')

unfoldable pub myfuse_releasedir : Option (Option ℕ) → Cmd (ℕ × Option (Option ℕ))
myfuse_releasedir fi = release_internal fi >>= λ fi'. pure (0, fi')

-- The results are cut to an `int`.
unfoldable pub myfuse_read : Block → ℕ → ℕ → ℕ → Cmd (ℕ × Block)
myfuse_read buf size offset f = do
  file ← file_of f
  deref file.ip (λ ip. do
    r ← inode_read_nbytes_unlocked ip buf size offset
    let (nbytes, buf') = r
    pure (nbytes % 2 ^ 32, buf'))

unfoldable pub myfuse_write : Block → ℕ → ℕ → ℕ → Cmd ℕ
myfuse_write buf size offset f = do
  file ← file_of f
  deref file.ip
      (λ ip. do nbytes ← inode_write_nbytes_unlocked ip buf size offset; pure (nbytes % 2 ^ 32))

-- The access mode is taken from `mode`, and not from `fi->flags`.
unfoldable pub myfuse_create : List ℕ → ℕ → Option ℕ → Cmd (ℕ × Option ℕ)
myfuse_create path mode fh = do
  if not (in_mask mode s_ifreg) then err_exit else pure tt
  begin_op
  found ← path2parentinode path zeros
  let (dir, filename) = found
  elim dir [
    | none ↦ (do end_op; pure (enoent, fh))
    | some dir_inode ↦ (do
      file_inode ← ialloc t_file
      ilock file_inode
      m ← state
      edit file_inode (λ n. record n {
        nlink = add16 n.nlink 1;
        perm = mode % 512;
        atime = m.now;
        mtime = m.now;
        ctime = m.now;
      })
      iupdate file_inode
      ilock dir_inode
      n ← inode_of file_inode
      linked ← dirlink dir_inode filename n.inum
      iunlockput dir_inode
      file ← open_file file_inode mode
      iunlock file_inode
      end_op
      pure (0, some file))
  ]
