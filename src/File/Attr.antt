-- ===== src/File/Attr.antt =====
-- Attributes and directories, src/file.c: `filestat`, `myfuse_getattr`, `myfuse_readdir`,
-- `myfuse_opendir`, `myfuse_truncate`, `myfuse_access`, `myfuse_chmod`, `myfuse_lseek`,
-- `myfuse_statfs`.
use myfuse.Common.{
  ℕ, zero, suc, ◌+◌, ◌%◌, ◌^◌, ◌==◌, ltb, not, if◌then◌else◌, Option, none, some, List, [], ◌∷◌,
}
use myfuse.Params.{bsize, dirsize, direntsize, t_dir}
use myfuse.Machine.{Cmd, fault, pure, ◌>>=◌, ◌>>◌, state, err_exit}
use myfuse.Machine.Block.{Block, get32, zeros}
use myfuse.Log.Op.{begin_op, end_op}
use myfuse.Alloc.{count_free}
use myfuse.Inode.Table.{edit, inode_of, ilock, iunlock, iupdate}
use myfuse.Inode.Trunc.{itrunc2size, iput, iunlockput}
use myfuse.Inode.Content.{inode_read_nbytes_locked, Stat, stat_inode, stat_inum}
use myfuse.Directory.Entries.{path2inode, entries}
use myfuse.File.Table.{fd_inode, edit_file, file_of, deref, ilock?, filealloc}
use myfuse.File.Errno.{enoent, enotdir, eisdir, einval}

unfoldable pub filestat : ℕ → Stat → Cmd (ℕ × Stat)
filestat f st = do
  x ← file_of f
  if x.kind == fd_inode
      then (do
        begin_op
        ilock? x.ip
        res ← deref x.ip (λ ip. do n ← inode_of ip; pure (stat_inode n st))
        deref x.ip iunlock
        end_op
        pure res)
      else err_exit

unfoldable pub myfuse_getattr : List ℕ → Stat → Cmd (ℕ × Stat)
myfuse_getattr path stbuf = do
  begin_op
  found ← path2inode path
  elim found [
    | none ↦ (do end_op; pure (enoent, stbuf))
    | some ip ↦ (do
      ilock ip
      n ← inode_of ip
      let res = stat_inode n stbuf
      iunlockput ip
      end_op
      pure res)
  ]

-- `strcpy` of a name into `char file_name[DIRSIZE + 1]`, for `k` more of its bytes. The string goes
-- on over the end of an entry whose name has no NUL; `none` is an access beyond either array.
unfoldable pub copy_name : Block → ℕ → ℕ → ℕ → Option (List ℕ)
copy_name buf size zero pos = none
copy_name buf size (suc k) pos =
    let rest = copy_name buf size k (pos + 1) in
    if not (ltb pos size)
    then none
    else if buf pos == 0
    then some []
    else elim rest [ none ↦ none | some s ↦ some (buf pos ∷ s) ]

-- `filler`, with the state of `buf`: what FUSE does with an entry, and whether it stops.
abbrev pub Filler : Type 0 → Type 0
Filler X = X → List ℕ → Stat → ℕ × X

unfoldable pub stat_entry : ℕ → ℕ → Stat → Cmd (ℕ × Stat)
stat_entry dp inum st = do
  n ← inode_of dp
  if inum == n.inum then pure (stat_inode n st) else stat_inum inum st

-- The loop over the entries, for `k` more.
unfoldable pub readdir_loop : {X : Type 0} → Filler X → ℕ → Block → ℕ → ℕ → ℕ → Stat → X → Cmd X
readdir_loop {X} filler dp buf size zero off st x = pure x
readdir_loop {X} filler dp buf size (suc k) off st x =
    let rest = λ (st : Stat) (x : X). readdir_loop filler dp buf size k (off + direntsize) st x in
    let inum = get32 buf off in
    if ltb size (off + 4)
    then (λ _. fault)
    else if inum == 0
    then rest st x
    else elim (copy_name buf size (dirsize + 1) (off + 4)) [
      | none ↦ (λ _. fault)
      | some name ↦ (do
        r ← stat_entry dp inum st
        let (res, st') = r
        if res == 0
            then (let (stop, x') = filler x name st' in if stop == 0 then rest st' x' else pure x')
            else rest st' x)
    ]

-- what `myfuse_readdir` does with the directory
unfoldable pub readdir_inode : {X : Type 0} → Filler X → ℕ → Stat → X → Cmd (ℕ × X)
readdir_inode filler dp st x = do
  ilock dp
  n ← inode_of dp
  r ← inode_read_nbytes_locked dp zeros n.size 0
  let (got, buf) = r
  n ← inode_of dp
  if got == n.size then pure tt else (do iunlock dp; end_op; err_exit)
  x' ← readdir_loop filler dp buf n.size (entries n.size) 0 st x
  iunlock dp
  end_op
  pure (0, x')

-- The argument after `filler` is `fi->fh`, if `fi` is not null; `st` is on the stack.
unfoldable pub myfuse_readdir : {X : Type 0} → Filler X → Option ℕ → Stat → X → Cmd (ℕ × X)
myfuse_readdir filler none st x = pure (enoent, x)
myfuse_readdir filler (some f) st x = do
  begin_op
  file ← file_of f
  elim file.ip [ none ↦ (do end_op; pure (enoent, x)) | some dp ↦ readdir_inode filler dp st x ]

-- With `fi->fh`.
unfoldable pub myfuse_opendir : List ℕ → Option ℕ → Cmd (ℕ × Option ℕ)
myfuse_opendir path fh = do
  begin_op
  found ← path2inode path
  elim found [
    | none ↦ (do end_op; pure (enoent, fh))
    | some dir_inode ↦ (do
      ilock dir_inode
      n ← inode_of dir_inode
      if not (n.kind == t_dir) then (do iunlockput dir_inode; end_op; pure (enotdir, fh)) else (do
        file ← filealloc
        edit_file file (λ x. record x { kind = fd_inode; ip = some dir_inode })
        iunlock dir_inode
        end_op
        pure (0, some file)))
  ]

-- The type is read before the inode is locked.
unfoldable pub myfuse_truncate : List ℕ → ℕ → Cmd ℕ
myfuse_truncate path size = do
  begin_op
  found ← path2inode path
  elim found [
    | none ↦ (do end_op; pure enoent)
    | some ip ↦ (do
      n ← inode_of ip
      if n.kind == t_dir
          then (do end_op; pure eisdir)
          else (do ilock ip; itrunc2size ip size; iunlockput ip; end_op; pure 0))
  ]

unfoldable pub myfuse_access : List ℕ → ℕ → Cmd ℕ
myfuse_access path mask = do
  begin_op
  found ← path2inode path
  elim found [ none ↦ pure enoent | some ip ↦ (do iput ip; end_op; pure 0) ]

unfoldable pub myfuse_chmod : List ℕ → ℕ → Cmd ℕ
myfuse_chmod path mode = do
  begin_op
  found ← path2inode path
  elim found [
    | none ↦ pure enoent
    | some ip ↦ (do
      ilock ip
      edit ip (λ n. record n { perm = mode % 512 })
      iupdate ip
      iunlockput ip
      end_op
      pure 0)
  ]

-- The offsets are 64-bit patterns; `whence` is SEEK_SET, SEEK_CUR or SEEK_END.
unfoldable pub myfuse_lseek : ℕ → ℕ → ℕ → Cmd ℕ
myfuse_lseek off whence f = do
  x ← file_of f
  ilock? x.ip
  let put = λ (v : ℕ). edit_file f (λ x. record x { off = v }) >> pure v
  result ←
      (if whence == 0
        then put off
        else if whence == 1
        then put ((x.off + off) % 2 ^ 64)
        else if whence == 2
        then deref x.ip (λ ip. do n ← inode_of ip; put ((n.size + off) % 2 ^ 64))
        else pure einval)
  deref x.ip iunlock
  pure result

-- What `myfuse_statfs` sets of `struct statvfs`.
pub record StatVfs : Type 0 where
  pub f_blocks : ℕ
  pub f_bsize : ℕ
  pub f_bfree : ℕ
  pub f_fsid : ℕ
  pub f_namemax : ℕ

unfoldable pub myfuse_statfs : Cmd (ℕ × StatVfs)
unfolding count_free
myfuse_statfs = do
  m ← state
  pure (
    0,
    record {
      f_blocks = m.sb.nblocks;
      f_bsize = bsize;
      f_bfree = count_free m.bmap m.sb.size 0;
      f_fsid = 1667917427;
      f_namemax = dirsize;
    },
  )
