-- ===== src/File/Link.antt =====
-- Directories' entries, src/file.c: `myfuse_mkdir`, `myfuse_unlink`, `myfuse_rmdir`,
-- `myfuse_rename`.
use myfuse.Common.{
  ℕ, zero, suc, ◌+◌, ◌-◌, ◌%◌, ◌^◌, Bool, true, false, ◌==◌, ltb, not, ◌&&◌, if◌then◌else◌, Option,
  none, some, List,
}
use myfuse.Params.{direntsize, t_dir}
use myfuse.Machine.{Cmd, fault, pure, ◌>>=◌, ◌>>◌, state, err_exit}
use myfuse.Machine.Block.{Block, get32, zeros}
use myfuse.Log.Op.{begin_op, end_op}
use myfuse.Inode.Table.{edit, inode_of, ialloc, ilock, iunlock, iupdate}
use myfuse.Inode.Trunc.{iput, iunlockput}
use myfuse.Inode.Content.{inode_read_nbytes_locked, inode_write_nbytes_locked}
use myfuse.Directory.Entries.{path2inode, path2parentinode, dirlookup, dirlink, entries}
use myfuse.File.Table.{deref, ilock?}
use myfuse.File.Errno.{enoent, eexist, enotempty, in_mask, rename_noreplace, rename_exchange}

-- A name that is there already: the parent directory stays locked, with its reference.
unfoldable pub myfuse_mkdir : List ℕ → ℕ → Cmd ℕ
myfuse_mkdir path mode = do
  begin_op
  found ← path2parentinode path zeros
  let (dp, name) = found
  ip ← ialloc t_dir
  ilock ip
  ilock? dp
  deref dp (λ dp. do
    n ← inode_of ip
    linked ← dirlink dp name n.inum
    if not linked then (do iunlockput ip; end_op; pure eexist) else (do
      iunlockput dp
      m ← state
      edit ip
          (λ n. record n { nlink = 1; perm = mode; atime = m.now; mtime = m.now; ctime = m.now })
      iupdate ip
      iunlockput ip
      end_op
      pure 0))

-- `inode_write_nbytes_locked(dp, &zero_de, sizeof(zero_de), poff)`
unfoldable pub erase_entry : ℕ → ℕ → Cmd (Unit {0})
erase_entry dp poff = inode_write_nbytes_locked dp zeros direntsize poff >>= λ _. pure tt

abbrev pub drop_link : ℕ → Cmd (Unit {0})
drop_link ip = edit ip (λ n. record n { nlink = (n.nlink + (2 ^ 16 - 1)) % 2 ^ 16 })

-- the entry erased when the last link goes, with the reference that `dirlookup` took given back
unfoldable pub unlink_found : ℕ → Block → Cmd (Unit {0})
unlink_found dp name = do
  entry ← dirlookup dp name
  elim entry [ none ↦ pure tt | some (found_ip, poff) ↦ (do erase_entry dp poff; iput found_ip) ]

unfoldable pub myfuse_unlink : List ℕ → Cmd ℕ
myfuse_unlink path = do
  begin_op
  found ← path2inode path
  elim found [
    | none ↦ (do end_op; pure enoent)
    | some ip ↦ (do
      parent ← path2parentinode path zeros
      let (dp?, name) = parent
      ilock? dp?
      deref dp? (λ dp. do
        ilock ip
        n ← inode_of ip
        if n.nlink == 0 then (do iunlockput dp; iunlockput ip; end_op; pure enoent) else (do
          drop_link ip
          n ← inode_of ip
          if not (n.nlink == 0) then pure tt else unlink_found dp name
          iupdate ip
          iunlockput ip
          iunlockput dp
          end_op
          pure 0)))
  ]

-- Whether one of `k` more entries from `off` on is in use.
unfoldable pub some_entry : Block → ℕ → ℕ → ℕ → Cmd Bool
some_entry buf size zero off = pure false
some_entry buf size (suc k) off =
    let rest = some_entry buf size k (off + direntsize) in
    if ltb size (off + 4) then (λ _. fault) else if get32 buf off == 0 then rest else pure true

-- Reads the directory and looks for an entry in use.
unfoldable pub has_entries : ℕ → Cmd Bool
has_entries ip = do
  n ← inode_of ip
  if n.size == 0 then pure false else (do
    r ← inode_read_nbytes_locked ip zeros n.size 0
    let (got, buf) = r
    n ← inode_of ip
    if got == n.size then pure tt else (do iunlockput ip; end_op; err_exit)
    some_entry buf n.size (entries n.size) 0)

-- The reference that `dirlookup` takes is not given back.
unfoldable pub rmdir_found : ℕ → Block → Cmd (Unit {0})
rmdir_found dp name = do
  entry ← dirlookup dp name
  elim entry [ none ↦ pure tt | some (found_ip, poff) ↦ erase_entry dp poff ]

unfoldable pub myfuse_rmdir : List ℕ → Cmd ℕ
myfuse_rmdir path = do
  begin_op
  found ← path2inode path
  elim found [
    | none ↦ (do end_op; pure enoent)
    | some ip ↦ (do
      ilock ip
      full ← has_entries ip
      if full then (do iunlockput ip; end_op; pure enotempty) else (do
        parent ← path2parentinode path zeros
        let (dp?, name) = parent
        ilock? dp?
        deref dp? (λ dp. do
          drop_link ip
          n ← inode_of ip
          if not (n.nlink == 0) then pure tt else rmdir_found dp name
          iupdate ip
          iunlockput dp
          iunlockput ip
          end_op
          pure 0)))
  ]

-- `iput(dirlookup(dp, name, &poff))`, and the entry erased; a name that is not there is a null
-- pointer that is followed.
unfoldable pub unlink_entry : ℕ → Block → Cmd (Unit {0})
unlink_entry dp name = do
  entry ← dirlookup dp name
  elim entry [
    | none ↦ (λ _. fault)
    | some (found_ip, poff) ↦ (do iput found_ip; erase_entry dp poff)
  ]

-- `if (ip != NULL) iput(ip);`
unfoldable pub iput_some : Option ℕ → Cmd (Unit {0})
iput_some none = pure tt
iput_some (some ip) = iput ip

-- The target is a file. Without RENAME_EXCHANGE and RENAME_NOREPLACE nothing is linked.
unfoldable pub rename_onto : ℕ → Option ℕ → Block → ℕ → ℕ → Block → ℕ → Cmd ℕ
rename_onto target_ip target_dp? target_name from_ip from_dp from_name flags =
    if in_mask flags rename_exchange
    then (do
      ilock? target_dp?
      deref target_dp? (λ target_dp. do
        ilock target_ip
        unlink_entry target_dp target_name
        n ← inode_of from_ip
        a ← dirlink target_dp from_name n.inum
        t ← inode_of target_ip
        b ← dirlink from_dp from_name t.inum
        iunlock target_ip
        iunlock target_dp
        pure 0))
    else pure (if in_mask flags rename_noreplace then eexist else 0)

-- The links to the target, once the source is unlinked.
unfoldable pub rename_link : Option ℕ → Option ℕ → Block → ℕ → ℕ → Block → ℕ → Cmd ℕ
rename_link none target_dp? target_name from_ip from_dp from_name flags = do
  ilock? target_dp?
  deref target_dp? (λ target_dp. do
    n ← inode_of from_ip
    linked ← dirlink target_dp target_name n.inum
    iunlock target_dp
    pure 0)
rename_link (some target_ip) target_dp? target_name from_ip from_dp from_name flags = do
  t ← inode_of target_ip
  if t.kind == t_dir
      then (do
        ilock target_ip
        n ← inode_of from_ip
        linked ← dirlink target_ip from_name n.inum
        iunlock target_ip
        pure 0)
      else rename_onto target_ip target_dp? target_name from_ip from_dp from_name flags

-- the source is there
unfoldable pub rename_from : Option ℕ → Option ℕ → Block → ℕ → ℕ → Block → ℕ → Cmd ℕ
rename_from target_ip target_dp target_name from_ip from_dp from_name flags = do
  ilock from_ip
  ilock from_dp
  unlink_entry from_dp from_name
  iunlock from_dp
  iunlock from_ip
  res ← rename_link target_ip target_dp target_name from_ip from_dp from_name flags
  iput_some target_ip
  iput_some target_dp
  iput from_ip
  iput from_dp
  end_op
  pure res

abbrev pub is_null : Option ℕ → Bool
is_null none = true
is_null (some ip) = false

-- A name that is missing leaves the operation open, with the references that were taken.
unfoldable pub myfuse_rename : List ℕ → List ℕ → ℕ → Cmd ℕ
myfuse_rename from target flags = do
  begin_op
  target_ip ← path2inode target
  t ← path2parentinode target zeros
  from_ip ← path2inode from
  f ← path2parentinode from zeros
  let (target_dp, target_name) = t
  let (from_dp, from_name) = f
  if is_null target_ip && is_null target_dp then pure enoent else elim from_ip [
    | none ↦ pure enoent
    | some ip ↦ elim from_dp [
      | none ↦ pure enoent
      | some dp ↦ rename_from target_ip target_dp target_name ip dp from_name flags
    ]
  ]
