-- ===== src/Directory/Entries.antt =====
-- Directories, src/directory.c: the entries of a directory and the walk along a path. The null
-- pointer is `none`.
use myfuse.Common.{
  ltb, ◌-◌, ℕ, zero, suc, ◌+◌, ◌/◌, Bool, true, false, Option, none, some, List, [], ◌∷◌, ◌==◌, not,
  ◌&&◌, if◌then◌else◌, length,
}
use myfuse.Params.{dirsize, direntsize, t_dir}
use myfuse.Machine.{Cmd, fault, pure, ◌>>=◌, ◌>>◌, wait, err_exit}
use myfuse.Machine.Block.{Block, get32, set32, zeros, copy_bytes}
use myfuse.Inode.Table.{inode_of, iget, ilock, iunlock}
use myfuse.Inode.Trunc.{iput, iunlockput}
use myfuse.Inode.Content.{inode_read_nbytes_locked, inode_write_nbytes_locked}
use myfuse.Directory.Path.{slash, skipelem, dirnamecmp}

-- `de->name`
abbrev pub name_at : Block → ℕ → Block
name_at buf off j = buf (off + 4 + j)

-- The loop over the entries of an array of `size` bytes, for `k` more: the offset and inode number
-- of the entry `name`. To read beyond the end of the array is an access beyond it; an entry that the
-- end cuts off is passed over if its number is 0.
unfoldable pub find_entry : Block → ℕ → Block → ℕ → ℕ → Cmd (Option (ℕ × ℕ))
find_entry buf size name zero off = pure none
find_entry buf size name (suc k) off =
    let rest = find_entry buf size name k (off + direntsize) in
    let inum = get32 buf off in
    if ltb size (off + 4)
    then (λ _. fault)
    else if inum == 0
    then rest
    else if ltb size (off + direntsize)
    then (λ _. fault)
    else if dirnamecmp (name_at buf off) name
    then pure (some (off, inum))
    else rest

-- The offset of the first unused entry among `k` more, or the offset after them.
unfoldable pub find_unused : Block → ℕ → ℕ → ℕ → Cmd ℕ
find_unused buf size zero off = pure off
find_unused buf size (suc k) off =
    let rest = find_unused buf size k (off + direntsize) in
    if ltb size (off + 4) then (λ _. fault) else if get32 buf off == 0 then pure off else rest

-- how often `for (int off = 0; off < size; off += sizeof(*de))` runs
abbrev pub entries : ℕ → ℕ
entries size = (size + (direntsize - 1)) / direntsize

-- Reads the whole directory.
unfoldable pub read_dir : ℕ → Cmd (ℕ × Block)
read_dir dp = do
  n ← inode_of dp
  r ← inode_read_nbytes_locked dp zeros n.size 0
  let (got, buf) = r
  if got == n.size then pure tt else err_exit
  pure (n.size, buf)

-- With the offset that it leaves in `*poff`.
unfoldable pub dirlookup : ℕ → Block → Cmd (Option (ℕ × ℕ))
dirlookup dp name = do
  r ← read_dir dp
  let (size, buf) = r
  found ← find_entry buf size name (entries size) 0
  elim found [ none ↦ pure none | some (off, inum) ↦ iget inum >>= λ ip. pure (some (ip, off)) ]

-- `strncpy(de->name, name, DIRSIZE)`: the rest is filled with NUL.
unfoldable pub strncpy : Block → ℕ → ℕ → Block
strncpy name zero i j = 0
strncpy name (suc k) i j =
    let rest = strncpy name k (i + 1) j in
    if name i == 0 then 0 else if j == i then name i else rest

unfoldable pub dirent_of : Block → ℕ → Block
dirent_of name inum = set32 (copy_bytes zeros 4 (strncpy name dirsize 0) 0 dirsize) 0 inum

-- All of `*de` is overwritten, so that it does not matter which entry it was.
unfoldable pub dirlink : ℕ → Block → ℕ → Cmd Bool
dirlink dp name inum = do
  found ← dirlookup dp name
  elim found [
    | some (ip, off) ↦ iput ip >> pure false
    | none ↦ (do
      n ← inode_of dp
      off ←
          (if n.size == 0
            then pure 0
            else (do r ← read_dir dp; let (size, buf) = r; find_unused buf size (entries size) 0))
      done ← inode_write_nbytes_locked dp (dirent_of name inum) direntsize off
      if done == direntsize then pure true else err_exit)
  ]

-- A round of the loop of `namex`, with what `skipelem` left; `rest` is what follows it.
unfoldable pub namex_round :
    ℕ → List ℕ → Bool → Block → (ℕ → Cmd (Option ℕ × Block)) → Cmd (Option ℕ × Block)
namex_round ip path nameiparent name rest = do
  ilock ip
  n ← inode_of ip
  if not (n.kind == t_dir)
      then iunlockput ip >> pure (none, name)
      else if nameiparent && length path == 0
      then iunlock ip >> pure (some ip, name)
      else (do
        next ← dirlookup ip name
        elim next [
          | none ↦ iunlockput ip >> pure (none, name)
          | some (next, off) ↦ iunlockput ip >> rest next
        ])

-- The loop, with the number of elements as fuel.
unfoldable pub namex_loop : ℕ → ℕ → List ℕ → Bool → Block → Cmd (Option ℕ × Block)
namex_loop zero ip path nameiparent name = wait
namex_loop (suc fuel) ip path nameiparent name = elim (skipelem path name) [
  | none ↦ if nameiparent then iput ip >> pure (none, name) else pure (some ip, name)
  | some (path, name) ↦
      namex_round ip path nameiparent name (λ next. namex_loop fuel next path nameiparent name)
]

-- `ROOTINO`
abbrev pub rootino : ℕ
rootino = 1

unfoldable pub namex : List ℕ → Bool → Block → Cmd (Option ℕ × Block)
namex path nameiparent name =
    if char_at_start path == slash
    then (iget rootino >>= λ ip. namex_loop (suc (length path)) ip path nameiparent name)
    else err_exit
  where
    char_at_start : List ℕ → ℕ
    char_at_start [] = 0
    char_at_start (c ∷ path) = c

unfoldable pub path2inode : List ℕ → Cmd (Option ℕ)
path2inode path = namex path false zeros >>= λ r. pure r.0

unfoldable pub path2parentinode : List ℕ → Block → Cmd (Option ℕ × Block)
path2parentinode path name = namex path true name
