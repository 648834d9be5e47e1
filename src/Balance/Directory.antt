-- ===== src/Balance/Directory.antt =====
-- Directories and paths (src/directory.c) leave the count of operations under way alone.
use myfuse.Common.{
  ℕ, zero, suc, ◌+◌, ◌==◌, ltb, ◌&&◌, Bool, true, not, List, Option, none, some, length,
}
use myfuse.Params.{direntsize, t_dir}
use myfuse.Machine.{Cmd}
use myfuse.Machine.Block.{Block, get32}
use myfuse.Machine.Keeps.{Keeps, keeps, keeps_bind, keeps_pure, keeps_if, keeps_fault, keeps_wait}
use myfuse.Directory.Path.{skipelem, dirnamecmp}
use myfuse.Inode.Content.{Stat, stat_inum}
use myfuse.Directory.Entries.{
  name_at, find_entry, find_unused, entries, read_dir, dirlookup, dirlink, namex_round, namex_loop,
  namex, path2inode, path2parentinode,
}
use myfuse.Balance.Log.{held}
use myfuse.Balance.Rules.{parts, option_kept, inode_of_kept}
use myfuse.Balance.Inode.{iget_kept, ilock_kept, iunlock_kept}
use myfuse.Balance.Blocks.{iput_kept, iunlockput_kept, write_nbytes_kept, read_nbytes_kept}

find_entry_kept :
    (buf : Block) (size : ℕ) (name : Block) (k off : ℕ)
    → Keeps held (find_entry buf size name k off)
unfolding find_entry
find_entry_kept buf size name zero off = keeps_pure none
find_entry_kept buf size name (suc k) off =
    let rest = find_entry_kept buf size name k (off + direntsize) in
    keeps_if (ltb size (off + 4)) keeps_fault (
      keeps_if (get32 buf off == 0) rest (
        keeps_if (ltb size (off + direntsize)) keeps_fault
          (keeps_if (dirnamecmp (name_at buf off) name) (keeps_pure _) rest)))

find_unused_kept : (buf : Block) (size k off : ℕ) → Keeps held (find_unused buf size k off)
unfolding find_unused
find_unused_kept buf size zero off = keeps_pure off
find_unused_kept buf size (suc k) off =
    let rest = find_unused_kept buf size k (off + direntsize) in
    keeps_if (ltb size (off + 4)) keeps_fault (keeps_if (get32 buf off == 0) (keeps_pure off) rest)

pub read_dir_kept : (dp : ℕ) → Keeps held (read_dir dp)
unfolding read_dir
read_dir_kept dp = search (keeps, parts, read_nbytes_kept) depth 20

pub dirlookup_kept : (dp : ℕ) (name : Block) → Keeps held (dirlookup dp name)
unfolding dirlookup
dirlookup_kept dp name = keeps_bind (read_dir_kept dp) λ r.
    keeps_bind (find_entry_kept r.1 r.0 name (entries r.0) 0)
      λ found. option_kept found (keeps_pure none) (λ e. search (keeps, iget_kept))

pub dirlink_kept : (dp : ℕ) (name : Block) (inum : ℕ) → Keeps held (dirlink dp name inum)
unfolding dirlink
dirlink_kept dp name inum = keeps_bind (dirlookup_kept dp name) λ found.
    option_kept found
      (search (keeps, parts, read_dir_kept, find_unused_kept, write_nbytes_kept) depth 20)
      (λ e. search (keeps, iput_kept))

namex_round_kept :
    (ip : ℕ) (path : List ℕ) (parent : Bool) (name : Block) {rest : ℕ → Cmd (Option ℕ × Block)}
    → ((next : ℕ) → Keeps held (rest next))
    → Keeps held (namex_round ip path parent name rest)
unfolding namex_round
namex_round_kept ip path parent name h = keeps_bind (ilock_kept ip) λ _.
    keeps_bind (inode_of_kept ip) λ n.
      keeps_if (not (n.kind == t_dir))
        (keeps_bind (iunlockput_kept ip) (λ _. keeps_pure (none, name)))
        (keeps_if (parent && length path == 0)
          (keeps_bind (iunlock_kept ip) (λ _. keeps_pure (some ip, name)))
          (keeps_bind (dirlookup_kept ip name) λ next.
            option_kept next (keeps_bind (iunlockput_kept ip) (λ _. keeps_pure (none, name)))
              (λ e. keeps_bind (iunlockput_kept ip) (λ _. h e.0))))

namex_loop_kept :
    (fuel ip : ℕ) (path : List ℕ) (parent : Bool) (name : Block)
    → Keeps held (namex_loop fuel ip path parent name)
unfolding namex_loop
namex_loop_kept zero ip path parent name = keeps_wait
namex_loop_kept (suc fuel) ip path parent name =
    option_kept (skipelem path name) (search (keeps, iput_kept))
      λ p. namex_round_kept ip p.0 parent p.1 (λ next. namex_loop_kept fuel next p.0 parent p.1)

pub namex_kept :
    (path : List ℕ) (parent : Bool) (name : Block) → Keeps held (namex path parent name)
unfolding namex
namex_kept path parent name = search (keeps, iget_kept, namex_loop_kept)

pub path_kept : (path : List ℕ) → Keeps held (path2inode path)
unfolding path2inode
path_kept path = search (keeps, namex_kept)

pub parent_kept : (path : List ℕ) (name : Block) → Keeps held (path2parentinode path name)
unfolding path2parentinode
parent_kept path name = namex_kept path true name

pub stat_inum_kept : (inum : ℕ) (st : Stat) → Keeps held (stat_inum inum st)
unfolding stat_inum
stat_inum_kept inum st = search (keeps, parts, iget_kept, ilock_kept, iunlockput_kept) depth 20
