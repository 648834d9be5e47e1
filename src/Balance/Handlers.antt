-- ===== src/Balance/Handlers.antt =====
-- The bodies of the handlers of src/file.c between `begin_op` and their returns, where each return
-- follows an `end_op`.
use myfuse.Common.{ℕ, ltb, refl, zero, suc, ◌+◌, ◌==◌, true, false, Option, none, some}
use myfuse.Params.{dirsize, direntsize}
use myfuse.Machine.{File, Cmd, err_exit, ◌>>◌}
use myfuse.Machine.Block.{Block, get32}
use myfuse.Machine.Keeps.{
  Keeps, keeps, keeps_bind, keeps_pure, keeps_modify, keeps_if, keeps_fault, keeps_state,
  keeps_exit, and_then-ok,
}
use myfuse.File.Table.{edit_file, file_of, deref, ilock?, ftable_grow, take_slot, filealloc}
use myfuse.File.Link.{erase_entry, unlink_found, rmdir_found, unlink_entry, some_entry, has_entries}
use myfuse.File.Attr.{Filler, copy_name, stat_entry, readdir_loop}
use myfuse.Inode.Content.{Stat}
use myfuse.File.Open.{open_file, open_inode}
use myfuse.Balance.Log.{held}
use myfuse.Balance.Rules.{parts, option_kept, inode_of_kept}
use myfuse.Balance.Inode.{ialloc_kept, ilock_kept, iunlock_kept, iupdate_kept}
use myfuse.Balance.Blocks.{
  iput_kept, iunlockput_kept, itrunc2size_kept, write_nbytes_kept, read_nbytes_kept,
}
use myfuse.Balance.Directory.{path_kept, parent_kept, dirlookup_kept, dirlink_kept, stat_inum_kept}
use myfuse.Balance.Closing.{Closes, closing, Closes-fault}

pub file_kept : (f : ℕ) → Keeps held (file_of f)
file_kept f = record { kept = λ {m} e. cc e }

pub edit_file_kept : (f : ℕ) (g : File → File) → Keeps held (edit_file f g)
edit_file_kept f g = keeps_modify _ (λ m. refl)

pub deref_kept :
    {A : Type 0} (x : Option ℕ) (k : ℕ → Cmd A)
    → ((ip : ℕ) → Keeps held (k ip))
    → Keeps held (deref x k)
deref_kept none k h = keeps_fault
deref_kept (some ip) k h = h ip

pub deref-Closes :
    {A : Type 0} (x : Option ℕ) (k : ℕ → Cmd A) → ((ip : ℕ) → Closes (k ip)) → Closes (deref x k)
deref-Closes none k h = Closes-fault
deref-Closes (some ip) k h = h ip

pub ilock?_kept : (x : Option ℕ) → Keeps held (ilock? x)
unfolding ilock?
ilock?_kept none = keeps_exit
ilock?_kept (some ip) = ilock_kept ip

grow_kept : Keeps held ftable_grow
unfolding ftable_grow
grow_kept = search (keeps, keeps_modify)

take_slot_kept : (o : Option ℕ) → Keeps held (take_slot o)
unfolding take_slot
take_slot_kept none = search (keeps, grow_kept, edit_file_kept) depth 20
take_slot_kept (some f) = search (keeps, edit_file_kept)

pub alloc_file_kept : Keeps held filealloc
unfolding filealloc
alloc_file_kept = search (keeps, take_slot_kept)

pub open_file_kept : (ip flags : ℕ) → Keeps held (open_file ip flags)
unfolding open_file
open_file_kept ip flags = search (keeps, alloc_file_kept, edit_file_kept)

-- Commands that leave the operations alone.
pub ruleset quiet = (
  keeps, parts, file_kept, edit_file_kept, deref_kept, ilock?_kept, alloc_file_kept, open_file_kept,
  ialloc_kept, ilock_kept, iunlock_kept, iupdate_kept, iput_kept, iunlockput_kept, itrunc2size_kept,
  write_nbytes_kept, read_nbytes_kept, path_kept, parent_kept, dirlookup_kept, dirlink_kept,
  stat_inum_kept,
)

erase_kept : (dp poff : ℕ) → Keeps held (erase_entry dp poff)
unfolding erase_entry
erase_kept dp poff = search quiet

pub unlink_found_kept : (dp : ℕ) (name : Block) → Keeps held (unlink_found dp name)
unfolding unlink_found
unlink_found_kept dp name =
    keeps_bind (dirlookup_kept dp name)
      λ entry. option_kept entry (keeps_pure tt) (λ e. search (quiet, erase_kept))

pub rmdir_found_kept : (dp : ℕ) (name : Block) → Keeps held (rmdir_found dp name)
unfolding rmdir_found
rmdir_found_kept dp name =
    keeps_bind (dirlookup_kept dp name)
      λ entry. option_kept entry (keeps_pure tt) (λ e. search erase_kept)

pub unlink_entry_kept : (dp : ℕ) (name : Block) → Keeps held (unlink_entry dp name)
unfolding unlink_entry
unlink_entry_kept dp name =
    keeps_bind (dirlookup_kept dp name)
      λ entry. option_kept entry keeps_fault (λ e. search (quiet, erase_kept))

some_entry_kept : (buf : Block) (size k off : ℕ) → Keeps held (some_entry buf size k off)
unfolding some_entry
some_entry_kept buf size zero off = keeps_pure false
some_entry_kept buf size (suc k) off = keeps_if (ltb size (off + 4)) keeps_fault (
    keeps_if (get32 buf off == 0) (some_entry_kept buf size k (off + direntsize)) (keeps_pure true))

-- A command that ends the process returns nothing.
pub dead_kept : {A B : Type 0} (c : Cmd B) → Keeps held (c >> err_exit {A = A})
dead_kept c = record {
  kept = λ {m} e. let (b, m1, e1, e2) = and_then-ok (c m) (λ _. err_exit) e in cc e2;
}

pub has_entries_kept : (ip : ℕ) → Keeps held (has_entries ip)
unfolding has_entries
has_entries_kept ip = search (quiet, some_entry_kept, dead_kept) depth 30

stat_entry_kept : (dp inum : ℕ) (st : Stat) → Keeps held (stat_entry dp inum st)
unfolding stat_entry
stat_entry_kept dp inum st = search quiet

pub readdir_loop_kept :
    {X : Type 0} (filler : Filler X) (dp : ℕ) (buf : Block) (size k off : ℕ) (st : Stat) (x : X)
    → Keeps held (readdir_loop filler dp buf size k off st x)
unfolding readdir_loop
readdir_loop_kept filler dp buf size zero off st x = keeps_pure x
readdir_loop_kept filler dp buf size (suc k) off st x =
    let rest = readdir_loop_kept filler dp buf size k (off + direntsize) in
    keeps_if (ltb size (off + 4)) keeps_fault (
      keeps_if (get32 buf off == 0) (rest st x) (
        option_kept (copy_name buf size (dirsize + 1) (off + 4)) keeps_fault λ name.
          keeps_bind (stat_entry_kept dp (get32 buf off) st) λ r.
            keeps_if (r.0 == 0)
              (keeps_if ((filler x name r.1).0 == 0) (rest r.1 (filler x name r.1).1)
                (keeps_pure _))
              (rest r.1 x)))

pub open_inode-Closes : (ip flags : ℕ) → Closes (open_inode ip flags)
unfolding open_inode
open_inode-Closes ip flags = search (closing, quiet) depth 20
