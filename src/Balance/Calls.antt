-- ===== src/Balance/Calls.antt =====
-- The handlers of src/file.c that take an open file end the operations they begin.
use myfuse.Common.{ℕ, refl, ◌%◌, ◌^◌, lt_int, sub32, Option, none, some}
use myfuse.Machine.{File, Cmd}
use myfuse.Machine.Block.{Block}
use myfuse.Machine.Keeps.{
  Keeps, keeps, keeps_pure, keeps_modify, keeps_if, keeps_fault, keeps_exit, IsOffBufs,
}
use myfuse.Log.Op.{logged_read, logged_relse}
use myfuse.Inode.Table.{ilock, iunlock, inode_of}
use myfuse.Inode.Trunc.{iput}
use myfuse.Inode.Content.{inode_read_nbytes_unlocked, inode_write_nbytes_unlocked}
use myfuse.File.Table.{file_of, edit_file, fileclose, deref, ilock?}
use myfuse.File.Attr.{myfuse_lseek}
use myfuse.File.Open.{
  myfuse_read, myfuse_write, release_internal, myfuse_release, myfuse_releasedir,
}
use myfuse.Balance.Blocks.{iput_kept}
use myfuse.Balance.Closing.{
  Serves, whole, Serves-balanced, Serves-kept, Serves-bind, Serves-then, Serves-deref, Serves-if,
  closing, Closes-bind, end_op-Closes,
}
use myfuse.Balance.Handlers.{quiet, deref_kept}

file_still : (f : ℕ) → Keeps whole (file_of f)
file_still f = record { kept = λ {m} e. cc e }

pub read_unlocked-Serves :
    (ip : ℕ) (buf : Block) (size off : ℕ) → Serves (inode_read_nbytes_unlocked ip buf size off)
unfolding inode_read_nbytes_unlocked
read_unlocked-Serves ip buf size off = Serves-balanced (search (closing, quiet) depth 20)

pub write_unlocked-Serves :
    (ip : ℕ) (buf : Block) (size off : ℕ) → Serves (inode_write_nbytes_unlocked ip buf size off)
unfolding inode_write_nbytes_unlocked
write_unlocked-Serves ip buf size off = Serves-balanced (search (closing, quiet) depth 20)

pub read-Serves : (buf : Block) (size off f : ℕ) → Serves (myfuse_read buf size off f)
unfolding myfuse_read
read-Serves buf size off f = Serves-bind (file_still f) λ file.
    Serves-deref file.ip _
      λ ip. Serves-then (λ r. (r.0 % 2 ^ 32, r.1)) (read_unlocked-Serves ip buf size off)

pub write-Serves : (buf : Block) (size off f : ℕ) → Serves (myfuse_write buf size off f)
unfolding myfuse_write
write-Serves buf size off f = Serves-bind (file_still f) λ file.
    Serves-deref file.ip _
      λ ip. Serves-then (λ nbytes. nbytes % 2 ^ 32) (write_unlocked-Serves ip buf size off)

edit_file_still : (f : ℕ) (g : File → File) → Keeps whole (edit_file f g)
edit_file_still f g = keeps_modify _ (λ m. refl)

pub fileclose-Serves : (f : ℕ) → Serves (fileclose f)
unfolding fileclose
fileclose-Serves f = Serves-bind (file_still f) λ x.
    Serves-bind (keeps_if (lt_int x.ref 1) keeps_exit (keeps_pure tt)) λ _.
      Serves-bind (edit_file_still f (λ x. record x { ref = sub32 x.ref 1 })) λ _.
        Serves-if (lt_int 0 (sub32 x.ref 1)) (Serves-kept (keeps_pure tt)) (
          Serves-bind (edit_file_still f (λ x. record x { ref = 0 })) λ _.
            Serves-balanced (Closes-bind (deref_kept x.ip iput iput_kept) (λ _. end_op-Closes)))

release-Serves : (fi : Option (Option ℕ)) → Serves (release_internal fi)
unfolding release_internal
release-Serves none = Serves-kept (keeps_pure none)
release-Serves (some none) = Serves-kept (keeps_pure (some none))
release-Serves (some (some f)) = Serves-then (λ _. some none) (fileclose-Serves f)

still_bufs : IsOffBufs whole
still_bufs = record { bufs = λ m b. refl }

inode_of_still : (ip : ℕ) → Keeps whole (inode_of ip)
inode_of_still ip = record { kept = λ {m} e. cc e }

iunlock?_still : (x : Option ℕ) → Keeps whole (deref x iunlock)
unfolding iunlock
iunlock?_still none = keeps_fault
iunlock?_still (some ip) = search (keeps, keeps_modify)

deref_still :
    {A : Type 0} (x : Option ℕ) (k : ℕ → Cmd A)
    → ((ip : ℕ) → Keeps whole (k ip))
    → Keeps whole (deref x k)
deref_still none k h = keeps_fault
deref_still (some ip) k h = h ip

ruleset still = (keeps, file_still, inode_of_still, deref_still)

ilock?_still : (x : Option ℕ) → Keeps whole (ilock? x)
unfolding ilock? ilock logged_read logged_relse
ilock?_still none = keeps_exit
ilock?_still (some ip) = search (still, still_bufs, keeps_modify) depth 40

pub lseek-Serves : (off whence f : ℕ) → Serves (myfuse_lseek off whence f)
unfolding myfuse_lseek
lseek-Serves off whence f =
    Serves-kept (search (still, edit_file_still, ilock?_still, iunlock?_still) depth 20)

pub myfuse_release-Serves : (fi : Option (Option ℕ)) → Serves (myfuse_release fi)
unfolding myfuse_release
myfuse_release-Serves fi = Serves-then (λ fi'. (0, fi')) (release-Serves fi)

pub myfuse_releasedir-Serves : (fi : Option (Option ℕ)) → Serves (myfuse_releasedir fi)
unfolding myfuse_releasedir
myfuse_releasedir-Serves fi = Serves-then (λ fi'. (0, fi')) (release-Serves fi)
