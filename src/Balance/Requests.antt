-- ===== src/Balance/Requests.antt =====
-- Each handler of src/file.c that ends the operation it begins on every path.
use myfuse.Common.{ℕ, not, List, Option, none, some}
use myfuse.Machine.Block.{zeros}
use myfuse.Machine.Keeps.{keeps_pure, keeps_if, keeps_exit}
use myfuse.Inode.Content.{Stat}
use myfuse.File.Errno.{enoent, in_mask, s_ifreg}
use myfuse.File.Attr.{
  myfuse_getattr, myfuse_opendir, myfuse_truncate, Filler, myfuse_readdir, readdir_inode,
}
use myfuse.File.Open.{myfuse_create}
use myfuse.File.Link.{myfuse_rmdir, myfuse_mkdir, myfuse_unlink}
use myfuse.Balance.Directory.{path_kept, parent_kept}
use myfuse.Balance.Closing.{
  Closes, Serves, Serves-balanced, Serves-kept, Serves-bind, closing, Closes-bind, Closes-then,
  Closes-option, end_op-Closes,
}
use myfuse.Balance.Handlers.{
  quiet, file_kept, dead_kept, has_entries_kept, readdir_loop_kept, unlink_found_kept,
  rmdir_found_kept, deref-Closes,
}

pub getattr-Serves : (path : List ℕ) (st : Stat) → Serves (myfuse_getattr path st)
unfolding myfuse_getattr
getattr-Serves path st = Serves-balanced (
    Closes-bind (path_kept path)
      λ found. Closes-option found (search closing) (λ ip. search (closing, quiet) depth 20))

pub opendir-Serves : (path : List ℕ) (fh : Option ℕ) → Serves (myfuse_opendir path fh)
unfolding myfuse_opendir
opendir-Serves path fh = Serves-balanced (
    Closes-bind (path_kept path)
      λ found. Closes-option found (search closing) (λ ip. search (closing, quiet) depth 20))

pub truncate-Serves : (path : List ℕ) (size : ℕ) → Serves (myfuse_truncate path size)
unfolding myfuse_truncate
truncate-Serves path size = Serves-balanced (
    Closes-bind (path_kept path)
      λ found. Closes-option found (search closing) (λ ip. search (closing, quiet) depth 20))

pub unlink-Serves : (path : List ℕ) → Serves (myfuse_unlink path)
unfolding myfuse_unlink
unlink-Serves path = Serves-balanced (
    Closes-bind (path_kept path) λ found.
      Closes-option found (search closing)
        (λ ip. search (closing, quiet, deref-Closes, unlink_found_kept) depth 40))

pub rmdir-Serves : (path : List ℕ) → Serves (myfuse_rmdir path)
unfolding myfuse_rmdir
rmdir-Serves path = Serves-balanced (
    Closes-bind (path_kept path) λ found.
      Closes-option found (search closing)
        (λ ip. search (closing, quiet, deref-Closes, rmdir_found_kept, has_entries_kept) depth 40))

pub mkdir-Serves : (path : List ℕ) (mode : ℕ) → Serves (myfuse_mkdir path mode)
unfolding myfuse_mkdir
mkdir-Serves path mode = Serves-balanced (search (closing, quiet, deref-Closes) depth 40)

readdir_inode-Closes :
    {X : Type 0} (filler : Filler X) (dp : ℕ) (st : Stat) (x : X)
    → Closes (readdir_inode filler dp st x)
unfolding readdir_inode
readdir_inode-Closes filler dp st x = search (closing, quiet, dead_kept, readdir_loop_kept) depth 40

pub readdir-Serves :
    {X : Type 0} (filler : Filler X) (fh : Option ℕ) (st : Stat) (x : X)
    → Serves (myfuse_readdir filler fh st x)
unfolding myfuse_readdir
readdir-Serves filler none st x = Serves-kept (keeps_pure _)
readdir-Serves filler (some f) st x = Serves-balanced (
    Closes-bind (file_kept f) λ file.
      Closes-option file.ip (Closes-then (λ _. (enoent, x)) end_op-Closes)
        (λ dp. readdir_inode-Closes filler dp st x))

pub create-Serves : (path : List ℕ) (mode : ℕ) (fh : Option ℕ) → Serves (myfuse_create path mode fh)
unfolding myfuse_create
create-Serves path mode fh =
    Serves-bind (keeps_if (not (in_mask mode s_ifreg)) keeps_exit (keeps_pure tt)) λ _.
      Serves-balanced (
        Closes-bind (parent_kept path zeros) λ found.
          Closes-option found.0 (Closes-then (λ _. (enoent, fh)) end_op-Closes)
            (λ ip. search (closing, quiet) depth 40))
