-- ===== src/Balance/Leaks.antt =====
-- The handlers of src/file.c with a return that no `end_op` comes before.

use myfuse.Common.{ℕ, refl, ◌≡◌, not, ◌&&◌, List, Option, none, some}
use myfuse.Machine.{Machine, ok}
use myfuse.Machine.Block.{Block, zeros}
use myfuse.Machine.Keeps.{Keeps, keeps_pure}
use myfuse.File.Errno.{enoent, in_mask, o_creat}
use myfuse.File.Attr.{myfuse_access, myfuse_chmod}
use myfuse.File.Open.{open_new, myfuse_open}
use myfuse.File.Link.{rename_onto, rename_link, rename_from, is_null, myfuse_rename, iput_some}
use myfuse.Balance.Log.{held}
use myfuse.Balance.Blocks.{iput_kept}
use myfuse.Balance.Directory.{path_kept, parent_kept}
use myfuse.Balance.Closing.{end_op-Closes, Closes, closing, Closes-bind, Closes-then}
use myfuse.Balance.Handlers.{quiet, open_inode-Closes, unlink_entry_kept}
use myfuse.Balance.Missing.{
  Outcome, self, EndsIfNone, may_bind, may_close, may_miss, may_option, may_if, opened, ends_bind,
  ends_option, ends_none, ends_kept, may_after,
}

pub access-Outcome :
    (path : List ℕ) (mask : ℕ) (m : Machine) {m' : Machine} {a : ℕ}
    → myfuse_access path mask m ≡ ok a m'
    → Outcome m m' a
unfolding myfuse_access
access-Outcome path mask m e = opened self m e (
    may_bind self (path_kept path) λ found.
      may_option self found (may_miss self enoent refl) (λ ip.
        may_close self (Closes-bind (iput_kept ip) (λ _. Closes-then (λ _. 0) end_op-Closes))))

pub chmod-Outcome :
    (path : List ℕ) (mode : ℕ) (m : Machine) {m' : Machine} {a : ℕ}
    → myfuse_chmod path mode m ≡ ok a m'
    → Outcome m m' a
unfolding myfuse_chmod
chmod-Outcome path mode m e = opened self m e (
    may_bind self (path_kept path) λ found.
      may_option self found (may_miss self enoent refl)
        (λ ip. may_close self (search (closing, quiet) depth 20)))

open_new_ends : (path : List ℕ) → EndsIfNone (open_new path)
unfolding open_new
open_new_ends path =
    ends_bind (parent_kept path zeros) λ found.
      ends_option found.0 (ends_none end_op-Closes) (λ dp. ends_kept (search quiet depth 30))

pub open-Outcome :
    (path : List ℕ) (flags : ℕ) (fh : Option ℕ) (m : Machine) {m' : Machine} {a : ℕ × Option ℕ}
    → myfuse_open path flags fh m ≡ ok a m'
    → Outcome m m' a.0
unfolding myfuse_open
open-Outcome path flags fh m e =
    opened (λ r. r.0) m e
      (may_bind _ (path_kept path) λ found.
        may_option _ found
          (may_if _ (not (in_mask flags o_creat)) (may_miss _ (enoent, fh) refl)
            (may_after _ (enoent, fh) (open_new_ends path) refl (λ ip. open_inode-Closes ip flags)))
          (λ ip. may_close _ (open_inode-Closes ip flags)))

rename_onto_kept :
    (target_ip : ℕ) (dp? : Option ℕ) (target_name : Block) (from_ip from_dp : ℕ) (from_name : Block)
    (flags : ℕ)
    → Keeps held (rename_onto target_ip dp? target_name from_ip from_dp from_name flags)
unfolding rename_onto
rename_onto_kept target_ip dp? target_name from_ip from_dp from_name flags =
    search (quiet, unlink_entry_kept) depth 30

rename_link_kept :
    (target : Option ℕ) (dp? : Option ℕ) (target_name : Block) (from_ip from_dp : ℕ)
    (from_name : Block) (flags : ℕ)
    → Keeps held (rename_link target dp? target_name from_ip from_dp from_name flags)
unfolding rename_link
rename_link_kept none dp? target_name from_ip from_dp from_name flags = search quiet depth 30
rename_link_kept (some ip) dp? target_name from_ip from_dp from_name flags =
    search (quiet, rename_onto_kept) depth 30

iput_some_kept : (x : Option ℕ) → Keeps held (iput_some x)
unfolding iput_some
iput_some_kept none = keeps_pure tt
iput_some_kept (some ip) = iput_kept ip

rename_from-Closes :
    (target target_dp : Option ℕ) (target_name : Block) (from_ip from_dp : ℕ) (from_name : Block)
    (flags : ℕ)
    → Closes (rename_from target target_dp target_name from_ip from_dp from_name flags)
unfolding rename_from
rename_from-Closes target target_dp target_name from_ip from_dp from_name flags =
    search (closing, quiet, unlink_entry_kept, rename_link_kept, iput_some_kept) depth 30

pub rename-Outcome :
    (from target : List ℕ) (flags : ℕ) (m : Machine) {m' : Machine} {a : ℕ}
    → myfuse_rename from target flags m ≡ ok a m'
    → Outcome m m' a
unfolding myfuse_rename
rename-Outcome from target flags m e =
    let missing = may_miss self enoent refl in
    opened self m e (
      may_bind self (path_kept target) λ target_ip. may_bind self (parent_kept target zeros) λ t.
        may_bind self (path_kept from) λ from_ip. may_bind self (parent_kept from zeros) λ f.
          may_if self (is_null target_ip && is_null t.0) missing (
            may_option self from_ip missing λ ip.
              may_option self f.0 missing
                λ dp. may_close self (rename_from-Closes target_ip t.0 t.1 ip dp f.1 flags)))
