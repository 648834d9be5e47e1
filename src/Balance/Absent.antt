-- ===== src/Balance/Absent.antt =====
-- What the handlers of src/file.c answer for a path that names nothing.
use myfuse.Common.{ℕ, refl, ◌≡◌, ◌∙◌, false, List, Option, none, add32}
use myfuse.Machine.{Machine, ok}
use myfuse.Log.Op.{begin_op}
use myfuse.Directory.Entries.{path2inode}
use myfuse.File.Errno.{enoent, in_mask, o_creat}
use myfuse.File.Attr.{myfuse_access, myfuse_chmod}
use myfuse.File.Open.{myfuse_open}
use myfuse.Balance.Log.{ops, held_lem, begin_op-ops}
use myfuse.Balance.Directory.{path_kept}

module _ (path : List ℕ) (m m1 m2 : Machine) (a : Unit {0}) (started : begin_op m ≡ ok a m1)
    (absent : path2inode path m1 ≡ ok none m2) where
  -- When an operation can begin and the path names nothing, `access`, `chmod` and `open` without
  -- O_CREAT return -ENOENT with one more operation under way than before.
  pub absent-LeftOpen :
      (mask mode flags : ℕ) (fh : Option ℕ)
      → in_mask flags o_creat ≡ false
      → (myfuse_access path mask m ≡ ok enoent m2)
        × (myfuse_chmod path mode m ≡ ok enoent m2)
        × (myfuse_open path flags fh m ≡ ok (enoent, fh) m2)
        × (ops m2 ≡ add32 (ops m) 1)
  unfolding myfuse_access myfuse_chmod myfuse_open
  absent-LeftOpen mask mode flags fh keep = (
    rw (started, absent) refl,
    rw (started, absent) refl,
    rw (started, absent, keep) refl,
    (held_lem m1 m2 ((path_kept path).kept absent)).0 ∙ (begin_op-ops m started).0,
  )
