-- ===== src/Balance/Full.antt =====
-- Operations left open (begin_op of src/log.c) and the requests of src/main.c that come after them.
use myfuse.Common.{
  ℕ, refl, ◌^◌, ◌≡◌, ◌≤◌, ◌<◌, Bool, true, false, ◌||◌, ◌==◌, Bool-cases, Option, none, some, arith,
  inl, inr, lt_int, sub32, update,
}
use myfuse.Machine.Block.{Block}
use myfuse.Machine.{Machine, File, Cmd, Run, wait, and_then}
use myfuse.Params.{nlog}
use myfuse.Log.Op.{begin_op, reserved}
use myfuse.Inode.Content.{inode_read_nbytes_unlocked, inode_write_nbytes_unlocked}
use myfuse.File.Attr.{
  myfuse_readdir, myfuse_getattr, myfuse_access, myfuse_opendir, myfuse_truncate, myfuse_chmod,
}
use myfuse.File.Errno.{in_mask, s_ifreg}
use myfuse.File.Link.{myfuse_mkdir, myfuse_unlink, myfuse_rmdir, myfuse_rename}
use myfuse.File.Open.{
  myfuse_create, myfuse_open, myfuse_read, myfuse_write, release_internal, myfuse_release,
  myfuse_releasedir,
}
use myfuse.File.Table.{fileclose}
use myfuse.File.Serve.{
  Request, getattr, access, create, opendir, readdir, mkdir, unlink, rmdir, truncate, open_path,
  read, write, release, releasedir, chmod, lseek, rename, statfs, serve,
}

abbrev pub is_some : Option ℕ → Bool
is_some none = false
is_some (some ip) = true

-- the file whose last reference is given back
abbrev pub is_last : Option (Option ℕ) → Machine → Bool
is_last (some (some f)) m = (m.files f).ref == 1
is_last _ m = false

-- The requests that reach `begin_op`: all of them except `lseek` and `statfs`, `readdir` without a
-- file, `create` of what is no regular file, `read` and `write` of a file without an inode, and the
-- releases that are not the last.
unfoldable pub begins : {X : Type 0} → Request X → Machine → Bool
unfolding in_mask
begins (getattr path st) m = true
begins (access path mask) m = true
begins (create path mode fh) m = in_mask mode s_ifreg
begins (opendir path fh) m = true
begins (readdir filler (some f) st x) m = true
begins (readdir filler none st x) m = false
begins (mkdir path mode) m = true
begins (unlink path) m = true
begins (rmdir path) m = true
begins (truncate path size) m = true
begins (open_path path flags fh) m = true
begins (read buf size off f) m = is_some (m.files f).ip
begins (write buf size off f) m = is_some (m.files f).ip
begins (release fi) m = is_last fi m
begins (releasedir fi) m = is_last fi m
begins (chmod path mode) m = true
begins (lseek off whence f) m = false
begins (rename from target flags) m = true
begins statfs m = false

-- `begin_op` waits for ever once eight operations are open that nobody ends, however empty the log
-- is, since nine times MAXOPBLOCKS is more than NLOG.
begin_op-full :
    (m : Machine)
    → m.log.n ≤ nlog
    → 8 ≤ m.log.outstanding
    → m.log.outstanding < 2 ^ 20
    → begin_op m ≡ wait m
unfolding begin_op
begin_op-full m short many few =
    let full : lt_int nlog (reserved m) ≡ true = ground arith in
    let stop : (m.log.committing || lt_int nlog (reserved m)) ≡ true =
      elim (Bool-cases m.log.committing) [ inl c ↦ rw c refl | inr c ↦ rw c full ] in
    rw stop refl

-- The run waits for ever, with the log and the disk as they were.
abbrev pub Waits : {A : Type 0} → Run A → Machine → Type 0
Waits run m = (m' : Machine) × (run ≡ wait m') × (m'.log ≡ m.log) × (m'.disk ≡ m.disk)

module _ (m : Machine) (short : m.log.n ≤ nlog) (many : 8 ≤ m.log.outstanding)
    (few : m.log.outstanding < 2 ^ 20) where
  begin_op_then :
      {A : Type 0} (k : Unit {0} → Cmd A) (files : ℕ → File)
      → and_then (begin_op (record m { files = files })) k ≡ wait (record m { files = files })
  begin_op_then k files = rw (begin_op-full (record m { files = files }) short many few) refl

  full : begin_op m ≡ wait m
  full = begin_op-full m short many few

  -- The last release of a file.
  fileclose-Waits : (f : ℕ) → ((m.files f).ref == 1) ≡ true → Waits (fileclose f m) m
  unfolding fileclose
  fileclose-Waits f last =
      let one : (m.files f).ref ≡ 1 = ground (arith, last) in
      let used : lt_int (m.files f).ref 1 ≡ false = rw one refl in
      let gone : lt_int 0 (sub32 (m.files f).ref 1) ≡ false = rw one refl in
      let x = m.files f in
      let once = update m.files f (record x { ref = sub32 x.ref 1 }) in
      let files = update once f (record (once f) { ref = 0 }) in
      (record m { files = files }, rw (used, gone) (begin_op_then _ files), refl, refl)

  read-wait :
      (buf : Block) (size off f : ℕ) (ip : Option ℕ)
      → (m.files f).ip ≡ ip
      → is_some ip ≡ true
      → myfuse_read buf size off f m ≡ wait m
  unfolding myfuse_read inode_read_nbytes_unlocked
  read-wait buf size off f none e there = cc there
  read-wait buf size off f (some ip) e there = rw (e, full) refl

  write-wait :
      (buf : Block) (size off f : ℕ) (ip : Option ℕ)
      → (m.files f).ip ≡ ip
      → is_some ip ≡ true
      → myfuse_write buf size off f m ≡ wait m
  unfolding myfuse_write inode_write_nbytes_unlocked
  write-wait buf size off f none e there = cc there
  write-wait buf size off f (some ip) e there = rw (e, full) refl

  -- Eight operations left open (or more, fewer than 2^20, on a log of at most NLOG entries) are the end
  -- of the file system: every request that reaches `begin_op` (all except `lseek` and `statfs`,
  -- `readdir` without a file, `create` of what is no regular file, `read` and `write` of a file
  -- without an inode, and the releases that are not the last) then waits for ever, and has changed
  -- neither the log nor the disk.
  pub serve-full : {X : Type 0} (r : Request X) → begins r m ≡ true → Waits (serve r m) m
  unfolding serve begins myfuse_getattr myfuse_access myfuse_opendir myfuse_readdir myfuse_mkdir
      myfuse_unlink myfuse_rmdir myfuse_truncate myfuse_open myfuse_chmod myfuse_rename
      myfuse_create myfuse_release myfuse_releasedir release_internal
  serve-full (getattr path st) first = (m, rw full refl, refl, refl)
  serve-full (access path mask) first = (m, rw full refl, refl, refl)
  serve-full (create path mode fh) first = (m, rw (first, full) refl, refl, refl)
  serve-full (opendir path fh) first = (m, rw full refl, refl, refl)
  serve-full (readdir filler (some f) st x) first = (m, rw full refl, refl, refl)
  serve-full (readdir filler none st x) first = cc first
  serve-full (mkdir path mode) first = (m, rw full refl, refl, refl)
  serve-full (unlink path) first = (m, rw full refl, refl, refl)
  serve-full (rmdir path) first = (m, rw full refl, refl, refl)
  serve-full (truncate path size) first = (m, rw full refl, refl, refl)
  serve-full (open_path path flags fh) first = (m, rw full refl, refl, refl)
  serve-full (read buf size off f) first =
      (m, rw (read-wait buf size off f (m.files f).ip refl first) refl, refl, refl)
  serve-full (write buf size off f) first =
      (m, write-wait buf size off f (m.files f).ip refl first, refl, refl)
  serve-full (release (some (some f))) first =
      let (m', e, l, d) = fileclose-Waits f first in (m', rw e refl, l, d)
  serve-full (release (some none)) first = cc first
  serve-full (release none) first = cc first
  serve-full (releasedir (some (some f))) first =
      let (m', e, l, d) = fileclose-Waits f first in (m', rw e refl, l, d)
  serve-full (releasedir (some none)) first = cc first
  serve-full (releasedir none) first = cc first
  serve-full (chmod path mode) first = (m, rw full refl, refl, refl)
  serve-full (lseek off whence f) first = cc first
  serve-full (rename from target flags) first = (m, rw full refl, refl, refl)
  serve-full statfs first = cc first
