-- ===== src/File/Serve.antt =====
-- `myfuse_oper` of src/main.c: which handler of src/file.c each request of the kernel goes to.
use myfuse.Common.{ℕ, Option, List, [], ◌∷◌}
use myfuse.Machine.{Cmd, pure, ◌>>=◌}
use myfuse.Machine.Block.{Block}
use myfuse.Inode.Content.{Stat}
use myfuse.File.Attr.{
  Filler, myfuse_getattr, myfuse_access, myfuse_opendir, myfuse_readdir, myfuse_truncate,
  myfuse_chmod, myfuse_lseek, myfuse_statfs,
}
use myfuse.File.Open.{
  myfuse_create, myfuse_open, myfuse_read, myfuse_write, myfuse_release, myfuse_releasedir,
}
use myfuse.File.Link.{myfuse_mkdir, myfuse_unlink, myfuse_rmdir, myfuse_rename}

-- `X` is the state of the buffer that `filler` fills.
pub data Request (X : Type 0) : Type 0 where
  getattr : List ℕ → Stat → Request X
  access : List ℕ → ℕ → Request X
  create : List ℕ → ℕ → Option ℕ → Request X
  opendir : List ℕ → Option ℕ → Request X
  readdir : Filler X → Option ℕ → Stat → X → Request X
  mkdir : List ℕ → ℕ → Request X
  unlink : List ℕ → Request X
  rmdir : List ℕ → Request X
  truncate : List ℕ → ℕ → Request X
  open_path : List ℕ → ℕ → Option ℕ → Request X
  read : Block → ℕ → ℕ → ℕ → Request X
  write : Block → ℕ → ℕ → ℕ → Request X
  release : Option (Option ℕ) → Request X
  releasedir : Option (Option ℕ) → Request X
  chmod : List ℕ → ℕ → Request X
  lseek : ℕ → ℕ → ℕ → Request X
  rename : List ℕ → List ℕ → ℕ → Request X
  statfs : Request X

-- The number that the handler returns.
unfoldable pub serve : {X : Type 0} → Request X → Cmd ℕ
serve (getattr path st) = myfuse_getattr path st >>= λ r. pure r.0
serve (access path mask) = myfuse_access path mask
serve (create path mode fh) = myfuse_create path mode fh >>= λ r. pure r.0
serve (opendir path fh) = myfuse_opendir path fh >>= λ r. pure r.0
serve (readdir filler fh st x) = myfuse_readdir filler fh st x >>= λ r. pure r.0
serve (mkdir path mode) = myfuse_mkdir path mode
serve (unlink path) = myfuse_unlink path
serve (rmdir path) = myfuse_rmdir path
serve (truncate path size) = myfuse_truncate path size
serve (open_path path flags fh) = myfuse_open path flags fh >>= λ r. pure r.0
serve (read buf size off f) = myfuse_read buf size off f >>= λ r. pure r.0
serve (write buf size off f) = myfuse_write buf size off f
serve (release fi) = myfuse_release fi >>= λ r. pure r.0
serve (releasedir fi) = myfuse_releasedir fi >>= λ r. pure r.0
serve (chmod path mode) = myfuse_chmod path mode
serve (lseek off whence f) = myfuse_lseek off whence f
serve (rename from target flags) = myfuse_rename from target flags
serve statfs = myfuse_statfs >>= λ r. pure r.0

-- Requests one after another.
unfoldable pub serve_all : {X : Type 0} → List (Request X) → Cmd (List ℕ)
serve_all [] = pure []
serve_all (r ∷ rs) = do code ← serve r; codes ← serve_all rs; pure (code ∷ codes)
