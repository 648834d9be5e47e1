-- ===== src/BufCache/Invariant.antt =====
-- The invariant of the buffer cache (src/buf_cache.c), and what a call of `bread` gives its caller.
use mathlib.Core.List.{Memᴰ}
use myfuse.Common.{ℕ, ◌≡◌, true, false}
use myfuse.Machine.Block.{Block}
use myfuse.BufCache.{Cache, bcache_hash}
use myfuse.BufCache.Lookup.{bucket_view, IsSingle}

-- What the cache shows of each block: the abstract view, in which there are no buffers.
abbrev pub view : Cache → ℕ → Block
view c b = bucket_view c.buf (c.disk b) b (c.hash (bcache_hash b))

-- Each buffer is in the bucket of its block, the first of a block is the only one that can be
-- valid, and a buffer without references is not locked.
pub record IsCache (c : Cache) : Type 0 where
  pub home : (h s : ℕ) → Memᴰ s (c.hash h) → bcache_hash (c.buf s).blockno ≡ h
  pub single : (h : ℕ) → IsSingle c.buf (c.hash h)
  pub idle : (s : ℕ) → (c.buf s).refcnt ≡ 0 → (c.buf s).locked ≡ false

-- What is in a buffer without references is on the disk: a block of a transaction is pinned until
-- it is installed.
abbrev pub IsClean : Cache → Type 0
IsClean c =
    (h s : ℕ)
    → Memᴰ s (c.hash h)
    → (c.buf s).refcnt ≡ 0
    → (c.buf s).valid ≡ true
    → (c.buf s).contents ≡ c.disk (c.buf s).blockno

-- What `bread` of block `b` gives: the locked buffer `s` with what the cache showed of the block,
-- and a cache that shows of every block what it showed.
pub record Fetches (c : Cache) (b s : ℕ) (c' : Cache) : Type 0 where
  pub number : (c'.buf s).blockno ≡ b
  pub locked : (c'.buf s).locked ≡ true
  pub holds : (c'.buf s).contents ≡ view c b
  pub same_view : (b' : ℕ) → view c' b' ≡ view c b'
  pub same_disk : c'.disk ≡ c.disk
  pub cache : IsCache c'
  pub clean : IsClean c'
