-- ===== src/BufCache.antt =====
-- The buffer cache, src/buf_cache.c: the buffers, their buckets, and the choice of the buffer that
-- is recycled. A buffer is named by its place in `bcache.buf`, and a bucket is the list of its
-- buffers from `head.next` on. `bucket->lock` is taken and given back within each function, and is
-- left out; `b->lock` is not.
pub mod Lookup
pub mod Single
pub mod Free
pub mod Invariant
pub mod Recycle
pub mod Taken
pub mod Relinked
pub mod Refine
pub mod Start
pub mod Writes
use myfuse.Common.{
  ℕ, zero, suc, ◌+◌, ◌-◌, ◌%◌, ◌^◌, Bool, true, false, not, ◌&&◌, ◌==◌, leb, if◌then◌else◌, add32,
  sub32, update, Option, none, some, List, [], ◌∷◌,
}
use mathlib.Core.List.{reverse}
use myfuse.Machine.Block.{Block, zeros}

-- `struct bcache_buf`, less its links
pub record CacheBuf : Type 0 where
  pub valid : Bool
  pub blockno : ℕ
  pub locked : Bool
  pub refcnt : ℕ
  pub timestamp : ℕ
  pub contents : Block

-- `struct bcache`, with the disk below it and what `gettimeofday` will say in `current_timestamp`
pub record Cache : Type 0 where
  pub buf : ℕ → CacheBuf
  pub hash : ℕ → List ℕ
  pub disk : ℕ → Block
  pub clock : ℕ

-- How a call ends: with a buffer, waiting for the lock of one, or looking for a free one for ever.
pub data Fetched : Type 0 where
  got : ℕ → Cache → Fetched
  blocked : ℕ → Cache → Fetched
  spins : Cache → Fetched

-- `NCACHE_BUF` and `BCACHE_HASH_SIZE`
abbrev pub ncache_buf : ℕ
ncache_buf = 1016

abbrev pub bcache_hash_size : ℕ
bcache_hash_size = 29

abbrev pub static_buf : CacheBuf
static_buf = record {
  valid = false;
  blockno = 0;
  locked = false;
  refcnt = 0;
  timestamp = 0;
  contents = zeros;
}

-- `bcache.buf`, `bcache.buf + 1`, …, each put before the last
unfoldable pub push_all : ℕ → List ℕ
push_all zero = []
push_all (suc k) = k ∷ push_all k

unfoldable pub bcache_init : Cache → Cache
unfolding push_all
bcache_init c = record c {
  buf = λ s. record (c.buf s) { locked = false };
  hash = λ h. if h == 0 then push_all ncache_buf else [];
}

abbrev pub bcache_hash : ℕ → ℕ
bcache_hash blockno = blockno % bcache_hash_size

abbrev pub set_slot : Cache → ℕ → CacheBuf → Cache
set_slot c s b = record c { buf = update c.buf s b }

-- The first buffer of a bucket that holds `blockno`.
unfoldable pub find : (ℕ → CacheBuf) → ℕ → List ℕ → Option ℕ
find buf blockno [] = none
find buf blockno (s ∷ bucket) =
    let rest = find buf blockno bucket in if (buf s).blockno == blockno then some s else rest

-- `(uint64_t)0 - 1`
abbrev pub latest : ℕ
latest = 2 ^ 64 - 1

-- "Recycle per hashtbl": the least time stamp is reset for each buffer, and the first that is free
-- is taken. The bucket is given from its tail on.
unfoldable pub first_free : (ℕ → CacheBuf) → List ℕ → Option ℕ
first_free buf [] = none
first_free buf (s ∷ tail) =
    let rest = first_free buf tail in
    if (buf s).refcnt == 0 && leb (buf s).timestamp latest then some s else rest

-- The free buffer with the least time stamp of another bucket, given from its tail on; `found` and
-- `stamp` are `least_recent_buf` and `least_recent_time_stamp`.
unfoldable pub least_recent : (ℕ → CacheBuf) → List ℕ → Option ℕ → ℕ → Option ℕ
least_recent buf [] found stamp = found
least_recent buf (s ∷ tail) found stamp =
    if (buf s).refcnt == 0 && leb (buf s).timestamp stamp
    then least_recent buf tail (some s) (buf s).timestamp
    else least_recent buf tail found stamp

-- The loop over the other buckets, for `k` more: the bucket and the buffer.
unfoldable pub search_buckets : Cache → ℕ → ℕ → ℕ → Option (ℕ × ℕ)
unfolding least_recent
search_buckets c hashid zero hidx = none
search_buckets c hashid (suc k) hidx =
    let rest = search_buckets c hashid k (hidx + 1) in
    if hidx == hashid then rest else elim (least_recent c.buf (reverse (c.hash hidx)) none latest) [
      | some s ↦ some (hidx, s)
      | none ↦ rest
    ]

-- `b->blockno = blockno; b->valid = 0; b->refcnt = 1;`
abbrev pub recycled : CacheBuf → ℕ → CacheBuf
recycled b blockno = record b { blockno = blockno; valid = false; refcnt = 1 }

-- the bucket without the buffer
unfoldable pub unlink : ℕ → List ℕ → List ℕ
unlink s [] = []
unlink s (t ∷ bucket) = let rest = unlink s bucket in if t == s then rest else t ∷ rest

-- the buffer recycled and moved from bucket `hidx` to the head of bucket `hashid`
unfoldable pub relink : Cache → ℕ → ℕ → ℕ → ℕ → Cache
unfolding unlink
relink c hashid hidx s blockno = record c {
  buf = update c.buf s (recycled (c.buf s) blockno);
  hash = update (update c.hash hidx (unlink s (c.hash hidx))) hashid (s ∷ c.hash hashid);
}

-- `pthread_mutex_lock(&b->lock); return b;`
unfoldable pub lock_slot : Cache → ℕ → Fetched
lock_slot c s =
    if (c.buf s).locked
    then blocked s c
    else got s (set_slot c s (record (c.buf s) { locked = true }))

unfoldable pub bget : Cache → ℕ → Fetched
unfolding find first_free search_buckets relink lock_slot
bget c blockno =
    let hashid = bcache_hash blockno in
    elim (find c.buf blockno (c.hash hashid)) [
      | some s ↦ lock_slot (set_slot c s (record (c.buf s) { refcnt = add32 (c.buf s).refcnt 1 })) s
      | none ↦ elim (first_free c.buf (reverse (c.hash hashid))) [
        | some s ↦ lock_slot (set_slot c s (recycled (c.buf s) blockno)) s
        | none ↦ elim (search_buckets c hashid bcache_hash_size 0) [
          | some (hidx, s) ↦ lock_slot (relink c hashid hidx s blockno) s
          | none ↦ spins c
        ]
      ]
    ]

-- `if (!b->valid) { read_block_raw(blockno, b->data); b->valid = 1; }`
unfoldable pub fill : ℕ → ℕ → Cache → Cache
fill blockno s c =
    if (c.buf s).valid
    then c
    else set_slot c s (record (c.buf s) { contents = c.disk blockno; valid = true })

unfoldable pub bread : Cache → ℕ → Fetched
unfolding bget fill
bread c blockno = elim (bget c blockno) [
  | got s c' ↦ got s (fill blockno s c')
  | blocked s c' ↦ blocked s c'
  | spins c' ↦ spins c'
]

-- `bwrite`, of a whole block
unfoldable pub bwrite : Cache → ℕ → Cache
bwrite c s = record c { disk = update c.disk (c.buf s).blockno (c.buf s).contents }

unfoldable pub brelse : Cache → ℕ → Cache
brelse c s =
    let refcnt = sub32 (c.buf s).refcnt 1 in
    set_slot c s (record (c.buf s) {
      locked = false;
      refcnt = refcnt;
      timestamp = if refcnt == 0 then c.clock else (c.buf s).timestamp;
    })

unfoldable pub bpin : Cache → ℕ → Cache
bpin c s = set_slot c s (record (c.buf s) { refcnt = add32 (c.buf s).refcnt 1 })

unfoldable pub bunpin : Cache → ℕ → Cache
bunpin c s = set_slot c s (record (c.buf s) { refcnt = sub32 (c.buf s).refcnt 1 })
