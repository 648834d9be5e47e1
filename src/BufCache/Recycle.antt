-- ===== src/BufCache/Recycle.antt =====
-- `bget` and `bread` of src/buf_cache.c, branch by branch.

use mathlib.Core.List.{Memᴰ, reverse}
use mathlib.Core.List.Memᴰ
use myfuse.Common.{
  ℕ, ◌≡◌, ◌≢◌, ◌∙◌, refl, sym, ap, true, false, ◌==◌, update, update-update, inl, inr, Bool-cases,
  none, some, List, [], ◌∷◌, arith, add32,
}
use myfuse.Machine.Block.{Block}
use myfuse.BufCache.{
  CacheBuf, Cache, got, find, unlink, recycled, lock_slot, fill, set_slot, bget, bread, bcache_hash,
  first_free, search_buckets, relink, bcache_hash_size,
}
use myfuse.BufCache.Lookup.{bucket_view, shown, ==_true, ==_false}

-- the buffer that `bread` returns, when `bget` takes `x`
abbrev pub filled : CacheBuf → Block → CacheBuf
filled x d = record x { locked = true; valid = true; contents = shown x d }

-- Locking a buffer that is not locked, and filling it.
pub lock_slot-fill :
    (c : Cache) (buf : ℕ → CacheBuf) (b s : ℕ) (x : CacheBuf)
    → x.locked ≡ false
    → (c' : Cache) × (lock_slot (record c { buf = update buf s x }) s ≡ got s c')
      × (fill b s c' ≡ record c { buf = update buf s (filled x (c.disk b)) })
unfolding lock_slot fill
lock_slot-fill c buf b s x free =
    let hit : (s == s) ≡ true = ground arith in
    let locked : CacheBuf = record x { locked = true } in
    let again = λ (y z : CacheBuf). ap (λ u. record c { buf = u }) (update-update buf s y z) in
    (
      record c { buf = update buf s locked },
      rw (hit, free) (ap (got s) (again (record x { locked = false }) locked)),
      elim (Bool-cases x.valid) [
        | inl v ↦ rw (hit, v) refl
        | inr v ↦
            rw (hit, v)
              (again (record x { valid = false; locked = true })
                (record x { valid = true; locked = true; contents = c.disk b }))
      ],
    )

-- A buffer that keeps its block, and shows the same of it.
pub bucket_view-agree :
    (buf : ℕ → CacheBuf) (d : Block) (b : ℕ) (l : List ℕ) (s : ℕ) (x : CacheBuf)
    → x.blockno ≡ (buf s).blockno
    → ((buf s).blockno ≡ b → shown x d ≡ shown (buf s) d)
    → bucket_view (update buf s x) d b l ≡ bucket_view buf d b l
bucket_view-agree buf d b [] s x number same = refl
bucket_view-agree buf d b (t ∷ l) s x number same =
    let below = bucket_view-agree buf d b l s x number same in
    elim (Bool-cases (s == t)) [
      | inl here ↦
          let st = ==_true s t here in
          let at_t : x.blockno ≡ (buf t).blockno = number ∙ ap (λ u. (buf u).blockno) st in
          elim (Bool-cases ((buf t).blockno == b)) [
            | inl match ↦
                let match' : (x.blockno == b) ≡ true = ground arith in
                let q = sym number ∙ ==_true x.blockno b match' in
                rw (here, match', match) (same q ∙ ap (λ u. shown (buf u) d) st)
            | inr other ↦
                let other' : (x.blockno == b) ≡ false = ground arith in
                rw (here, other', other) below
          ]
      | inr away ↦ elim (Bool-cases ((buf t).blockno == b)) [
        | inl match ↦ rw (away, match) refl
        | inr other ↦ rw (away, other) below
      ]
    ]

-- A buffer that is the only one of its block in the bucket.
pub bucket_view-only :
    (buf : ℕ → CacheBuf) (d : Block) (b : ℕ) (l : List ℕ) (s : ℕ) (x : CacheBuf)
    → ((t : ℕ) → Memᴰ t l → (buf t).blockno ≢ b)
    → Memᴰ s l
    → x.blockno ≡ b
    → bucket_view (update buf s x) d b l ≡ shown x d
bucket_view-only buf d b [] s x absent m number = absurd (Memᴰ.not-nil m)
bucket_view-only buf d b (t ∷ l) s x absent m number = elim (Bool-cases (s == t)) [
  | inl here ↦ let match : (x.blockno == b) ≡ true = ground arith in rw (here, match) refl
  | inr away ↦
      let other : ((buf t).blockno == b) ≡ false =
        let q = absent t (Memᴰ.head refl) in ground arith in
      elim (Memᴰ.cases_cons m) [
        | inl q ↦ absurd (==_false s t away q)
        | inr below ↦
            rw (away, other)
              (bucket_view-only buf d b l s x (λ t m. absent t (Memᴰ.tail m)) below number)
      ]
]

module _ (c : Cache) (b s : ℕ) where
  -- how `bread` ends when `bget` takes the buffer `x`, which is not locked
  bread_taken :
      (x : CacheBuf) (hash : ℕ → List ℕ)
      → x.locked ≡ false
      → bget c b ≡ lock_slot (record c { buf = update c.buf s x; hash = hash }) s
      → bread c b ≡ got s (record c { buf = update c.buf s (filled x (c.disk b)); hash = hash })
  unfolding bread
  bread_taken x hash free e =
      let (c1, lock, full) = lock_slot-fill (record c { hash = hash }) c.buf b s x free in
      rw (bread, e, lock) (ap (got s) full)

  pub bread_hit :
      find c.buf b (c.hash (bcache_hash b)) ≡ some s
      → (c.buf s).locked ≡ false
      → bread c b
        ≡ got s (
            set_slot c s
              (filled (record (c.buf s) { refcnt = add32 (c.buf s).refcnt 1 }) (c.disk b)))
  unfolding bget
  bread_hit e free =
      bread_taken (record (c.buf s) { refcnt = add32 (c.buf s).refcnt 1 }) c.hash free
        (rw (bget, e) refl)

  pub bread_own :
      find c.buf b (c.hash (bcache_hash b)) ≡ none
      → first_free c.buf (reverse (c.hash (bcache_hash b))) ≡ some s
      → (c.buf s).locked ≡ false
      → bread c b ≡ got s (set_slot c s (filled (recycled (c.buf s) b) (c.disk b)))
  unfolding bget
  bread_own e e' free = bread_taken (recycled (c.buf s) b) c.hash free (rw (bget, e, e') refl)

  pub bread_other :
      (h : ℕ)
      → find c.buf b (c.hash (bcache_hash b)) ≡ none
      → first_free c.buf (reverse (c.hash (bcache_hash b))) ≡ none
      → search_buckets c (bcache_hash b) bcache_hash_size 0 ≡ some (h, s)
      → (c.buf s).locked ≡ false
      → bread c b
        ≡ got s (record c {
          buf = update c.buf s (filled (recycled (c.buf s) b) (c.disk b));
          hash =
              update
                (update c.hash h (unlink s (c.hash h)))
                (bcache_hash b)
                (s ∷ c.hash (bcache_hash b));
        })
  unfolding bget relink
  bread_other h e e' e'' free =
      bread_taken (recycled (c.buf s) b) _ free (rw (bget, e, e', e'') refl)
