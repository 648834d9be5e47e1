-- ===== src/BufCache/Taken.antt =====
-- What `bread` of src/buf_cache.c gives when the block is cached, and when a buffer of its own bucket
-- is recycled.
use mathlib.Core.Path.{subst}
use mathlib.Core.List.{Memᴰ, reverse}
use mathlib.Core.List.Memᴰ
use myfuse.Common.{
  ℕ, ◌-◌, ◌^◌, ◌<◌, ◌≡◌, ◌≢◌, ◌∙◌, refl, sym, ap, true, false, ◌==◌, update, inl, inr, Bool-cases,
  none, some, List, arith, add32,
}
use myfuse.BufCache.{CacheBuf, Cache, got, bcache_hash, find, recycled, first_free, bread}
use myfuse.BufCache.Lookup.{
  bucket_view, shown, IsSingle, ==_true, ==_false, find-none, find-some, bucket_view-update,
  bucket_view-unlink,
}
use myfuse.BufCache.Single.{update_at, update_away, IsSingle-first, IsSingle-absent, IsSingle-away}
use myfuse.BufCache.Free.{first_free-some, of_reverse}
use myfuse.BufCache.Recycle.{filled, bread_hit, bread_own, bucket_view-agree, bucket_view-only}
use myfuse.BufCache.Invariant.{view, IsCache, IsClean, Fetches}

module _ (c : Cache) (b : ℕ) (cache : IsCache c) (clean : IsClean c) where
  -- Buffer `s` is now the referenced buffer `y` of block `b`, and the other buffers are in the
  -- buckets they were in.
  module _ (s : ℕ) (y : CacheBuf) (hash : ℕ → List ℕ) (number : y.blockno ≡ b) (held : y.refcnt ≢ 0)
      (stay : (h t : ℕ) → t ≢ s → Memᴰ t (hash h) → Memᴰ t (c.hash h))
      (mine : (h : ℕ) → Memᴰ s (hash h) → bcache_hash b ≡ h) where
    unfoldable pub after : Cache
    after = record c { buf = update c.buf s y; hash = hash }

    others : (t : ℕ) → (update c.buf s y t).refcnt ≡ 0 → (t ≢ s) × (update c.buf s y t ≡ c.buf t)
    others t z = elim (Bool-cases (t == s)) [
      | inl here ↦
          let hit : (s == t) ≡ true = ground arith in let z' = rw hit at z in absurd (held z')
      | inr away ↦ (==_false t s away, update_away c.buf s t y (==_false t s away))
    ]

    after-home : (h t : ℕ) → Memᴰ t (hash h) → bcache_hash (update c.buf s y t).blockno ≡ h
    after-home h t m = elim (Bool-cases (t == s)) [
      | inl here ↦
          let same = ==_true t s here in
          let hit : (s == t) ≡ true = ground arith in
          rw (hit, number) (mine h (Memᴰ.cast (sym same) m))
      | inr away ↦
          let apart = ==_false t s away in
          ap (λ z. bcache_hash z.blockno) (update_away c.buf s t y apart)
          ∙ cache.home h t (stay h t apart m)
    ]

    after-idle : (t : ℕ) → (update c.buf s y t).refcnt ≡ 0 → (update c.buf s y t).locked ≡ false
    after-idle t z =
        let (apart, q) = others t z in
        ap (λ z. z.locked) q ∙ cache.idle t (sym (ap (λ z. z.refcnt) q) ∙ z)

    after-IsClean : IsClean after
    unfolding after
    after-IsClean h t m z v =
        let (apart, q) = others t z in
        ap (λ z. z.contents) q
        ∙ clean h t (stay h t apart m) (sym (ap (λ z. z.refcnt) q) ∙ z)
            (sym (ap (λ z. z.valid) q) ∙ v)
        ∙ sym (ap (λ z. c.disk z.blockno) q)

    -- what `bread` gives, once the buckets and what they show are known
    pub after-Fetches :
        y.locked ≡ true
        → y.contents ≡ view c b
        → ((b' : ℕ) → view after b' ≡ view c b')
        → ((h : ℕ) → IsSingle (update c.buf s y) (hash h))
        → Fetches c b s after
    unfolding after
    after-Fetches locked holds same single =
        let at = update_at c.buf s y in
        record {
          number = ap (λ z. z.blockno) at ∙ number;
          locked = ap (λ z. z.locked) at ∙ locked;
          holds = ap (λ z. z.contents) at ∙ holds;
          same_view = same;
          same_disk = refl;
          cache = record { home = after-home; single = single; idle = after-idle };
          clean = after-IsClean;
        }

  -- A buffer is in one bucket.
  pub elsewhere : (h i s : ℕ) → Memᴰ s (c.hash h) → h ≢ i → Memᴰ s (c.hash i) → ⊥
  elsewhere h i s m apart m' = apart (sym (cache.home h s m) ∙ cache.home i s m')

  -- If bucket `h` is as it should be after a change of its buffer `s`, all are.
  all-IsSingle :
      (h s : ℕ) (y : CacheBuf)
      → Memᴰ s (c.hash h)
      → IsSingle (update c.buf s y) (c.hash h)
      → (i : ℕ) → IsSingle (update c.buf s y) (c.hash i)
  all-IsSingle h s y m single i = elim (Bool-cases (h == i)) [
    | inl here ↦ subst (λ j. IsSingle (update c.buf s y) (c.hash j)) (==_true h i here) single
    | inr away ↦
        IsSingle-away c.buf (c.hash i) s y (elsewhere h i s m (==_false h i away)) (cache.single i)
  ]

  -- A clean buffer that gets block `b` changes nothing of what a bucket shows of other blocks.
  pub recycled_view :
      (h s : ℕ) (y : CacheBuf)
      → Memᴰ s (c.hash h)
      → (c.buf s).refcnt ≡ 0
      → y.blockno ≡ b
      → (b' : ℕ) (l : List ℕ) → b' ≢ b
      → IsSingle c.buf l
      → bucket_view (update c.buf s y) (c.disk b') b' l ≡ bucket_view c.buf (c.disk b') b' l
  recycled_view h s y m zero_refs number b' l apart single =
      bucket_view-update c.buf (c.disk b') b' l s y (λ q. apart (sym q ∙ number))
      ∙ bucket_view-unlink c.buf (c.disk b') b' l s single
          (λ q v. clean h s m zero_refs v ∙ ap c.disk q)

  -- The block is cached.
  pub fetch_hit :
      (s : ℕ)
      → find c.buf b (c.hash (bcache_hash b)) ≡ some s
      → (c.buf s).locked ≡ false
      → (c.buf s).refcnt < 2 ^ 32 - 1
      → (c' : Cache) × (bread c b ≡ got s c') × Fetches c b s c'
  unfolding after
  fetch_hit s e free few =
      let hashid = bcache_hash b in
      let y = filled (record (c.buf s) { refcnt = add32 (c.buf s).refcnt 1 }) (c.disk b) in
      let (mem, number, seen) = find-some c.buf (c.disk b) b (c.hash hashid) s e in
      let same : (b' : ℕ)
          → (c.buf s).blockno ≡ b'
          → shown y (c.disk b') ≡ shown (c.buf s) (c.disk b') =
        λ b' q. ap (λ d. shown (c.buf s) (c.disk d)) (sym number ∙ q) in
      (
        _,
        bread_hit c b s e free,
        after-Fetches s y c.hash number (omega arith) (λ h t apart m. m)
            (λ h m. ap bcache_hash (sym number) ∙ cache.home h s m) refl (sym seen)
            (λ b'.
              bucket_view-agree c.buf (c.disk b') b' (c.hash (bcache_hash b')) s y refl (same b'))
            (all-IsSingle hashid s y mem
              (IsSingle-first c.buf b (c.hash hashid) s y e number (cache.single hashid))),
      )

  -- A buffer of the block's own bucket is recycled.
  pub fetch_own :
      (s : ℕ)
      → find c.buf b (c.hash (bcache_hash b)) ≡ none
      → first_free c.buf (reverse (c.hash (bcache_hash b))) ≡ some s
      → (c' : Cache) × (bread c b ≡ got s c') × Fetches c b s c'
  unfolding after
  fetch_own s e e' =
      let hashid = bcache_hash b in
      let y = filled (recycled (c.buf s) b) (c.disk b) in
      let (mem', zero_refs) = first_free-some c.buf (reverse (c.hash hashid)) s e' in
      let mem = of_reverse (c.hash hashid) s mem' in
      let (seen, absent) = find-none c.buf (c.disk b) b (c.hash hashid) e in
      (
        _,
        bread_own c b s e e' (cache.idle s zero_refs),
        after-Fetches s y c.hash refl (omega arith) (λ h t apart m. m)
            (λ h m. sym (cache.home hashid s mem) ∙ cache.home h s m) refl (sym seen)
            (λ b'. elim (Bool-cases (b' == b)) [
              | inl here ↦
                  subst
                    (λ i.
                      bucket_view (update c.buf s y) (c.disk i) i (c.hash (bcache_hash i))
                      ≡ view c i)
                    (sym (==_true b' b here))
                    (bucket_view-only c.buf (c.disk b) b (c.hash hashid) s y absent mem refl
                      ∙ sym seen)
              | inr away ↦
                  recycled_view hashid s y mem zero_refs refl b' (c.hash (bcache_hash b'))
                    (==_false b' b away) (cache.single (bcache_hash b'))
            ])
            (all-IsSingle hashid s y mem
              (IsSingle-absent c.buf b (c.hash hashid) s y absent refl (cache.single hashid))),
      )
