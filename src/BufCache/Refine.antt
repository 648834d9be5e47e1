-- ===== src/BufCache/Refine.antt =====
-- `bread` of src/buf_cache.c refines the read of a map from blocks to contents: which buffer it
-- takes, and whose place, cannot be seen.
use mathlib.Core.Path.{subst}
use mathlib.Core.List.{Memᴰ, reverse}
use myfuse.Common.{
  ℕ, ◌-◌, ◌^◌, ◌<◌, ◌≤◌, ◌≡◌, ◌⊎◌, ◌∙◌, refl, sym, false, ◌==◌, update, inl, inr, Bool-cases,
  Option-cases, none, some, arith,
}
use myfuse.BufCache.{
  Cache, got, bcache_hash, bcache_hash_size, find, recycled, first_free, search_buckets, bread,
  latest,
}
use myfuse.BufCache.Lookup.{bucket_view, ==_true, ==_false, find-none}
use myfuse.BufCache.Free.{search_buckets-some}
use myfuse.BufCache.Recycle.{filled, bread_other}
use myfuse.BufCache.Invariant.{view, IsCache, IsClean, Fetches}
use myfuse.BufCache.Taken.{after, after-Fetches, fetch_hit, fetch_own}
use myfuse.BufCache.Free.{first_free-none, search_buckets-none, to_reverse}
use myfuse.BufCache.Relinked.{relinked, stay, mine, other_view, single', own_view}

-- `bread` of block `b` finds a buffer: the block is cached and its buffer is not locked, or it is not
-- cached and some buffer has no references.
abbrev pub IsReady : Cache → ℕ → Type 0
IsReady c b =
    ((s : ℕ) × (find c.buf b (c.hash (bcache_hash b)) ≡ some s)
      × ((c.buf s).locked ≡ false)
      × ((c.buf s).refcnt < 2 ^ 32 - 1))
    ⊎ ((find c.buf b (c.hash (bcache_hash b)) ≡ none)
        × ((h : ℕ) × (t : ℕ) × (h < bcache_hash_size)
            × Memᴰ t (c.hash h)
            × ((c.buf t).timestamp ≤ latest)
            × ((c.buf t).refcnt ≡ 0)))

module _ (c : Cache) (b : ℕ) (cache : IsCache c) (clean : IsClean c) where
  -- A buffer of another bucket is recycled.
  fetch_other :
      (h s : ℕ)
      → find c.buf b (c.hash (bcache_hash b)) ≡ none
      → first_free c.buf (reverse (c.hash (bcache_hash b))) ≡ none
      → search_buckets c (bcache_hash b) bcache_hash_size 0 ≡ some (h, s)
      → (c' : Cache) × (bread c b ≡ got s c') × Fetches c b s c'
  unfolding after relinked
  fetch_other h s e e' e'' =
      let hashid = bcache_hash b in
      let y = filled (recycled (c.buf s) b) (c.disk b) in
      let (apart, mem, zero_refs) = search_buckets-some c hashid bcache_hash_size 0 h s e'' in
      let (seen, absent) = find-none c.buf (c.disk b) b (c.hash hashid) e in
      let run : bread c b
          ≡ got s (record c { buf = update c.buf s y; hash = relinked c.hash hashid h s }) =
        bread_other c b s h e e' e'' (cache.idle s zero_refs) in
      (
        _,
        run,
        after-Fetches c b cache clean s y (relinked c.hash hashid h s) refl (omega arith)
            (stay c b cache clean h s y apart mem refl absent)
            (mine c b cache clean h s y apart mem refl absent) refl (sym seen)
            (λ b'. elim (Bool-cases (b' == b)) [
              | inl here ↦
                  subst
                    (λ i.
                      bucket_view (update c.buf s y) (c.disk i) i
                        (relinked c.hash hashid h s (bcache_hash i))
                      ≡ view c i)
                    (sym (==_true b' b here))
                    (own_view c b cache clean h s y apart mem refl absent (c.disk b) ∙ sym seen)
              | inr away ↦
                  other_view c b cache clean h s y apart mem refl absent zero_refs b'
                    (==_false b' b away)
            ])
            (single' c b cache clean h s y apart mem refl absent),
      )

  -- `bread` of a block that is cached and not locked, or is not cached while some buffer of the cache
  -- is without references, returns a locked buffer of that block, with what the cache showed of it;
  -- and of every block, that of a buffer recycled too, the cache shows what it showed. The buckets
  -- stay in order, and what is in a buffer without references is still on the disk.
  pub bread-Fetches :
      IsReady c b → (s : ℕ) × (c' : Cache) × (bread c b ≡ got s c') × Fetches c b s c'
  bread-Fetches (inl (s, found, free, few)) =
      let (c', run, f) = fetch_hit c b cache clean s found free few in (s, c', run, f)
  bread-Fetches (inr (absent, free)) =
      let (h, t, low, m, old, zero_refs) = free in
      let hashid = bcache_hash b in
      elim (Option-cases (first_free c.buf (reverse (c.hash hashid)))) [
        | inr (s, e) ↦ let (c', run, f) = fetch_own c b cache clean s absent e in (s, c', run, f)
        | inl none_own ↦ elim (Option-cases (search_buckets c hashid bcache_hash_size 0)) [
          | inr (found, e) ↦
              let (c', run, f) = fetch_other found.0 found.1 absent none_own e in
              (found.1, c', run, f)
          | inl none_other ↦ elim (Bool-cases (h == hashid)) [
            | inl own ↦
                let m' = subst (λ i. Memᴰ t (c.hash i)) (==_true h hashid own) m in
                absurd (
                  first_free-none c.buf (reverse (c.hash hashid)) none_own t
                    (to_reverse (c.hash hashid) t m') old zero_refs)
            | inr other ↦ absurd (
                search_buckets-none c hashid bcache_hash_size 0 none_other h t (omega arith)
                  (omega (arith, low)) (==_false h hashid other) m old zero_refs)
          ]
        ]
      ]
