-- ===== src/BufCache/Start.antt =====
-- `bcache_init` of src/buf_cache.c, on the zeroed memory of `static struct bcache bcache`.
use mathlib.Core.List.{Memᴰ}
use mathlib.Core.List.Memᴰ
use myfuse.Common.{
  ℕ, zero, suc, ◌≡◌, ◌≤◌, ◌<◌, ◌⊎◌, ◌∙◌, ltb, length, refl, sym, ap, false, ◌==◌, inl, inr,
  Bool-cases, arith,
}
use myfuse.BufCache.{CacheBuf, Cache, static_buf, ncache_buf, push_all, bcache_init, bcache_hash}
use myfuse.BufCache.Lookup.{IsSingle, bucket_view-invalid, ==_true}
use myfuse.BufCache.Invariant.{IsCache, IsClean, view}

push_all-below : (k t : ℕ) → Memᴰ t (push_all k) → t < k
unfolding push_all
push_all-below zero t m = absurd (Memᴰ.not-nil m)
push_all-below (suc k) t m = elim (Memᴰ.cases_cons m) [
  | inl q ↦ omega (arith, q)
  | inr below ↦ omega (arith, push_all-below k t below)
]

push_all-all : (k t : ℕ) → t < k → Memᴰ t (push_all k)
unfolding push_all
push_all-all zero t low = absurd (omega (arith, low))
push_all-all (suc k) t low = elim (Bool-cases (t == k)) [
  | inl last ↦ Memᴰ.head (==_true t k last)
  | inr below ↦ Memᴰ.tail (push_all-all k t (ground (arith, below, low)))
]

length-push_all : (k : ℕ) → length (push_all k) ≡ k
unfolding push_all
length-push_all zero = refl
length-push_all (suc k) = omega (arith, length-push_all k)

push_all-IsSingle :
    (buf : ℕ → CacheBuf) (k : ℕ) → ((t : ℕ) → (buf t).valid ≡ false) → IsSingle buf (push_all k)
unfolding push_all
push_all-IsSingle buf zero fresh = tt
push_all-IsSingle buf (suc k) fresh = (
  λ m. absurd (omega (arith, push_all-below k k m)),
  λ t m q. fresh t,
  push_all-IsSingle buf k fresh,
)

-- From zeroed memory `bcache_init` makes a cache in order, with nothing in it that is not on the
-- disk; it shows the disk. Bucket 0 has all NCACHE_BUF buffers, as many as it is long, so each of them
-- once, and none of them has a reference: any of them can be taken for a block.
pub bcache_init-IsCache :
    (c : Cache)
    → ((s : ℕ) → c.buf s ≡ static_buf)
    → IsCache (bcache_init c)
      × IsClean (bcache_init c)
      × ((b : ℕ) → view (bcache_init c) b ≡ c.disk b)
      × (length ((bcache_init c).hash 0) ≡ ncache_buf)
      × ((s : ℕ)
          → (ncache_buf ≤ s)
            ⊎ (Memᴰ s ((bcache_init c).hash 0) × (((bcache_init c).buf s).refcnt ≡ 0)))
unfolding bcache_init
bcache_init-IsCache c fresh =
    let invalid : (t : ℕ) → (c.buf t).valid ≡ false = λ t. ap (λ z. z.valid) (fresh t) in
    let buf = (bcache_init c).buf in
    (
      record {
        home = λ h s m. elim (Bool-cases (h == 0)) [
          | inl z ↦ ap (λ z. bcache_hash z.blockno) (fresh s) ∙ sym (==_true h 0 z)
          | inr nz ↦ let m' = rw nz at m in absurd (Memᴰ.not-nil m')
        ];
        single = λ h. elim (Bool-cases (h == 0)) [
          | inl z ↦ rw z (push_all-IsSingle buf ncache_buf invalid)
          | inr nz ↦ rw nz tt
        ];
        idle = λ s z. refl;
      },
      λ h s m z v. cc (v, invalid s),
      λ b.
          bucket_view-invalid buf (c.disk b) b ((bcache_init c).hash (bcache_hash b))
            (λ t m q. invalid t),
      length-push_all ncache_buf,
      λ s. elim (Bool-cases (ltb s ncache_buf)) [
        | inl low ↦
            inr (push_all-all ncache_buf s (ground (arith, low)), ap (λ z. z.refcnt) (fresh s))
        | inr high ↦ inl (ground (arith, high))
      ],
    )
