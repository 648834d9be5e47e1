-- ===== src/BufCache/Writes.antt =====
-- `bwrite`, `brelse`, `bpin` and `bunpin` of src/buf_cache.c.
use mathlib.Core.Path.{subst}
use mathlib.Core.List.{Memᴰ}
use mathlib.Core.List.Memᴰ
use myfuse.Common.{
  ℕ, ◌≡◌, ◌≢◌, ◌∙◌, refl, sym, ap, true, false, ◌==◌, update, inl, inr, Bool-cases, List, [], ◌∷◌,
  arith, add32, sub32,
}
use myfuse.Machine.Block.{Block}
use myfuse.BufCache.{CacheBuf, Cache, bcache_hash, bwrite, brelse, bpin, bunpin, set_slot}
use myfuse.BufCache.Lookup.{bucket_view, IsSingle, ==_true}
use myfuse.BufCache.Single.{IsSingle-agree}
use myfuse.BufCache.Recycle.{bucket_view-agree}
use myfuse.BufCache.Invariant.{view, IsCache}

-- A bucket shows of a block what its valid buffer holds.
bucket_view-held :
    (buf : ℕ → CacheBuf) (d : Block) (b : ℕ) (l : List ℕ) (s : ℕ)
    → IsSingle buf l
    → Memᴰ s l
    → (buf s).blockno ≡ b
    → (buf s).valid ≡ true
    → bucket_view buf d b l ≡ (buf s).contents
bucket_view-held buf d b [] s single m number valid = absurd (Memᴰ.not-nil m)
bucket_view-held buf d b (t ∷ l) s (once, later, single) m number valid = elim (Memᴰ.cases_cons m) [
  | inl q ↦
      let hit : ((buf t).blockno == b) ≡ true =
        let n = sym (ap (λ u. (buf u).blockno) q) ∙ number in ground arith in
      let v = sym (ap (λ u. (buf u).valid) q) ∙ valid in
      rw (hit, v) (ap (λ u. (buf u).contents) (sym q))
  | inr below ↦ elim (Bool-cases ((buf t).blockno == b)) [
    | inl match ↦
        let hidden = later s below (number ∙ sym (==_true (buf t).blockno b match)) in
        cc (hidden, valid)
    | inr other ↦ rw other (bucket_view-held buf d b l s single below number valid)
  ]
]

module _ (c : Cache) (cache : IsCache c) (s : ℕ) where
  -- a buffer whose references and lock change
  touched :
      (x : CacheBuf)
      → x.blockno ≡ (c.buf s).blockno
      → x.valid ≡ (c.buf s).valid
      → x.contents ≡ (c.buf s).contents
      → (x.refcnt ≡ 0 → x.locked ≡ false)
      → IsCache (set_slot c s x) × ((b : ℕ) → view (set_slot c s x) b ≡ view c b)
  touched x number valid contents idle =
      let cases = λ (t : ℕ). Bool-cases (s == t) in
      let at : (t : ℕ) → (update c.buf s x t).blockno ≡ (c.buf t).blockno = λ t. elim (cases t) [
        | inl here ↦ rw here (number ∙ ap (λ u. (c.buf u).blockno) (==_true s t here))
        | inr away ↦ rw away refl
      ] in
      let still : (t : ℕ) → (update c.buf s x t).valid ≡ (c.buf t).valid = λ t. elim (cases t) [
        | inl here ↦ rw here (valid ∙ ap (λ u. (c.buf u).valid) (==_true s t here))
        | inr away ↦ rw away refl
      ] in
      (
        record {
          home = λ h t m. ap bcache_hash (at t) ∙ cache.home h t m;
          single = λ h.
              IsSingle-agree c.buf (update c.buf s x) (c.hash h) (λ t m. at t)
                (λ t m v. still t ∙ v) (cache.single h);
          idle =
              λ t. elim (cases t) [ inl here ↦ rw here idle | inr away ↦ rw away (cache.idle t) ];
        },
        λ b.
            bucket_view-agree c.buf (c.disk b) b (c.hash (bcache_hash b)) s x number
              (λ q. rw (valid, contents) refl),
      )

  written : ℕ → Block
  written = update c.disk (c.buf s).blockno (c.buf s).contents

  update_self : written (c.buf s).blockno ≡ (c.buf s).contents
  unfolding written
  update_self =
      let hit : ((c.buf s).blockno == (c.buf s).blockno) ≡ true = ground arith in rw hit refl

  -- what the cache shows when the block of a valid buffer is written
  written-view :
      (h : ℕ)
      → Memᴰ s (c.hash h)
      → (c.buf s).valid ≡ true
      → (b : ℕ) → bucket_view c.buf (written b) b (c.hash (bcache_hash b)) ≡ view c b
  unfolding written
  written-view h m valid b = elim (Bool-cases ((c.buf s).blockno == b)) [
    | inl here ↦
        let number = ==_true (c.buf s).blockno b here in
        let own : h ≡ bcache_hash b = sym (cache.home h s m) ∙ ap bcache_hash number in
        let m' = subst (λ i. Memᴰ s (c.hash i)) own m in
        let held = λ (d : Block).
          bucket_view-held c.buf d b (c.hash (bcache_hash b)) s (cache.single (bcache_hash b)) m'
            number valid in
        held (update c.disk (c.buf s).blockno (c.buf s).contents b) ∙ sym (held (c.disk b))
    | inr other ↦ rw other refl
  ]

  -- On a cache in order, for a valid buffer in a bucket, whose count of references does not
  -- overflow when one more is added, and which is not locked if `bunpin` takes its last reference:
  -- none of `bpin`, `bunpin`, `brelse` and `bwrite` changes what the cache shows of any block, and
  -- the invariant is kept. After `bwrite` the disk has what the buffer holds.
  pub writes-view :
      (h : ℕ)
      → Memᴰ s (c.hash h)
      → (c.buf s).valid ≡ true
      → (sub32 (c.buf s).refcnt 1 ≡ 0 → (c.buf s).locked ≡ false)
      → (add32 (c.buf s).refcnt 1 ≢ 0)
      → (IsCache (bpin c s) × ((b : ℕ) → view (bpin c s) b ≡ view c b))
        × (IsCache (bunpin c s) × ((b : ℕ) → view (bunpin c s) b ≡ view c b))
        × (IsCache (brelse c s) × ((b : ℕ) → view (brelse c s) b ≡ view c b))
        × (IsCache (bwrite c s) × ((b : ℕ) → view (bwrite c s) b ≡ view c b))
        × ((bwrite c s).disk (c.buf s).blockno ≡ (c.buf s).contents)
  unfolding bpin bunpin brelse bwrite written
  writes-view h m valid unpinned few = (
    touched (record (c.buf s) { refcnt = add32 (c.buf s).refcnt 1 }) refl refl refl
        (λ z. absurd (few z)),
    touched (record (c.buf s) { refcnt = sub32 (c.buf s).refcnt 1 }) refl refl refl unpinned,
    touched _ refl refl refl (λ z. refl),
    (
      record { home = cache.home; single = cache.single; idle = cache.idle },
      written-view h m valid,
    ),
    update_self,
  )
