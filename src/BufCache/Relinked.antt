-- ===== src/BufCache/Relinked.antt =====
-- A buffer moved to another bucket by `bget` (src/buf_cache.c): what the buckets then hold and show.
use mathlib.Core.Path.{subst}
use mathlib.Core.List.{Memᴰ}
use mathlib.Core.List.Memᴰ
use myfuse.Common.{
  ℕ, ◌≡◌, ◌≢◌, ◌⊎◌, ◌∙◌, refl, sym, ap, true, false, ◌==◌, update, inl, inr, Bool-cases, List, ◌∷◌,
  arith,
}
use myfuse.Machine.Block.{Block}
use myfuse.BufCache.{CacheBuf, Cache, bcache_hash, unlink}
use myfuse.BufCache.Lookup.{
  bucket_view, shown, IsSingle, ==_true, ==_false, unlink-Memᴰ, bucket_view-unlink,
}
use myfuse.BufCache.Single.{update_at, update_away, IsSingle-away, IsSingle-unlink}
use myfuse.BufCache.Invariant.{view, IsCache, IsClean}
use myfuse.BufCache.Taken.{elsewhere, recycled_view}

-- the buckets after `relink`
unfoldable pub relinked : (ℕ → List ℕ) → ℕ → ℕ → ℕ → ℕ → List ℕ
relinked hash hashid h s = update (update hash h (unlink s (hash h))) hashid (s ∷ hash hashid)

relinked-cases :
    (hash : ℕ → List ℕ) (hashid h s i : ℕ)
    → ((hashid ≡ i) × (relinked hash hashid h s i ≡ s ∷ hash hashid))
      ⊎ ((h ≡ i) × (hashid ≢ i) × (relinked hash hashid h s i ≡ unlink s (hash h)))
      ⊎ ((h ≢ i) × (hashid ≢ i) × (relinked hash hashid h s i ≡ hash i))
unfolding relinked
relinked-cases hash hashid h s i = elim (Bool-cases (hashid == i)) [
  | inl own ↦ inl (==_true hashid i own, rw own refl)
  | inr other ↦ elim (Bool-cases (h == i)) [
    | inl here ↦ inr (inl (==_true h i here, ==_false hashid i other, rw (other, here) refl))
    | inr away ↦ inr (inr (==_false h i away, ==_false hashid i other, rw (other, away) refl))
  ]
]

module _ (c : Cache) (b : ℕ) (cache : IsCache c) (clean : IsClean c) where
  -- Buffer `s` of bucket `h` becomes buffer `y` of block `b`, whose bucket is another.
  module _ (h s : ℕ) (y : CacheBuf) (apart : h ≢ bcache_hash b) (mem : Memᴰ s (c.hash h))
      (number : y.blockno ≡ b)
      (absent : (t : ℕ) → Memᴰ t (c.hash (bcache_hash b)) → (c.buf t).blockno ≢ b) where
    abbrev pub hash' : ℕ → List ℕ
    hash' = relinked c.hash (bcache_hash b) h s

    cases :
        (i : ℕ)
        → ((bcache_hash b ≡ i) × (hash' i ≡ s ∷ c.hash (bcache_hash b)))
          ⊎ ((h ≡ i) × (bcache_hash b ≢ i) × (hash' i ≡ unlink s (c.hash h)))
          ⊎ ((h ≢ i) × (bcache_hash b ≢ i) × (hash' i ≡ c.hash i))
    cases = relinked-cases c.hash (bcache_hash b) h s

    not_own : Memᴰ s (c.hash (bcache_hash b)) → ⊥
    not_own = elsewhere c b cache clean h (bcache_hash b) s mem apart

    pub stay : (i t : ℕ) → t ≢ s → Memᴰ t (hash' i) → Memᴰ t (c.hash i)
    stay i t other m = elim (cases i) [
      | inl (q, r) ↦ elim (Memᴰ.cases_cons (subst (λ l. Memᴰ t l) r m)) [
        | inl e ↦ absurd (other e)
        | inr m' ↦ subst (λ j. Memᴰ t (c.hash j)) q m'
      ]
      | inr (inl (q, n, r)) ↦
          subst (λ j. Memᴰ t (c.hash j)) q
            (unlink-Memᴰ s (c.hash h) t (subst (λ l. Memᴰ t l) r m)).0
      | inr (inr (n, n', r)) ↦ subst (λ l. Memᴰ t l) r m
    ]

    pub mine : (i : ℕ) → Memᴰ s (hash' i) → bcache_hash b ≡ i
    mine i m = elim (cases i) [
      | inl (q, r) ↦ q
      | inr (inl (q, n, r)) ↦
          absurd ((unlink-Memᴰ s (c.hash h) s (subst (λ l. Memᴰ s l) r m)).1 refl)
      | inr (inr (n, n', r)) ↦
          absurd (elsewhere c b cache clean h i s mem n (subst (λ l. Memᴰ s l) r m))
    ]

    pub single' : (i : ℕ) → IsSingle (update c.buf s y) (hash' i)
    single' i = elim (cases i) [
      | inl (q, r) ↦
          subst (λ l. IsSingle (update c.buf s y) l) (sym r)
            (
              not_own,
              λ t m e.
                  let other : t ≢ s = λ x. not_own (Memᴰ.cast (sym x) m) in
                  let at_t = ap (λ z. z.blockno) (update_away c.buf s t y other) in
                  let at_s = ap (λ z. z.blockno) (update_at c.buf s y) in
                  absurd (absent t m (sym at_t ∙ e ∙ at_s ∙ number)),
              IsSingle-away c.buf (c.hash (bcache_hash b)) s y not_own
                  (cache.single (bcache_hash b)),
            )
      | inr (inl (q, n, r)) ↦
          subst (λ l. IsSingle (update c.buf s y) l) (sym r)
            (IsSingle-away c.buf (unlink s (c.hash h)) s y
              (λ m. (unlink-Memᴰ s (c.hash h) s m).1 refl)
              (IsSingle-unlink c.buf (c.hash h) s (cache.single h)))
      | inr (inr (n, n', r)) ↦
          subst (λ l. IsSingle (update c.buf s y) l) (sym r)
            (IsSingle-away c.buf (c.hash i) s y (elsewhere c b cache clean h i s mem n)
              (cache.single i))
    ]

    pub own_view :
        (d : Block) → bucket_view (update c.buf s y) d b (hash' (bcache_hash b)) ≡ shown y d
    own_view d = elim (cases (bcache_hash b)) [
      | inl (q, r) ↦
          let hit : (s == s) ≡ true = ground arith in
          let match : (y.blockno == b) ≡ true = ground arith in
          let first : bucket_view (update c.buf s y) d b (s ∷ c.hash (bcache_hash b)) ≡ shown y d =
            rw (hit, match) refl in
          ap (λ l. bucket_view (update c.buf s y) d b l) r ∙ first
      | inr (inl (q, n, r)) ↦ absurd (n refl)
      | inr (inr (n, n', r)) ↦ absurd (n' refl)
    ]

    module _ (zero_refs : (c.buf s).refcnt ≡ 0) where
      -- what the buckets show of another block
      pub other_view :
          (b' : ℕ)
          → b' ≢ b
          → bucket_view (update c.buf s y) (c.disk b') b' (hash' (bcache_hash b')) ≡ view c b'
      other_view b' other =
          let unseen = recycled_view c b cache clean h s y mem zero_refs number b' in
          let clean' : (c.buf s).blockno ≡ b'
              → (c.buf s).valid ≡ true
              → (c.buf s).contents ≡ c.disk b' =
            λ q v. clean h s mem zero_refs v ∙ ap c.disk q in
          let shows = λ (l : List ℕ). bucket_view (update c.buf s y) (c.disk b') b' l in
          elim (cases (bcache_hash b')) [
            | inl (q, r) ↦
                let hit : (s == s) ≡ true = ground arith in
                let miss : (y.blockno == b') ≡ false = ground arith in
                let skip : shows (s ∷ c.hash (bcache_hash b)) ≡ shows (c.hash (bcache_hash b)) =
                  rw (hit, miss) refl in
                ap shows r
                ∙ skip
                ∙ unseen (c.hash (bcache_hash b)) other (cache.single (bcache_hash b))
                ∙ ap (λ j. bucket_view c.buf (c.disk b') b' (c.hash j)) q
            | inr (inl (q, n, r)) ↦
                ap shows r
                ∙ unseen (unlink s (c.hash h)) other
                    (IsSingle-unlink c.buf (c.hash h) s (cache.single h))
                ∙ bucket_view-unlink c.buf (c.disk b') b' (c.hash h) s (cache.single h) clean'
                ∙ ap (λ j. bucket_view c.buf (c.disk b') b' (c.hash j)) q
            | inr (inr (n, n', r)) ↦
                ap shows r ∙ unseen (c.hash (bcache_hash b')) other (cache.single (bcache_hash b'))
          ]
