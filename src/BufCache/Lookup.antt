-- ===== src/BufCache/Lookup.antt =====
-- What a bucket of the buffer cache (src/buf_cache.c) shows of a block, and how that changes with
-- its buffers.
use mathlib.Core.Path.{subst}
use mathlib.Core.List.{Memᴰ}
use mathlib.Core.List.Memᴰ
use myfuse.Common.{
  ℕ, ◌≡◌, ◌≢◌, ◌∙◌, refl, sym, ap, true, false, ◌==◌, if◌then◌else◌, update, inl, inr, Bool-cases,
  none, some, List, [], ◌∷◌, arith,
}
use myfuse.Machine.Block.{Block}
use myfuse.BufCache.{CacheBuf, find, unlink}

-- What a buffer of a block shows, with the block on the disk.
abbrev pub shown : CacheBuf → Block → Block
shown b d = if b.valid then b.contents else d

-- What a bucket shows of block `b`, with the block on the disk.
abbrev pub bucket_view : (ℕ → CacheBuf) → Block → ℕ → List ℕ → Block
bucket_view buf d b [] = d
bucket_view buf d b (s ∷ l) =
    if (buf s).blockno == b then shown (buf s) d else bucket_view buf d b l

-- A buffer stands once in its bucket, and one that comes after another of its block is not valid.
abbrev pub IsSingle : (ℕ → CacheBuf) → List ℕ → Type 0
IsSingle buf [] = Unit {0}
IsSingle buf (s ∷ l) =
    (Memᴰ s l → ⊥)
    × ((t : ℕ) → Memᴰ t l → (buf t).blockno ≡ (buf s).blockno → (buf t).valid ≡ false)
    × IsSingle buf l

pub ==_true : (a b : ℕ) → (a == b) ≡ true → a ≡ b
==_true a b h = ground arith

pub ==_false : (a b : ℕ) → (a == b) ≡ false → a ≢ b
==_false a b h = ground arith

-- A clean buffer shows the disk.
shown-clean : (x : CacheBuf) (d : Block) → (x.valid ≡ true → x.contents ≡ d) → shown x d ≡ d
shown-clean x d clean = elim (Bool-cases x.valid) [ inl v ↦ rw v (clean v) | inr v ↦ rw v refl ]

pub find-none :
    (buf : ℕ → CacheBuf) (d : Block) (b : ℕ) (l : List ℕ)
    → find buf b l ≡ none
    → (bucket_view buf d b l ≡ d) × ((t : ℕ) → Memᴰ t l → (buf t).blockno ≢ b)
unfolding find
find-none buf d b [] e = (refl, λ t h. absurd (Memᴰ.not-nil h))
find-none buf d b (s ∷ l) e = elim (Bool-cases ((buf s).blockno == b)) [
  | inl here ↦ let e' = rw here at e in cc e'
  | inr other ↦
      let e' = rw other at e in
      let (same, none_below) = find-none buf d b l e' in
      (
        rw other same,
        λ t h. elim (Memᴰ.cases_cons h) [
          | inl q ↦ λ r.
              let apart : (buf t).blockno ≢ b = rw q (==_false (buf s).blockno b other) in apart r
          | inr below ↦ none_below t below
        ],
      )
]

pub find-some :
    (buf : ℕ → CacheBuf) (d : Block) (b : ℕ) (l : List ℕ) (s : ℕ)
    → find buf b l ≡ some s
    → Memᴰ s l × ((buf s).blockno ≡ b) × (bucket_view buf d b l ≡ shown (buf s) d)
unfolding find
find-some buf d b [] s e = cc e
find-some buf d b (t ∷ l) s e = elim (Bool-cases ((buf t).blockno == b)) [
  | inl here ↦
      let e' = rw here at e in
      let same : t ≡ s = cc e' in
      let number : (buf s).blockno ≡ b =
        subst (λ u. (buf u).blockno ≡ b) same (==_true (buf t).blockno b here) in
      (Memᴰ.head (sym same), number, rw here (ap (λ u. shown (buf u) d) same))
  | inr other ↦
      let e' = rw other at e in
      let (mem, number, view) = find-some buf d b l s e' in (Memᴰ.tail mem, number, rw other view)
]

-- Buffers that are not valid show the disk.
pub bucket_view-invalid :
    (buf : ℕ → CacheBuf) (d : Block) (b : ℕ) (l : List ℕ)
    → ((t : ℕ) → Memᴰ t l → (buf t).blockno ≡ b → (buf t).valid ≡ false)
    → bucket_view buf d b l ≡ d
bucket_view-invalid buf d b [] h = refl
bucket_view-invalid buf d b (s ∷ l) h =
    let below = bucket_view-invalid buf d b l (λ t m. h t (Memᴰ.tail m)) in
    elim (Bool-cases ((buf s).blockno == b)) [
      | inl here ↦
          let q = h s (Memᴰ.head refl) (==_true (buf s).blockno b here) in rw (here, q) refl
      | inr other ↦ rw other below
    ]

pub unlink-Memᴰ : (s : ℕ) (l : List ℕ) (t : ℕ) → Memᴰ t (unlink s l) → Memᴰ t l × (t ≢ s)
unfolding unlink
unlink-Memᴰ s [] t h = absurd (Memᴰ.not-nil h)
unlink-Memᴰ s (u ∷ l) t h = elim (Bool-cases (u == s)) [
  | inl same ↦ let h' = rw same at h in let (m, n) = unlink-Memᴰ s l t h' in (Memᴰ.tail m, n)
  | inr other ↦
      let h' = rw other at h in
      elim (Memᴰ.cases_cons h') [
        | inl q ↦ (Memᴰ.head q, λ r. ==_false u s other (sym q ∙ r))
        | inr below ↦ let (m, n) = unlink-Memᴰ s l t below in (Memᴰ.tail m, n)
      ]
]

-- A buffer that is of another block, now, might as well not be in the bucket.
pub bucket_view-update :
    (buf : ℕ → CacheBuf) (d : Block) (b : ℕ) (l : List ℕ) (s : ℕ) (x : CacheBuf)
    → x.blockno ≢ b
    → bucket_view (update buf s x) d b l ≡ bucket_view buf d b (unlink s l)
unfolding unlink
bucket_view-update buf d b [] s x h = refl
bucket_view-update buf d b (t ∷ l) s x h =
    let below = bucket_view-update buf d b l s x h in
    elim (Bool-cases (t == s)) [
      | inl here ↦
          let at : (s == t) ≡ true = ground arith in
          let other : (x.blockno == b) ≡ false = ground arith in rw (here, at, other) below
      | inr away ↦
          let at : (s == t) ≡ false = ground arith in
          elim (Bool-cases ((buf t).blockno == b)) [
            | inl match ↦ rw (away, at, match) refl
            | inr other ↦ rw (away, at, other) below
          ]
    ]

-- To take out a buffer changes nothing if it is clean, and the others of its block are not valid.
pub bucket_view-unlink :
    (buf : ℕ → CacheBuf) (d : Block) (b : ℕ) (l : List ℕ) (s : ℕ)
    → IsSingle buf l
    → ((buf s).blockno ≡ b → (buf s).valid ≡ true → (buf s).contents ≡ d)
    → bucket_view buf d b (unlink s l) ≡ bucket_view buf d b l
unfolding unlink
bucket_view-unlink buf d b [] s single clean = refl
bucket_view-unlink buf d b (t ∷ l) s (once, later, single) clean =
    let below = bucket_view-unlink buf d b l s single clean in
    elim (Bool-cases (t == s)) [
      | inl here ↦
          let same : t ≡ s = ==_true t s here in
          elim (Bool-cases ((buf t).blockno == b)) [
            | inl match ↦
                let number : (buf t).blockno ≡ b = ==_true (buf t).blockno b match in
                let hidden = bucket_view-invalid buf d b l (λ u m q. later u m (q ∙ sym number)) in
                let clean' : (buf t).valid ≡ true → (buf t).contents ≡ d =
                  rw same (clean (subst (λ u. (buf u).blockno ≡ b) same number)) in
                rw (here, match) (below ∙ hidden ∙ sym (shown-clean (buf t) d clean'))
            | inr other ↦ rw (here, other) below
          ]
      | inr away ↦ elim (Bool-cases ((buf t).blockno == b)) [
        | inl match ↦ rw (away, match) refl
        | inr other ↦ rw (away, other) below
      ]
    ]
