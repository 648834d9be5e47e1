-- ===== src/BufCache/Single.antt =====
-- The order of a bucket (src/buf_cache.c): of the buffers of one block, only the first can be valid.
use mathlib.Core.Path.{subst}
use mathlib.Core.List.{Memᴰ}
use mathlib.Core.List.Memᴰ
use myfuse.Common.{
  ℕ, ◌≡◌, ◌≢◌, ◌∙◌, refl, sym, ap, true, false, ◌==◌, update, inl, inr, Bool-cases, some, List, [],
  ◌∷◌, arith,
}
use myfuse.Machine.Block.{zeros}
use myfuse.BufCache.{CacheBuf, find, unlink}
use myfuse.BufCache.Lookup.{IsSingle, find-some, unlink-Memᴰ, ==_true, ==_false}

-- Buffers whose blocks stay, and that stay invalid if they were.
pub IsSingle-agree :
    (buf buf' : ℕ → CacheBuf) (l : List ℕ)
    → ((t : ℕ) → Memᴰ t l → (buf' t).blockno ≡ (buf t).blockno)
    → ((t : ℕ) → Memᴰ t l → (buf t).valid ≡ false → (buf' t).valid ≡ false)
    → IsSingle buf l
    → IsSingle buf' l
IsSingle-agree buf buf' [] number valid single = tt
IsSingle-agree buf buf' (s ∷ l) number valid (once, later, single) = (
  once,
  λ t m q.
      let q' = sym (number t (Memᴰ.tail m)) ∙ q ∙ number s (Memᴰ.head refl) in
      valid t (Memᴰ.tail m) (later t m q'),
  IsSingle-agree buf buf' l (λ t m. number t (Memᴰ.tail m)) (λ t m. valid t (Memᴰ.tail m)) single,
)

pub update_away : (buf : ℕ → CacheBuf) (s t : ℕ) (x : CacheBuf) → t ≢ s → update buf s x t ≡ buf t
update_away buf s t x away = let miss : (s == t) ≡ false = ground arith in rw miss refl

pub update_at : (buf : ℕ → CacheBuf) (s : ℕ) (x : CacheBuf) → update buf s x s ≡ x
update_at buf s x = let hit : (s == s) ≡ true = ground arith in rw hit refl

-- A change of a buffer that is not in the bucket.
pub IsSingle-away :
    (buf : ℕ → CacheBuf) (l : List ℕ) (s : ℕ) (x : CacheBuf)
    → (Memᴰ s l → ⊥)
    → IsSingle buf l
    → IsSingle (update buf s x) l
IsSingle-away buf l s x away single =
    let same = λ (t : ℕ) (m : Memᴰ t l). update_away buf s t x (λ q. away (Memᴰ.cast (sym q) m)) in
    IsSingle-agree buf (update buf s x) l (λ t m. ap (λ b. b.blockno) (same t m))
      (λ t m v. ap (λ b. b.valid) (same t m) ∙ v) single

-- A buffer after `t`, when `s` gets block `b` and `t` is of another.
later_kept :
    (buf : ℕ → CacheBuf) (b s t u : ℕ) (x : CacheBuf)
    → t ≢ s
    → x.blockno ≡ b
    → (buf t).blockno ≢ b
    → ((buf u).blockno ≡ (buf t).blockno → (buf u).valid ≡ false)
    → (update buf s x u).blockno ≡ (update buf s x t).blockno
    → (update buf s x u).valid ≡ false
later_kept buf b s t u x apart number other later q =
    let at_t = ap (λ y. y.blockno) (update_away buf s t x apart) in
    elim (Bool-cases (u == s)) [
      | inl here ↦
          let at_u : (update buf s x u).blockno ≡ x.blockno =
            let hit : (s == u) ≡ true = ground arith in rw hit refl in
          absurd (other (sym at_t ∙ sym q ∙ at_u ∙ number))
      | inr away ↦
          let same = update_away buf s u x (==_false u s away) in
          ap (λ y. y.valid) same ∙ later (sym (ap (λ y. y.blockno) same) ∙ q ∙ at_t)
    ]

-- The first buffer of its block may become valid.
pub IsSingle-first :
    (buf : ℕ → CacheBuf) (b : ℕ) (l : List ℕ) (s : ℕ) (x : CacheBuf)
    → find buf b l ≡ some s
    → x.blockno ≡ b
    → IsSingle buf l
    → IsSingle (update buf s x) l
unfolding find
IsSingle-first buf b [] s x e number single = cc e
IsSingle-first buf b (t ∷ l) s x e number (once, later, single) =
    elim (Bool-cases ((buf t).blockno == b)) [
      | inl here ↦
          let e' = rw here at e in
          let same : s ≡ t = cc e' in
          let once' = subst (λ u. Memᴰ u l → ⊥) (sym same) once in
          (
            once,
            λ u m q.
                first_later same (λ r. once' (Memᴰ.cast (sym r) m)) (later u m)
                  (==_true (buf t).blockno b here) q,
            IsSingle-away buf l s x once' single,
          )
      | inr other ↦
          let e' = rw other at e in
          let (mem, at_s, view) = find-some buf zeros b l s e' in
          let other' = ==_false (buf t).blockno b other in
          let apart : t ≢ s = λ r. other' (ap (λ v. (buf v).blockno) r ∙ at_s) in
          (
            once,
            λ u m q. later_kept buf b s t u x apart number other' (later u m) q,
            IsSingle-first buf b l s x e' number single,
          )
    ]
  where
    first_later :
        {t u : ℕ}
        → s ≡ t
        → u ≢ s
        → ((buf u).blockno ≡ (buf t).blockno → (buf u).valid ≡ false)
        → (buf t).blockno ≡ b
        → (update buf s x u).blockno ≡ (update buf s x t).blockno
        → (update buf s x u).valid ≡ false
    first_later {t} {u} same away later at_t q =
        let keep = update_away buf s u x away in
        let at : (update buf s x t).blockno ≡ x.blockno =
          let hit : (s == t) ≡ true = ground arith in rw hit refl in
        ap (λ y. y.valid) keep ∙ later (sym (ap (λ y. y.blockno) keep) ∙ q ∙ at ∙ number ∙ sym at_t)

-- A buffer gets a block that no buffer of the bucket has.
pub IsSingle-absent :
    (buf : ℕ → CacheBuf) (b : ℕ) (l : List ℕ) (s : ℕ) (x : CacheBuf)
    → ((t : ℕ) → Memᴰ t l → (buf t).blockno ≢ b)
    → x.blockno ≡ b
    → IsSingle buf l
    → IsSingle (update buf s x) l
IsSingle-absent buf b [] s x absent number single = tt
IsSingle-absent buf b (t ∷ l) s x absent number (once, later, single) =
    let below = IsSingle-absent buf b l s x (λ t m. absent t (Memᴰ.tail m)) number single in
    let other = absent t (Memᴰ.head refl) in
    (
      once,
      λ u m q. elim (Bool-cases (t == s)) [
        | inl here ↦
            let apart : u ≢ s = λ r. once (Memᴰ.cast (==_true t s here ∙ sym r) m) in
            let keep = ap (λ y. y.blockno) (update_away buf s u x apart) in
            let at : (update buf s x t).blockno ≡ x.blockno =
              let hit : (s == t) ≡ true = ground arith in rw hit refl in
            absurd (absent u (Memᴰ.tail m) (sym keep ∙ q ∙ at ∙ number))
        | inr away ↦ later_kept buf b s t u x (==_false t s away) number other (later u m) q
      ],
      below,
    )

pub IsSingle-unlink :
    (buf : ℕ → CacheBuf) (l : List ℕ) (s : ℕ) → IsSingle buf l → IsSingle buf (unlink s l)
unfolding unlink
IsSingle-unlink buf [] s single = tt
IsSingle-unlink buf (t ∷ l) s (once, later, single) =
    let below = IsSingle-unlink buf l s single in
    elim (Bool-cases (t == s)) [
      | inl here ↦ rw here below
      | inr away ↦
          rw away
            (λ m. once (unlink-Memᴰ s l t m).0, λ u m q. later u (unlink-Memᴰ s l u m).0 q, below)
    ]
