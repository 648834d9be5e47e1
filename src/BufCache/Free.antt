-- ===== src/BufCache/Free.antt =====
-- The search for a buffer to recycle (src/buf_cache.c).
use mathlib.Core.Path.{subst}
use mathlib.Core.List.{Memᴰ, reverse, reverse_aux}
use mathlib.Core.List.Memᴰ
use myfuse.Common.{
  ℕ, zero, suc, ◌+◌, ◌≡◌, ◌≢◌, ◌≤◌, ◌<◌, ◌⊎◌, ◌∙◌, sym, ap, ◌&&◌, ◌==◌, leb, inl, inr, Bool-cases,
  Option-cases, Option, none, some, List, [], ◌∷◌, arith,
}
use myfuse.BufCache.{CacheBuf, Cache, first_free, least_recent, search_buckets, latest}
use myfuse.BufCache.Lookup.{==_true, ==_false}

pub first_free-some :
    (buf : ℕ → CacheBuf) (l : List ℕ) (s : ℕ)
    → first_free buf l ≡ some s
    → Memᴰ s l × ((buf s).refcnt ≡ 0)
unfolding first_free
first_free-some buf [] s e = cc e
first_free-some buf (t ∷ l) s e =
    elim (Bool-cases ((buf t).refcnt == 0 && leb (buf t).timestamp latest)) [
      | inl free ↦
          let e' = rw free at e in
          let same : s ≡ t = cc e' in (Memᴰ.head same, rw same (ground arith))
      | inr used ↦
          let e' = rw used at e in let (m, free) = first_free-some buf l s e' in (Memᴰ.tail m, free)
    ]

pub first_free-none :
    (buf : ℕ → CacheBuf) (l : List ℕ)
    → first_free buf l ≡ none
    → (t : ℕ) → Memᴰ t l
    → (buf t).timestamp ≤ latest
    → (buf t).refcnt ≢ 0
unfolding first_free
first_free-none buf [] e t m old = absurd (Memᴰ.not-nil m)
first_free-none buf (s ∷ l) e t m old =
    elim (Bool-cases ((buf s).refcnt == 0 && leb (buf s).timestamp latest)) [
      | inl free ↦ let e' = rw free at e in cc e'
      | inr used ↦
          let e' = rw used at e in
          elim (Memᴰ.cases_cons m) [
            | inl q ↦ let old' = rw q at old in rw q (ground arith)
            | inr below ↦ first_free-none buf l e' t below old
          ]
    ]

-- The buffer that the loop of `bget` comes to: the one it started with, or a free one of the list.
pub least_recent-some :
    (buf : ℕ → CacheBuf) (l : List ℕ) (found : Option ℕ) (stamp s : ℕ)
    → least_recent buf l found stamp ≡ some s
    → (found ≡ some s) ⊎ (Memᴰ s l × ((buf s).refcnt ≡ 0))
unfolding least_recent
least_recent-some buf [] found stamp s e = inl e
least_recent-some buf (t ∷ l) found stamp s e =
    elim (Bool-cases ((buf t).refcnt == 0 && leb (buf t).timestamp stamp)) [
      | inl free ↦
          let e' = rw free at e in
          elim (least_recent-some buf l (some t) (buf t).timestamp s e') [
            | inl q ↦ let same : s ≡ t = cc q in inr (Memᴰ.head same, rw same (ground arith))
            | inr (m, z) ↦ inr (Memᴰ.tail m, z)
          ]
      | inr used ↦
          let e' = rw used at e in
          elim (least_recent-some buf l found stamp s e') [
            | inl q ↦ inl q
            | inr (m, z) ↦ inr (Memᴰ.tail m, z)
          ]
    ]

reverse_aux-cases : (l r : List ℕ) (t : ℕ) → Memᴰ t (reverse_aux l r) → Memᴰ t l ⊎ Memᴰ t r
reverse_aux-cases [] r t m = inr m
reverse_aux-cases (s ∷ l) r t m = elim (reverse_aux-cases l (s ∷ r) t m) [
  | inl below ↦ inl (Memᴰ.tail below)
  | inr above ↦ elim (Memᴰ.cases_cons above) [ inl q ↦ inl (Memᴰ.head q) | inr before ↦ inr before ]
]

reverse_aux-Memᴰ : (l r : List ℕ) (t : ℕ) → Memᴰ t l ⊎ Memᴰ t r → Memᴰ t (reverse_aux l r)
reverse_aux-Memᴰ [] r t (inl m) = absurd (Memᴰ.not-nil m)
reverse_aux-Memᴰ [] r t (inr m) = m
reverse_aux-Memᴰ (s ∷ l) r t (inl m) = elim (Memᴰ.cases_cons m) [
  | inl q ↦ reverse_aux-Memᴰ l (s ∷ r) t (inr (Memᴰ.head q))
  | inr below ↦ reverse_aux-Memᴰ l (s ∷ r) t (inl below)
]
reverse_aux-Memᴰ (s ∷ l) r t (inr m) = reverse_aux-Memᴰ l (s ∷ r) t (inr (Memᴰ.tail m))

pub of_reverse : (l : List ℕ) (t : ℕ) → Memᴰ t (reverse l) → Memᴰ t l
of_reverse l t m = elim (reverse_aux-cases l [] t m) [ inl h ↦ h | inr h ↦ absurd (Memᴰ.not-nil h) ]

pub to_reverse : (l : List ℕ) (t : ℕ) → Memᴰ t l → Memᴰ t (reverse l)
to_reverse l t m = reverse_aux-Memᴰ l [] t (inl m)

least_recent-found :
    (buf : ℕ → CacheBuf) (l : List ℕ) (x stamp : ℕ) → least_recent buf l (some x) stamp ≢ none
unfolding least_recent
least_recent-found buf [] x stamp e = cc e
least_recent-found buf (t ∷ l) x stamp e =
    elim (Bool-cases ((buf t).refcnt == 0 && leb (buf t).timestamp stamp)) [
      | inl free ↦ let e' = rw free at e in least_recent-found buf l t (buf t).timestamp e'
      | inr used ↦ let e' = rw used at e in least_recent-found buf l x stamp e'
    ]

least_recent-none :
    (buf : ℕ → CacheBuf) (l : List ℕ)
    → least_recent buf l none latest ≡ none
    → (t : ℕ) → Memᴰ t l
    → (buf t).timestamp ≤ latest
    → (buf t).refcnt ≢ 0
unfolding least_recent
least_recent-none buf [] e t m old = absurd (Memᴰ.not-nil m)
least_recent-none buf (s ∷ l) e t m old =
    elim (Bool-cases ((buf s).refcnt == 0 && leb (buf s).timestamp latest)) [
      | inl free ↦ let e' = rw free at e in absurd (least_recent-found buf l s (buf s).timestamp e')
      | inr used ↦
          let e' = rw used at e in
          elim (Memᴰ.cases_cons m) [
            | inl q ↦ let old' = rw q at old in rw q (ground arith)
            | inr below ↦ least_recent-none buf l e' t below old
          ]
    ]

-- What the loop over the other buckets finds: a free buffer of one of them.
pub search_buckets-some :
    (c : Cache) (hashid k hidx h s : ℕ)
    → search_buckets c hashid k hidx ≡ some (h, s)
    → (h ≢ hashid) × Memᴰ s (c.hash h) × ((c.buf s).refcnt ≡ 0)
unfolding search_buckets
search_buckets-some c hashid zero hidx h s e = cc e
search_buckets-some c hashid (suc k) hidx h s e = elim (Bool-cases (hidx == hashid)) [
  | inl own ↦ let e' = rw own at e in search_buckets-some c hashid k (hidx + 1) h s e'
  | inr other ↦ elim (Option-cases (least_recent c.buf (reverse (c.hash hidx)) none latest)) [
    | inl none_free ↦
        let e' = rw (other, none_free) at e in search_buckets-some c hashid k (hidx + 1) h s e'
    | inr (t, found) ↦
        let e' = rw (other, found) at e in
        let at_h : hidx ≡ h = cc e' in
        let at_s : t ≡ s = cc e' in
        elim (least_recent-some c.buf (reverse (c.hash hidx)) none latest t found) [
          | inl q ↦ cc q
          | inr (m, z) ↦ (
            λ r. ==_false hidx hashid other (at_h ∙ r),
            subst (λ i. Memᴰ s (c.hash i)) at_h
                (of_reverse (c.hash hidx) s (Memᴰ.cast (sym at_s) m)),
            sym (ap (λ i. (c.buf i).refcnt) at_s) ∙ z,
          )
        ]
  ]
]

-- When it finds none, no buffer of the other buckets that it went through is free.
pub search_buckets-none :
    (c : Cache) (hashid k hidx : ℕ)
    → search_buckets c hashid k hidx ≡ none
    → (h t : ℕ) → hidx ≤ h
    → h < hidx + k
    → h ≢ hashid
    → Memᴰ t (c.hash h)
    → (c.buf t).timestamp ≤ latest
    → (c.buf t).refcnt ≢ 0
unfolding search_buckets
search_buckets-none c hashid zero hidx e h t low high other m old = absurd (omega arith)
search_buckets-none c hashid (suc k) hidx e h t low high other m old =
    let later = λ (e' : search_buckets c hashid k (hidx + 1) ≡ none) (away : h ≢ hidx).
      search_buckets-none c hashid k (hidx + 1) e' h t (omega arith) (omega arith) other m old in
    elim (Bool-cases (hidx == hashid)) [
      | inl own ↦ let e' = rw own at e in later e' (λ r. other (r ∙ ==_true hidx hashid own))
      | inr another ↦ elim (Option-cases (least_recent c.buf (reverse (c.hash hidx)) none latest)) [
        | inl none_free ↦
            let e' = rw (another, none_free) at e in
            elim (Bool-cases (h == hidx)) [
              | inl here ↦
                  let m' = subst (λ i. Memᴰ t (c.hash i)) (==_true h hidx here) m in
                  least_recent-none c.buf (reverse (c.hash hidx)) none_free t
                    (to_reverse (c.hash hidx) t m') old
              | inr away ↦ later e' (==_false h hidx away)
            ]
        | inr (u, found) ↦ let e' = rw (another, found) at e in cc e'
      ]
    ]
