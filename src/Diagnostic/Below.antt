-- ===== src/Diagnostic/Below.antt =====
-- The blocks that hang below a page of block numbers, and lists of blocks that have exactly those
-- besides what another list has.
use myfuse.Common.{
  ℕ, zero, suc, ◌+◌, ◌≤◌, ◌<◌, ◌≡◌, ◌≢◌, ◌⊎◌, refl, true, ◌==◌, inl, inr, Bool-cases, List, ◌∷◌,
  arith,
}
use mathlib.Core.Path.{subst}
use myfuse.Params.{nindirect1}
use myfuse.Machine.Block.{Block}
use myfuse.Diagnostic.{entries_of, is_used}

-- Block `b` is `a`, or hangs below it by at most `l` more levels of block numbers.
abbrev pub Subtree : ℕ → (ℕ → Block) → ℕ → ℕ → Type 0
Subtree zero v a b = b ≡ a
Subtree (suc l) v a b =
    (b ≡ a)
    ⊎ ((j : ℕ) × (0 ≤ j)
        × (j < 0 + nindirect1)
        × (entries_of (v a) j ≢ 0)
        × Subtree l v (entries_of (v a) j) b)

-- Block `b` hangs below one of the `k` numbers of the page from `i` on.
abbrev pub Below : ℕ → (ℕ → Block) → (ℕ → ℕ) → ℕ → ℕ → ℕ → Type 0
Below l v page i k b = (j : ℕ) × (i ≤ j) × (j < i + k) × (page j ≢ 0) × Subtree l v (page j) b

module _ (l : ℕ) (v : ℕ → Block) (page : ℕ → ℕ) (i : ℕ) where
  pub Below-none : (b : ℕ) → ¬ Below l v page i zero b
  Below-none b (j, low, high, there, tree) = omega (arith, low, high)

  module _ (k b : ℕ) where
    pub Below-next : Below l v page (i + 1) k b → Below l v page i (suc k) b
    Below-next (j, low, high, there, tree) =
        (j, omega (arith, low), omega (arith, high), there, tree)

    pub Below-first : page i ≢ 0 → Subtree l v (page i) b → Below l v page i (suc k) b
    Below-first there tree = (i, omega arith, omega arith, there, tree)

    pub Below-cases :
        Below l v page i (suc k) b
        → ((page i ≢ 0) × Subtree l v (page i) b) ⊎ Below l v page (i + 1) k b
    Below-cases (j, low, high, there, tree) = elim (Bool-cases (i == j)) [
      | inl here ↦
          let q : j ≡ i = ground (arith, here) in
          inl (subst (λ n. (page n ≢ 0) × Subtree l v (page n) b) q (there, tree))
      | inr later ↦ inr (j, ground (arith, later, low), omega (arith, high), there, tree)
    ]

-- The second list has what the first has, and besides exactly what `S` says.
pub record Adds (S : ℕ → Type 0) (u u' : List ℕ) : Type 0 where
  pub grows : (b : ℕ) → is_used b u ≡ true → is_used b u' ≡ true
  pub adds : (b : ℕ) → S b → is_used b u' ≡ true
  pub only : (b : ℕ) → is_used b u' ≡ true → (is_used b u ≡ true) ⊎ S b

pub Adds-same : {S : ℕ → Type 0} {u : List ℕ} → ((b : ℕ) → ¬ S b) → Adds S u u
Adds-same none = record { grows = λ b h. h; adds = λ b s. absurd (none b s); only = λ b h. inl h }

pub Adds-one : (a : ℕ) (u : List ℕ) → Adds (λ b. b ≡ a) u (a ∷ u)
Adds-one a u = record {
  grows = λ b h. ground (arith, h);
  adds = λ b e. let q : (a == b) ≡ true = ground (arith, e) in rw q refl;
  only = λ b h. elim (Bool-cases (a == b)) [
    | inl here ↦ inr (ground (arith, here))
    | inr away ↦ let h' = rw away at h in inl h'
  ];
}

pub Adds-then :
    {S T : ℕ → Type 0} {u u1 u2 : List ℕ} → Adds S u u1 → Adds T u1 u2 → Adds (λ b. S b ⊎ T b) u u2
Adds-then a c = record {
  grows = λ b h. c.grows b (a.grows b h);
  adds = λ b h. elim h [ inl s ↦ c.grows b (a.adds b s) | inr t ↦ c.adds b t ];
  only = λ b h. elim (c.only b h) [
    | inl h1 ↦ elim (a.only b h1) [ inl h0 ↦ inl h0 | inr s ↦ inr (inl s) ]
    | inr t ↦ inr (inr t)
  ];
}

pub Adds-weaken :
    {S T : ℕ → Type 0} {u u' : List ℕ}
    → Adds S u u'
    → ((b : ℕ) → T b → S b)
    → ((b : ℕ) → S b → T b)
    → Adds T u u'
Adds-weaken a from to = record {
  grows = a.grows;
  adds = λ b t. a.adds b (from b t);
  only = λ b h. elim (a.only b h) [ inl old ↦ inl old | inr s ↦ inr (to b s) ];
}
