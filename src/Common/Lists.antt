-- ===== src/Common/Lists.antt =====
-- Lists measured by native numbers, and prefixes of them.
use Prim.Native.Nat.{ℕ, suc}
use mathlib.Core.Path.{◌≡◌, refl}
use mathlib.Core.List.{List, [], ◌∷◌, ◌++◌}
use mathlib.Core.Logic.{◌⊎◌, inl, inr}

module _ {ℓ} {A : Type ℓ} where
  abbrev pub length : List A → ℕ
  length [] = 0
  length (x ∷ xs) = suc (length xs)

  -- A prefix of `xs ++ ys` ends inside `xs`, or is `xs` and a prefix of `ys`.
  pub append-cases :
      (p q xs ys : List A)
      → p ++ q ≡ xs ++ ys
      → ((r : List A) × (p ++ r ≡ xs)) ⊎ ((r : List A) × (p ≡ xs ++ r) × (r ++ q ≡ ys))
  append-cases [] q xs ys e = inl (xs, refl)
  append-cases (x ∷ p) q [] ys e = inr (x ∷ p, refl, e)
  append-cases (x ∷ p) q (y ∷ xs) ys e = elim (append-cases p q xs ys (cc e)) [
    | inl (r, f) ↦ inl (r, cc (e, f))
    | inr (r, f, g) ↦ inr (r, cc (e, f), g)
  ]
