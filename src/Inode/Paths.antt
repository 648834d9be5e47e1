-- ===== src/Inode/Paths.antt =====
-- The indirect blocks on the way to a block of a file (`imap2blockno` of src/inode.c).
use myfuse.Common.{ℕ, ◌+◌, ◌*◌, ◌≡◌, ◌∙◌, refl, ap, Bool, true, false, ◌||◌, ◌==◌, arith}
use myfuse.Params.{ndirect}
use myfuse.Machine.Block.{Block, get32}
use myfuse.Inode.Map.{Place, direct, indirect1, indirect2, indirect3, too_big}
use myfuse.Inode.Walk.{entry, at_place, is_mapped}

-- Is block `b` one of them?
abbrev pub passes : (ℕ → Block) → (ℕ → ℕ) → Place → ℕ → Bool
passes blocks addrs (direct i) b = false
passes blocks addrs (indirect1 i) b = addrs ndirect == b
passes blocks addrs (indirect2 i j) b =
    addrs (ndirect + 1) == b || entry blocks (addrs (ndirect + 1)) i == b
passes blocks addrs (indirect3 i j k) b =
    addrs (ndirect + 2) == b
    || (entry blocks (addrs (ndirect + 2)) i == b
        || entry blocks (entry blocks (addrs (ndirect + 2)) i) j == b)
passes blocks addrs too_big b = false

module _ (v v' : ℕ → Block) where
  entry-agree : (a i : ℕ) → v' a ≡ v a → entry v' a i ≡ entry v a i
  entry-agree a i e = ap (λ d. get32 d (4 * i)) e

  -- A change of other blocks leaves the way as it is.
  pub at_place-agree :
      (addrs : ℕ → ℕ) (p : Place)
      → ((b : ℕ) → passes v addrs p b ≡ true → v' b ≡ v b)
      → (at_place v' addrs p ≡ at_place v addrs p) × (is_mapped v' addrs p ≡ is_mapped v addrs p)
  at_place-agree addrs (direct i) h = (refl, refl)
  at_place-agree addrs (indirect1 i) h =
      let e = entry-agree (addrs ndirect) i (h (addrs ndirect) (ground arith)) in (e, rw e refl)
  at_place-agree addrs (indirect2 i j) h =
      let a = addrs (ndirect + 1) in
      let e = entry-agree a i (h a (ground arith)) in
      let e' =
        ap (λ x. entry v' x j) e ∙ entry-agree (entry v a i) j (h (entry v a i) (ground arith)) in
      (e', rw (e, entry-agree (entry v a i) j (h (entry v a i) (ground arith))) refl)
  at_place-agree addrs (indirect3 i j k) h =
      let a = addrs (ndirect + 2) in
      let b = entry v a i in
      let c = entry v b j in
      let e = entry-agree a i (h a (ground arith)) in
      let f = entry-agree b j (h b (ground arith)) in
      let g = entry-agree c k (h c (ground arith)) in
      (ap (λ x. entry v' (entry v' x j) k) e ∙ ap (λ x. entry v' x k) f ∙ g, rw (e, f, g) refl)
  at_place-agree addrs too_big h = (refl, refl)
