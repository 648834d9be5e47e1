-- ===== src/Inode/Bytes.antt =====
-- Integers and address arrays in the bytes of a block: what is stored is read again (the casts of
-- `struct dinode*` in src/inode.c).
use myfuse.Common.{
  ℕ, zero, suc, ◌+◌, ◌*◌, ◌/◌, ◌%◌, ◌≤◌, ◌<◌, ◌≡◌, ◌⊎◌, refl, ◌∙◌, true, false, arith, update, ◌==◌,
}
use myfuse.Machine.Block.{Block}
use myfuse.Inode.Layout.{get_le, set_le, set_addrs}

-- 256 ^ w
abbrev pub limit : ℕ → ℕ
limit zero = 1
limit (suc w) = 256 * limit w

abbrev Apart : ℕ → ℕ → ℕ → ℕ → Type 0
Apart p k off w = (p + k ≤ off) ⊎ (off + w ≤ p)

set_le-Apart : (w : ℕ) (d : Block) (off v j : ℕ) → Apart j 1 off w → set_le w d off v j ≡ d j
unfolding set_le
set_le-Apart zero d off v j h = refl
set_le-Apart (suc w) d off v j h =
    let miss : (off == j) ≡ false = ground arith in
    set_le-Apart w (update d off (v % 256)) (off + 1) (v / 256) j (omega arith) ∙ rw miss

pub get_le-agree :
    (k : ℕ) (d d' : Block) (p : ℕ)
    → ((j : ℕ) → p ≤ j → j < p + k → d j ≡ d' j)
    → get_le k d p ≡ get_le k d' p
unfolding get_le
get_le-agree zero d d' p h = refl
get_le-agree (suc k) d d' p h = omega (
  arith,
  h p (omega arith) (omega arith),
  get_le-agree k d d' (p + 1) (λ j a b. h j (omega arith) (omega arith)),
)

pub get_le-set_le-Apart :
    (k : ℕ) (p w : ℕ) (d : Block) (off v : ℕ)
    → Apart p k off w
    → get_le k (set_le w d off v) p ≡ get_le k d p
get_le-set_le-Apart k p w d off v h =
    get_le-agree k _ _ p (λ j a b. set_le-Apart w d off v j (omega arith))

pub get_le-set_le :
    (w : ℕ) (d : Block) (off v : ℕ) → v < limit w → get_le w (set_le w d off v) off ≡ v
unfolding get_le set_le
get_le-set_le zero d off v h = omega arith
get_le-set_le (suc w) d off v h =
    let hit : (off == off) ≡ true = ground arith in
    let first = set_le-Apart w (update d off (v % 256)) (off + 1) (v / 256) off (omega arith) in
    let at : update d off (v % 256) off ≡ v % 256 = rw hit in
    omega
      (arith, first, at, get_le-set_le w (update d off (v % 256)) (off + 1) (v / 256) (omega arith))

pub get_le-set_addrs-Apart :
    (k : ℕ) (p n : ℕ) (d : Block) (off : ℕ) (addrs : ℕ → ℕ) (i : ℕ)
    → Apart p k off (4 * n)
    → get_le k (set_addrs n d off addrs i) p ≡ get_le k d p
unfolding set_addrs
get_le-set_addrs-Apart k p zero d off addrs i h = refl
get_le-set_addrs-Apart k p (suc n) d off addrs i h =
    get_le-set_addrs-Apart k p n (set_le 4 d off (addrs i)) (off + 4) addrs (i + 1) (omega arith)
    ∙ get_le-set_le-Apart k p 4 d off (addrs i) (omega arith)

pub get_le-set_addrs :
    (n : ℕ) (d : Block) (off : ℕ) (addrs : ℕ → ℕ) (i : ℕ)
    → ((j : ℕ) → addrs j < limit 4)
    → (t : ℕ) → t < n
    → get_le 4 (set_addrs n d off addrs i) (off + 4 * t) ≡ addrs (i + t)
unfolding set_addrs
get_le-set_addrs zero d off addrs i h t p = absurd (omega arith)
get_le-set_addrs (suc n) d off addrs i h zero p =
    let e : off + 4 * 0 ≡ off = omega arith in
    let e' : i + 0 ≡ i = omega arith in
    rw (e, e')
      (get_le-set_addrs-Apart 4 off n (set_le 4 d off (addrs i)) (off + 4) addrs (i + 1)
          (omega arith)
        ∙ get_le-set_le 4 d off (addrs i) (h i))
get_le-set_addrs (suc n) d off addrs i h (suc t) p =
    let e : off + 4 * suc t ≡ off + 4 + 4 * t = omega arith in
    let e' : i + suc t ≡ i + 1 + t = omega arith in
    rw (e, e')
      (get_le-set_addrs n (set_le 4 d off (addrs i)) (off + 4) addrs (i + 1) h t (omega arith))
