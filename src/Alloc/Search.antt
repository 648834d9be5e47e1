-- ===== src/Alloc/Search.antt =====
-- The searches of `block_alloc`: for the next free block of a group and for a group with one.
use myfuse.Common.{
  ℕ, zero, suc, ◌+◌, ◌*◌, ◌^◌, ◌≤◌, ◌<◌, ◌≡◌, ◌≢◌, refl, arith, ◌==◌, inl, inr, Option, none, some,
  Bool-cases,
}
use native.Mathlib.Decide.{dec_lt}
use myfuse.Params.{bpb}
use myfuse.Machine.{BmapCache}
use myfuse.Alloc.{minus_one, bmap_block_statue_get, bmap2blockno, find_free, find_group}
use myfuse.Alloc.Groups.{get-same}
use myfuse.Alloc.Mark.{get_bit_lt}

-- Block numbers of group `g` do not wrap.
abbrev pub Fits32 : ℕ → Type 0
Fits32 g = (g + 1) * bpb ≤ 2 ^ 32

pub bmap2blockno_lem : (i g : ℕ) → i < bpb → Fits32 g → bmap2blockno i g ≡ g * bpb + i
unfolding bmap2blockno
bmap2blockno_lem i g h f = omega arith

-- What a search among the `k` blocks from `i` on of group `g` comes to.
pub data Found (c : BmapCache) (g k i : ℕ) : Option ℕ → Type 0 where
  none_free :
      ((j : ℕ) → i ≤ j → j < i + k → bmap_block_statue_get c (g * bpb + j) ≡ 1) → Found c g k i none
  free_at :
      (l : ℕ)
      → i ≤ l
      → l < i + k
      → bmap_block_statue_get c (g * bpb + l) ≡ 0
      → ((j : ℕ) → i ≤ j → j < l → bmap_block_statue_get c (g * bpb + j) ≡ 1)
      → Found c g k i (some l)

Found-skip :
    (c : BmapCache) (g k i : ℕ) {r : Option ℕ}
    → bmap_block_statue_get c (g * bpb + i) ≡ 1
    → Found c g k (i + 1) r
    → Found c g (suc k) i r
Found-skip c g k i taken (none_free h) = none_free λ j a b. elim (dec_lt i j) [
  | yes p ↦ h j (omega arith) (omega arith)
  | no p ↦ let e : j ≡ i = omega arith in rw e taken
]
Found-skip c g k i taken (free_at l a b free h) =
    free_at l (omega arith) (omega arith) free λ j p q. elim (dec_lt i j) [
      | yes r ↦ h j (omega arith) q
      | no r ↦ let e : j ≡ i = omega arith in rw e taken
    ]

pub find_free-Found :
    (c : BmapCache) (g k i : ℕ) → i + k ≤ bpb → Fits32 g → Found c g k i (find_free c g k i)
unfolding find_free
find_free-Found c g zero i h f = none_free λ j a b. absurd (omega arith)
find_free-Found c g (suc k) i h f =
    let e = bmap2blockno_lem i g (omega arith) f in
    rw e (elim (Bool-cases (bmap_block_statue_get c (g * bpb + i) == 0)) [
      | inl free ↦
          rw free
            (free_at i (omega arith) (omega arith) (ground arith) λ j a b. absurd (omega arith))
      | inr taken ↦ rw taken (
          Found-skip c g k i (ground (arith, get_bit_lt c (g * bpb + i)))
            (find_free-Found c g k (i + 1) (omega arith) f))
    ])

pub find_free-same :
    (c c' : BmapCache)
    → c'.cache_buf ≡ c.cache_buf
    → (g k i : ℕ) → find_free c' g k i ≡ find_free c g k i
unfolding find_free
find_free-same c c' same g zero i = refl
find_free-same c c' same g (suc k) i =
    rw (get-same c c' same (bmap2blockno i g), find_free-same c c' same g k (i + 1))

-- A group that `find_group` returns has a free block; if it returns none, no group has.
pub find_group-some :
    (first : ℕ → ℕ) (k i : ℕ) {g : ℕ}
    → find_group first k i ≡ some g
    → (i ≤ g) × (g < i + k) × (first g ≢ minus_one)
unfolding find_group
find_group-some first zero i e = cc
find_group-some first (suc k) i {g} e = elim (Bool-cases (first i == minus_one)) [
  | inl full ↦
      let r = find_group-some first k (i + 1) (rw full at e) in
      (omega (arith, r.0), omega (arith, r.1), r.2)
  | inr free ↦
      let e' : i ≡ g = cc (rw free at e) in (omega arith, omega arith, rw (← e') (ground arith))
]

pub find_group-none :
    (first : ℕ → ℕ) (k i : ℕ)
    → find_group first k i ≡ none
    → (g : ℕ) → i ≤ g
    → g < i + k
    → first g ≡ minus_one
unfolding find_group
find_group-none first zero i e g h h' = absurd (omega arith)
find_group-none first (suc k) i e g h h' = elim (dec_lt i g) [
  | yes later ↦ find_group-none first k (i + 1) (ground arith) g (omega arith) (omega arith)
  | no here ↦ let e' : g ≡ i = omega arith in rw e' (ground arith)
]
