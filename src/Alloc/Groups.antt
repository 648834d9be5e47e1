-- ===== src/Alloc/Groups.antt =====
-- What `bmap_cache` says of a group of BPB blocks, against the bits themselves.
use native.Mathlib.Decide.{dec_lt}
use myfuse.Common.{ℕ, zero, suc, ◌+◌, ◌*◌, ◌≤◌, ◌<◌, ◌≡◌, refl, sym, ap, ◌∙◌, arith, ◌⊎◌}
use myfuse.Params.{bpb}
use myfuse.Machine.{BmapCache}
use myfuse.Alloc.{minus_one, bmap_block_statue_get, mark}
use myfuse.Alloc.Mark.{AllBytes, get-mark, get_bit_lt}

-- how many of the `k` blocks from `b` on are allocated
unfoldable pub count_set : BmapCache → ℕ → ℕ → ℕ
count_set c b zero = 0
count_set c b (suc k) = bmap_block_statue_get c b + count_set c (b + 1) k

-- `first` is the first free block of group `g`, or -1 if it has none.
pub data IsFirst (c : BmapCache) (g first : ℕ) : Type 0 where
  full :
      first ≡ minus_one
      → ((i : ℕ) → i < bpb → bmap_block_statue_get c (g * bpb + i) ≡ 1)
      → IsFirst c g first
  at :
      first < bpb
      → bmap_block_statue_get c (g * bpb + first) ≡ 0
      → ((i : ℕ) → i < first → bmap_block_statue_get c (g * bpb + i) ≡ 1)
      → IsFirst c g first

pub record IsSound (c : BmapCache) (g : ℕ) : Type 0 where
  pub counted : c.n_alloced g ≡ count_set c (g * bpb) bpb
  pub first : IsFirst c g (c.first_unalloced g)

pub count_set-le : (c : BmapCache) (b k : ℕ) → count_set c b k ≤ k
unfolding count_set
count_set-le c b zero = omega arith
count_set-le c b (suc k) = omega (arith, count_set-le c (b + 1) k, get_bit_lt c b)

-- all set: the count is full
pub count_set-full :
    (c : BmapCache) (b k : ℕ)
    → ((i : ℕ) → i < k → bmap_block_statue_get c (b + i) ≡ 1)
    → count_set c b k ≡ k
unfolding count_set
count_set-full c b zero h = refl
count_set-full c b (suc k) h =
    let e : b + 0 ≡ b = omega arith in
    omega (
      arith,
      ap (bmap_block_statue_get c) e,
      h 0 (omega arith),
      count_set-full c (b + 1) k
          λ i p. ap (bmap_block_statue_get c) (omega arith) ∙ h (suc i) (omega arith),
    )

-- and conversely
pub all_of_count :
    (c : BmapCache) (b k : ℕ)
    → count_set c b k ≡ k
    → (i : ℕ) → i < k
    → bmap_block_statue_get c (b + i) ≡ 1
unfolding count_set
all_of_count c b zero h i p = absurd (omega arith)
all_of_count c b (suc k) h zero p =
    let e : b + 0 ≡ b = omega arith in
    rw e (omega (arith, count_set-le c (b + 1) k, get_bit_lt c b))
all_of_count c b (suc k) h (suc i) p =
    ap (bmap_block_statue_get c) (omega arith)
    ∙ all_of_count c (b + 1) k (omega (arith, count_set-le c (b + 1) k, get_bit_lt c b)) i
        (omega arith)

module _ (c : BmapCache) (bytes : AllBytes c) (b : ℕ) where
  count_set-mark_apart :
      (i : ℕ) (bit : i < 2) (a k : ℕ)
      → (b < a) ⊎ (a + k ≤ b)
      → count_set (mark c b i) a k ≡ count_set c a k
  unfolding count_set
  count_set-mark_apart i bit a zero h = refl
  count_set-mark_apart i bit a (suc k) h =
      ground (arith, get-mark c bytes b i bit a, count_set-mark_apart i bit (a + 1) k (omega arith))

  pub count_set-mark :
      (i : ℕ) (bit : i < 2) (a k : ℕ)
      → a ≤ b
      → b < a + k
      → count_set (mark c b i) a k + bmap_block_statue_get c b ≡ count_set c a k + i
  unfolding count_set
  count_set-mark i bit a zero h h' = absurd (omega arith)
  count_set-mark i bit a (suc k) h h' = elim (dec_lt a b) [
    | yes later ↦ ground (
      arith,
      get-mark c bytes b i bit a,
      count_set-mark i bit (a + 1) k (omega arith) (omega arith),
    )
    | no here ↦
        ground
          (arith, get-mark c bytes b i bit a, count_set-mark_apart i bit (a + 1) k (omega arith))
  ]

-- The counts and first free blocks of groups depend on the bitmap, and on their own entries.
module _ (c c' : BmapCache) (same : c'.cache_buf ≡ c.cache_buf) where
  pub get-same : (b : ℕ) → bmap_block_statue_get c' b ≡ bmap_block_statue_get c b
  unfolding bmap_block_statue_get
  get-same b = rw same

  pub count_set-same : (b k : ℕ) → count_set c' b k ≡ count_set c b k
  unfolding count_set
  count_set-same b zero = refl
  count_set-same b (suc k) = rw (get-same b, count_set-same (b + 1) k)

  pub IsFirst-same : {g first : ℕ} → IsFirst c g first → IsFirst c' g first
  IsFirst-same (full e h) = full e (λ i p. get-same _ ∙ h i p)
  IsFirst-same (at h z below) = at h (get-same _ ∙ z) (λ i p. get-same _ ∙ below i p)

-- A mark outside a group leaves the group's count and first free block right.
pub IsSound-mark :
    (c : BmapCache) (b i g : ℕ)
    → AllBytes c
    → i < 2
    → (b < g * bpb) ⊎ (g * bpb + bpb ≤ b)
    → IsSound c g
    → IsSound (mark c b i) g
unfolding mark
IsSound-mark c b i g bytes bit apart s = record {
  counted = s.counted ∙ sym (count_set-mark_apart c bytes b i bit (g * bpb) bpb apart);
  first = IsFirst-mark s.first;
}
  where
    here :
        (j : ℕ)
        → j < bpb
        → bmap_block_statue_get (mark c b i) (g * bpb + j) ≡ bmap_block_statue_get c (g * bpb + j)
    here j h = ground (arith, get-mark c bytes b i bit (g * bpb + j))

    IsFirst-mark : {first : ℕ} → IsFirst c g first → IsFirst (mark c b i) g first
    IsFirst-mark (full e h) = full e (λ j p. here j p ∙ h j p)
    IsFirst-mark (at h z below) = at h (here _ h ∙ z) (λ j p. here j (omega arith) ∙ below j p)
