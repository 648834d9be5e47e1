-- ===== src/Alloc/Scan.antt =====
-- The inner loop of `block_allocator_refresh`, src/block_allocator.c.
use mathlib.Core.Path.{subst}
use native.Mathlib.Decide.{dec_lt}
use myfuse.Common.{
  ℕ, zero, suc, ◌+◌, ◌*◌, ◌%◌, ◌^◌, ◌<◌, ◌≡◌, refl, true, false, arith, ◌==◌, ◌&&◌, if◌then◌else◌,
  inl, inr, Bool-cases, add32,
}
use myfuse.Params.{bpb}
use myfuse.Machine.{BmapCache}
use myfuse.Alloc.{minus_one, bmap_block_statue_get, scan}
use myfuse.Alloc.Mark.{get_bit_lt}
use myfuse.Alloc.Groups.{count_set, IsFirst, full, at}

-- `first` is the first free one of the first `i` blocks of group `g`, or -1.
data UpTo (c : BmapCache) (g i first : ℕ) : Type 0 where
  none_yet :
      first ≡ minus_one
      → ((j : ℕ) → j < i → bmap_block_statue_get c (g * bpb + j) ≡ 1)
      → UpTo c g i first
  found :
      first < bpb
      → bmap_block_statue_get c (g * bpb + first) ≡ 0
      → ((j : ℕ) → j < first → bmap_block_statue_get c (g * bpb + j) ≡ 1)
      → UpTo c g i first

UpTo-suc :
    {c : BmapCache} {g i first : ℕ}
    → i < bpb
    → UpTo c g i first
    → let free = bmap_block_statue_get c (g * bpb + i) == 0 in
      UpTo c g (i + 1) (if free && first == minus_one then (g * bpb + i) % bpb else first)
UpTo-suc {c} {g} {i} {first} h (none_yet e all) =
    elim (Bool-cases (bmap_block_statue_get c (g * bpb + i) == 0)) [
      | inl z ↦
          let lone : (first == minus_one) ≡ true = ground arith in
          let place : (g * bpb + i) % bpb ≡ i = omega arith in
          rw (z, lone, place) (found h (ground arith) all)
      | inr n ↦ rw n (
          none_yet e λ j p. elim (dec_lt j i) [
            | yes q ↦ all j q
            | no q ↦
                let e' : j ≡ i = omega arith in rw e' (ground (arith, get_bit_lt c (g * bpb + i)))
          ])
    ]
UpTo-suc {c} {g} {i} {first} h (found below z all) =
    let had : (first == minus_one) ≡ false = ground arith in
    let stays : (bmap_block_statue_get c (g * bpb + i) == 0 && first == minus_one) ≡ false =
      ground arith in
    rw stays (found below z all)

scan_step :
    (c : BmapCache) (k b n first : ℕ)
    → let free = bmap_block_statue_get c b == 0 in
      scan c (suc k) b n first
      ≡ scan c k
          (b + 1)
          (if free then n else add32 n 1)
          (if free && first == minus_one then b % bpb else first)
unfolding scan
scan_step c k b n first = refl

count_set_step :
    (c : BmapCache) (k b : ℕ)
    → count_set c b (suc k) ≡ bmap_block_statue_get c b + count_set c (b + 1) k
unfolding count_set
count_set_step c k b = refl

scan-UpTo :
    (c : BmapCache) (g k i n first : ℕ)
    → i + k ≡ bpb
    → n + k < 2 ^ 32
    → UpTo c g i first
    → let r = scan c k (g * bpb + i) n first in
      (r.0 ≡ n + count_set c (g * bpb + i) k) × UpTo c g bpb r.1
unfolding scan count_set
scan-UpTo c g zero i n first e small u =
    let e' : i ≡ bpb = omega arith in (omega arith, subst (λ x. UpTo c g x first) e' u)
scan-UpTo c g (suc k) i n first e small u =
    let next : g * bpb + i + 1 ≡ g * bpb + (i + 1) = omega arith in
    let free = bmap_block_statue_get c (g * bpb + i) == 0 in
    let n' = if free then n else add32 n 1 in
    let bit : n' ≡ n + bmap_block_statue_get c (g * bpb + i) =
      ground (arith, get_bit_lt c (g * bpb + i)) in
    let r =
      scan-UpTo c g k (i + 1) n' (if free && first == minus_one then (g * bpb + i) % bpb else first)
        (omega arith) (omega (arith, bit, get_bit_lt c (g * bpb + i))) (UpTo-suc (omega arith) u) in
    rw (scan_step c k (g * bpb + i) n first, count_set_step c k (g * bpb + i), next)
      (omega (arith, r.0, bit), r.1)

-- For every bitmap and group, the inner loop of `block_allocator_refresh`, started with a count of 0
-- and -1 over the BPB blocks of the group, ends with the number of blocks that are allocated and the
-- index of the first free one, or -1 when all are allocated.
pub scan-IsFirst :
    (c : BmapCache) (g : ℕ)
    → let r = scan c bpb (g * bpb) 0 minus_one in
      (r.0 ≡ count_set c (g * bpb) bpb) × IsFirst c g r.1
scan-IsFirst c g =
    let start : g * bpb + 0 ≡ g * bpb = omega arith in
    let r = rw start at (
      scan-UpTo c g bpb 0 0 minus_one (omega arith) (omega arith)
        (none_yet refl λ j h. absurd (omega arith))) in
    (omega (arith, r.0), settle r.1)
  where
    settle : {first : ℕ} → UpTo c g bpb first → IsFirst c g first
    settle (none_yet e all) = full e all
    settle (found h z all) = at h z all
