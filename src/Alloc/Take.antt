-- ===== src/Alloc/Take.antt =====
-- `block_alloc` of src/block_allocator.c: which block it hands out, and what `bmap_cache` says then.
use mathlib.Core.Path.{subst}
use native.Mathlib.Decide.{dec_lt}
use myfuse.Common.{
  ℕ, ◌+◌, ◌-◌, ◌*◌, ◌/◌, ◌≤◌, ◌<◌, ◌≡◌, ◌≢◌, refl, sym, ap, ◌∙◌, arith, ◌==◌, if◌then◌else◌, inl,
  inr,
}
use myfuse.Params.{bpb}
use myfuse.Machine.{Machine, BmapCache, ok}
use myfuse.Alloc.{minus_one, bmap_block_statue_get, mark, bmap2blockno, block_alloc}
use myfuse.Alloc.Mark.{mark-AllBytes, get-mark}
use myfuse.Alloc.Groups.{IsFirst, full, at, count_set-mark, get-same, IsSound-mark}
use myfuse.Alloc.Search.{Fits32, bmap2blockno_lem}
use myfuse.Alloc.Retire.{IsWell, HasFree, Marked, retire-Retired}
use myfuse.Alloc.Effects.{block_alloc-parts}

-- `b` was free and is allocated now; no other block changed, and the cache is right again.
pub record Took (c : BmapCache) (b : ℕ) (c' : BmapCache) : Type 0 where
  pub inside : b < c.n_cache * bpb
  pub group : b / bpb ≡ c.first_free_cache
  pub lowest : (i : ℕ) → c.first_free_cache * bpb ≤ i → i < b → bmap_block_statue_get c i ≡ 1
  pub was_free : bmap_block_statue_get c b ≡ 0
  pub taken :
      (b' : ℕ) → bmap_block_statue_get c' b' ≡ (if b == b' then 1 else bmap_block_statue_get c b')
  pub well : IsWell c'
  pub more : HasFree c'

IsFirst-bound : {c : BmapCache} {g first : ℕ} → IsFirst c g first → first ≢ minus_one → first < bpb
IsFirst-bound (full e h) ne = absurd (ne e)
IsFirst-bound (at h z below) ne = h

module _ (c : BmapCache) (well : IsWell c) (free : HasFree c) where
  abbrev pub g : ℕ
  g = c.first_free_cache

  abbrev pub first : ℕ
  first = c.first_unalloced g

  abbrev pub b : ℕ
  b = g * bpb + first

  pub first_lt : first < bpb
  first_lt = IsFirst-bound (well.groups g free.inside).first free.free

  fits_g : Fits32 g
  fits_g = omega (arith, well.fits, free.inside)

  pub victim_lem : bmap2blockno first g ≡ b
  victim_lem = bmap2blockno_lem first g first_lt fits_g

  first_free : bmap_block_statue_get c b ≡ 0
  first_free = elim (well.groups g free.inside).first [
    | full e h ↦ absurd (free.free e)
    | at h z below ↦ z
  ]

  below_taken : (i : ℕ) → i < first → bmap_block_statue_get c (g * bpb + i) ≡ 1
  below_taken = elim (well.groups g free.inside).first [
    | full e h ↦ absurd (free.free e)
    | at h z below ↦ below
  ]

  lowest : (i : ℕ) → g * bpb ≤ i → i < b → bmap_block_statue_get c i ≡ 1
  lowest i lo hi =
      let e : i ≡ g * bpb + (i - g * bpb) = omega arith in
      ap (bmap_block_statue_get c) e ∙ below_taken (i - g * bpb) (omega arith)

  pub b_inside : b < c.n_cache * bpb
  b_inside = omega (arith, free.inside, first_lt)

-- The mark of the first free block is what `retire` expects.
pub mark-Marked :
    (c : BmapCache) (well : IsWell c) (free : HasFree c)
    → Marked (mark c (b c well free) 1) (g c well free) (first c well free)
unfolding mark
mark-Marked c well free = record {
  bytes = mark-AllBytes c well.bytes _ 1 (omega arith);
  fits = well.fits;
  inside = free.inside;
  first_lt = first_lt c well free;
  one_more = omega (
    arith,
    (well.groups _ free.inside).counted,
    count_set-mark c well.bytes (b c well free) 1 (omega arith) (g c well free * bpb) bpb
        (omega arith) (omega (arith, first_lt c well free)),
    first_free c well free,
  );
  below = λ i h. ground (
    arith,
    get-mark c well.bytes (b c well free) 1 (omega arith) (g c well free * bpb + i),
    below_taken c well free i,
  );
  others = λ h inside ne.
      IsSound-mark c (b c well free) 1 h well.bytes (omega arith)
        (elim (dec_lt h (g c well free)) [
          | yes p ↦ inr (omega arith)
          | no p ↦ inl (omega (arith, first_lt c well free))
        ])
        (well.groups h inside);
  current = refl;
}

-- A call of `block_alloc` that returns, on a cache that is right and whose `first_free_cache` is a
-- group with a free block, hands out a block that was free: the first one of that group. The block
-- is allocated afterwards, no other block's bit has changed, and the cache is right again and knows
-- of a further free block (the call that takes the last one does not return).
pub block_alloc-Took :
    (m : Machine) {m' : Machine} {v : ℕ}
    → IsWell m.bmap
    → HasFree m.bmap
    → block_alloc m ≡ ok v m'
    → Took m.bmap v m'.bmap
block_alloc-Took m {m'} {v} well free e =
    let (ve, gi, vi, m1, m2, e1, run, e2) = block_alloc-parts m e in
    let vb = ve ∙ victim_lem m.bmap well free in
    let marked = e1 ∙ ap (λ x. mark m.bmap x 1) vb in
    let mk =
      subst (λ c. Marked c (g m.bmap well free) (first m.bmap well free)) (sym marked)
        (mark-Marked m.bmap well free) in
    let r = retire-Retired m1 _ _ mk run in
    let buf = ap (λ (c : BmapCache). c.cache_buf) e2 ∙ r.bits in
    record {
      inside = rw vb (b_inside m.bmap well free);
      was_free = rw vb (first_free m.bmap well free);
      group = rw vb (omega (arith, first_lt m.bmap well free));
      lowest = λ i lo hi. lowest m.bmap well free i lo (subst (λ x. i < x) vb hi);
      taken = λ b'.
          get-same m1.bmap m'.bmap buf b'
          ∙ ap (λ c. bmap_block_statue_get c b') e1
          ∙ get-mark m.bmap well.bytes v 1 (omega arith) b';
      well = subst IsWell (sym e2) r.well;
      more = subst HasFree (sym e2) r.more;
    }
