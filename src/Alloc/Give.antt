-- ===== src/Alloc/Give.antt =====
-- `block_free` of src/block_allocator.c.
use mathlib.Core.Path.{subst}
use native.Mathlib.Decide.{dec_lt, ℕ_discrete}
use myfuse.Common.{
  ℕ, ◌+◌, ◌*◌, ◌/◌, ◌%◌, ◌≤◌, ◌<◌, ◌≡◌, ◌≢◌, refl, sym, ap, ◌∙◌, true, false, arith, ltb, ◌==◌,
  if◌then◌else◌, inl, inr, ◌⊎◌, sub32, update,
}
use myfuse.Params.{bpb}
use myfuse.Machine.{Machine, BmapCache, ok}
use myfuse.Machine.Keeps.{ok-state, and_then-ok}
use myfuse.Alloc.{minus_one, bmap_block_statue_get, mark, bmap_block_statue_set, block_free}
use myfuse.Alloc.Mark.{mark-AllBytes, get-mark}
use myfuse.Alloc.Groups.{
  count_set, IsFirst, full, at, IsSound, count_set-le, count_set-mark, get-same, count_set-same,
  IsFirst-same, IsSound-mark,
}
use myfuse.Alloc.Retire.{IsWell, HasFree}
use myfuse.Alloc.Effects.{statue_set-bmap}

-- The cache after `block_free`.
abbrev pub freed : BmapCache → ℕ → BmapCache
freed c b = record c {
  n_alloced = update c.n_alloced (b / bpb) (sub32 (c.n_alloced (b / bpb)) 1);
  first_unalloced = update c.first_unalloced (b / bpb) (
      if ltb (b % bpb) (c.first_unalloced (b / bpb)) then b % bpb else c.first_unalloced (b / bpb));
  first_free_cache = b / bpb;
}

pub block_free-freed :
    (b : ℕ) (m : Machine) {m' : Machine} {a : Unit {0}}
    → block_free b m ≡ ok a m'
    → (b / bpb < m.bmap.n_cache) × (m'.bmap ≡ freed (mark m.bmap b 0) b)
unfolding block_free
block_free-freed b m e =
    let (_, m1, f1, e1) = and_then-ok (bmap_block_statue_set b 0 m) _ e in
    let marked = statue_set-bmap b 0 m f1 in
    (marked.0, ap (λ (s : Machine). s.bmap) (sym (ok-state e1)) ∙ ap (λ c. freed c b) marked.1)

-- `b` was allocated and is free now; no other block changed, and the cache is right again.
pub record Gave (c : BmapCache) (b : ℕ) (c' : BmapCache) : Type 0 where
  pub given :
      (b' : ℕ) → bmap_block_statue_get c' b' ≡ (if b == b' then 0 else bmap_block_statue_get c b')
  pub well : IsWell c'
  pub more : HasFree c'

module _ (c : BmapCache) (b : ℕ) (well : IsWell c) (inside : b / bpb < c.n_cache)
    (taken : bmap_block_statue_get c b ≡ 1) where
  abbrev g : ℕ
  g = b / bpb

  abbrev c1 : BmapCache
  c1 = mark c b 0

  gone : (i : ℕ) → bmap_block_statue_get c1 i ≡ (if b == i then 0 else bmap_block_statue_get c i)
  gone i = get-mark c well.bytes b 0 (omega arith) i

  abbrev r : ℕ
  r = b % bpb

  split : g * bpb + r ≡ b
  split = omega arith

  r_gone : bmap_block_statue_get c1 (g * bpb + r) ≡ 0
  r_gone = let e = gone b in rw split (ground arith)

  r_taken : bmap_block_statue_get c (g * bpb + r) ≡ 1
  r_taken = rw split taken

  other_bit :
      (i : ℕ)
      → i ≢ r
      → bmap_block_statue_get c1 (g * bpb + i) ≡ bmap_block_statue_get c (g * bpb + i)
  other_bit i ne =
      let e = gone (g * bpb + i) in
      let miss : (b == (g * bpb + i)) ≡ false = let s = split in ground arith in e ∙ rw miss

  first_in : {f : ℕ} → IsFirst c g f → IsFirst c1 g (if ltb r f then r else f)
  first_in {f} (full e h) =
      let less : ltb r f ≡ true = rw e (ground arith) in
      rw less (at (omega arith) r_gone λ i p. other_bit i (omega arith) ∙ h i (omega arith))
  first_in {f} (at h z below) = elim (dec_lt r f) [
    | yes p ↦
        let less : ltb r f ≡ true = ground arith in
        rw less (at (omega arith) r_gone λ i q. other_bit i (omega arith) ∙ below i (omega arith))
    | no p ↦
        let less : ltb r f ≡ false = ground arith in
        let ne : f ≢ r = λ e.
          let t = sym z ∙ ap (λ i. bmap_block_statue_get c (g * bpb + i)) e ∙ r_taken in
          omega (arith, t) in
        rw less (at h (other_bit f ne ∙ z) λ i q. other_bit i (omega arith) ∙ below i q)
  ]

  counted_down : sub32 (c.n_alloced g) 1 ≡ count_set c1 (g * bpb) bpb
  counted_down = omega (
    arith,
    (well.groups g inside).counted,
    count_set-le c (g * bpb) bpb,
    count_set-mark c well.bytes b 0 (omega arith) (g * bpb) bpb (omega arith) (omega arith),
    taken,
  )

  first_some : {f : ℕ} → IsFirst c g f → (if ltb r f then r else f) ≢ minus_one
  first_some (full e h) = rw e (ground arith)
  first_some (at h z below) = ground arith

  freed-IsWell : IsWell (freed c1 b)
  unfolding mark
  freed-IsWell = record {
    bytes = mark-AllBytes c well.bytes b 0 (omega arith);
    fits = well.fits;
    groups = λ h below. elim (ℕ_discrete g h) [
      | yes e ↦ subst (IsSound (freed c1 b)) e own
      | no ne ↦
          let miss : (g == h) ≡ false = ground arith in
          let s =
            IsSound-mark c b 0 h well.bytes (omega arith) (apart h ne) (well.groups h below) in
          record {
            counted = rw miss (s.counted ∙ sym (count_set-same c1 (freed c1 b) refl (h * bpb) bpb));
            first = rw miss (IsFirst-same c1 (freed c1 b) refl s.first);
          }
    ];
  }
    where
      apart : (h : ℕ) → g ≢ h → (b < h * bpb) ⊎ (h * bpb + bpb ≤ b)
      apart h ne = elim (dec_lt h g) [ yes p ↦ inr (omega arith) | no p ↦ inl (omega arith) ]

      hit : (g == g) ≡ true
      hit = ground arith

      own : IsSound (freed c1 b) g
      own = record {
        counted = rw hit (counted_down ∙ sym (count_set-same c1 (freed c1 b) refl (g * bpb) bpb));
        first = rw hit (IsFirst-same c1 (freed c1 b) refl (first_in (well.groups g inside).first));
      }

  freed-HasFree : HasFree (freed c1 b)
  unfolding mark
  freed-HasFree =
      let hit : (g == g) ≡ true = ground arith in
      record { inside = inside; free = rw hit (first_some (well.groups g inside).first) }

-- A call of `block_free` that returns, on a cache that is right and for a block that is allocated,
-- clears the bit of that block and no other one; the counts and the first free blocks of all groups
-- are right again, and `first_free_cache` is a group with a free block.
pub block_free-Gave :
    (b : ℕ) (m : Machine) {m' : Machine} {a : Unit {0}}
    → IsWell m.bmap
    → bmap_block_statue_get m.bmap b ≡ 1
    → block_free b m ≡ ok a m'
    → Gave m.bmap b m'.bmap
block_free-Gave b m {m'} well taken e =
    let (inside, after) = block_free-freed b m e in
    let buf = ap (λ (c : BmapCache). c.cache_buf) after in
    record {
      given = λ b'.
          get-same (mark m.bmap b 0) m'.bmap buf b'
          ∙ get-mark m.bmap well.bytes b 0 (omega arith) b';
      well = subst IsWell (sym after) (freed-IsWell m.bmap b well inside taken);
      more = subst HasFree (sym after) (freed-HasFree m.bmap b well inside taken);
    }
