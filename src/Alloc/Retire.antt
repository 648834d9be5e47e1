-- ===== src/Alloc/Retire.antt =====
-- The third step of `block_alloc` (src/block_allocator.c): the count and first free block of the
-- group, and the choice of another group when it is full.
use mathlib.Core.Path.{subst}
use native.Mathlib.Decide.{dec_lt, ℕ_discrete}
use myfuse.Common.{
  ℕ, ◌+◌, ◌-◌, ◌*◌, ◌^◌, ◌≤◌, ◌<◌, ◌≡◌, ◌≢◌, refl, sym, ◌∙◌, true, false, arith, ◌==◌, inl, inr,
  Option, some, none, Bool-cases, Option-cases, add32, update,
}
use myfuse.Params.{bpb}
use myfuse.Machine.{Machine, BmapCache, ok}
use myfuse.Machine.Keeps.{ok-state}
use myfuse.Alloc.{minus_one, bmap_block_statue_get, find_group, find_free, retire, refocus, advance}
use myfuse.Alloc.Mark.{AllBytes}
use myfuse.Alloc.Groups.{
  count_set, IsFirst, full, at, IsSound, count_set-le, count_set-full, all_of_count, count_set-same,
  IsFirst-same,
}
use myfuse.Alloc.Search.{
  Found, none_free, free_at, find_free-Found, find_free-same, find_group-some,
}

-- Every group's count and first free block are those of the bitmap.
pub record IsWell (c : BmapCache) : Type 0 where
  pub bytes : AllBytes c
  pub fits : c.n_cache * bpb ≤ 2 ^ 32
  pub groups : (g : ℕ) → g < c.n_cache → IsSound c g

-- `first_free_cache` is a group with a free block.
pub record HasFree (c : BmapCache) : Type 0 where
  pub inside : c.first_free_cache < c.n_cache
  pub free : c.first_unalloced c.first_free_cache ≢ minus_one

-- What `retire` needs: the block just marked was the first free one of its group.
pub record Marked (c : BmapCache) (g first : ℕ) : Type 0 where
  pub bytes : AllBytes c
  pub fits : c.n_cache * bpb ≤ 2 ^ 32
  pub inside : g < c.n_cache
  pub first_lt : first < bpb
  pub one_more : c.n_alloced g + 1 ≡ count_set c (g * bpb) bpb
  pub below : (i : ℕ) → i ≤ first → bmap_block_statue_get c (g * bpb + i) ≡ 1
  pub others : (h : ℕ) → h < c.n_cache → h ≢ g → IsSound c h
  pub current : c.first_free_cache ≡ g

-- The cache with group `g` counted again and its first free block set to `f`.
abbrev retired : BmapCache → ℕ → ℕ → BmapCache
retired c g f = record c {
  n_alloced = update c.n_alloced g (add32 (c.n_alloced g) 1);
  first_unalloced = update c.first_unalloced g f;
}

module _ {c : BmapCache} {g first : ℕ} (mk : Marked c g first) where
  counted_up : add32 (c.n_alloced g) 1 ≡ count_set c (g * bpb) bpb
  counted_up = omega (arith, mk.one_more, count_set-le c (g * bpb) bpb)

  retired-IsWell : (f : ℕ) → IsFirst c g f → IsWell (retired c g f)
  retired-IsWell f is = record {
    bytes = mk.bytes;
    fits = mk.fits;
    groups = λ h below. elim (ℕ_discrete g h) [
      | yes e ↦ subst (IsSound (retired c g f)) e own
      | no ne ↦
          let miss : (g == h) ≡ false = ground arith in
          let s = mk.others h below (λ e. ne (sym e)) in
          record {
            counted =
                rw miss (s.counted ∙ sym (count_set-same c (retired c g f) refl (h * bpb) bpb));
            first = rw miss (IsFirst-same c (retired c g f) refl s.first);
          }
    ];
  }
    where
      hit : (g == g) ≡ true
      hit = ground arith

      own : IsSound (retired c g f) g
      own = record {
        counted = rw hit (counted_up ∙ sym (count_set-same c (retired c g f) refl (g * bpb) bpb));
        first = rw hit (IsFirst-same c (retired c g f) refl is);
      }

  -- The group is full: its count has reached BPB.
  now_full : add32 (c.n_alloced g) 1 ≡ bpb → IsFirst c g minus_one
  now_full e = full refl (all_of_count c (g * bpb) bpb (sym counted_up ∙ e))

  searched :
      (r : Option ℕ)
      → find_free c g (bpb - (first + 1)) (first + 1) ≡ r
      → Found c g (bpb - (first + 1)) (first + 1) r
  searched r e = subst (Found c g (bpb - (first + 1)) (first + 1)) e (
      find_free-Found c g (bpb - (first + 1)) (first + 1) (omega (arith, mk.first_lt))
        (omega (arith, mk.fits, mk.inside)))

  -- The search found the group's next free block.
  Found-some :
      {l : ℕ} → Found c g (bpb - (first + 1)) (first + 1) (some l) → (l < bpb) × IsFirst c g l
  Found-some (free_at l lo hi z h) = (
    omega (arith, mk.first_lt),
    at (omega (arith, mk.first_lt)) z λ i p. elim (dec_lt first i) [
      | yes q ↦ h i (omega arith) p
      | no q ↦ mk.below i (omega arith)
    ],
  )

  -- It finds one unless the group is full.
  Found-none : Found c g (bpb - (first + 1)) (first + 1) none → add32 (c.n_alloced g) 1 ≡ bpb
  Found-none (none_free h) =
      counted_up
      ∙ count_set-full c (g * bpb) bpb λ i p. elim (dec_lt first i) [
        | yes q ↦ h i (omega arith) (omega (arith, mk.first_lt))
        | no q ↦ mk.below i (omega arith)
      ]

-- What `retire` leaves: a cache that is right, with the same bitmap.
pub record Retired (c c' : BmapCache) : Type 0 where
  pub well : IsWell c'
  pub more : HasFree c'
  pub bits : c'.cache_buf ≡ c.cache_buf
  pub size : c'.n_cache ≡ c.n_cache

focused-IsWell : {c : BmapCache} (i : ℕ) → IsWell c → IsWell (record c { first_free_cache = i })
focused-IsWell {c} i w = record {
  bytes = w.bytes;
  fits = w.fits;
  groups = λ g h.
      let c' : BmapCache = record c { first_free_cache = i } in
      record {
        counted = (w.groups g h).counted ∙ sym (count_set-same c c' refl (g * bpb) bpb);
        first = IsFirst-same c c' refl (w.groups g h).first;
      };
}

retired-full :
    {c : BmapCache} {g first i : ℕ}
    → Marked c g first
    → add32 (c.n_alloced g) 1 ≡ bpb
    → find_group (update c.first_unalloced g minus_one) c.n_cache 0 ≡ some i
    → Retired c (record (retired c g minus_one) { first_free_cache = i })
retired-full {c} {g} {i} mk e fg =
    let r = find_group-some (update c.first_unalloced g minus_one) c.n_cache 0 fg in
    record {
      well = focused-IsWell i (retired-IsWell mk minus_one (now_full mk e));
      more = record { inside = omega (arith, r.1); free = r.2 };
      bits = refl;
      size = refl;
    }

retired-next :
    {c : BmapCache} {g first l : ℕ}
    → Marked c g first
    → find_free c g (bpb - (first + 1)) (first + 1) ≡ some l
    → Retired c (retired c g l)
retired-next {c} {g} {first} {l} mk ff =
    let is = Found-some mk (searched mk (some l) ff) in
    let hit : (g == g) ≡ true = ground arith in
    record {
      well = retired-IsWell mk l is.1;
      more = record {
        inside = rw mk.current mk.inside;
        free = rw (mk.current, hit) (omega (arith, is.0));
      };
      bits = refl;
      size = refl;
    }

pub retire-Retired :
    (m : Machine) (g first : ℕ) {m' : Machine} {a : Unit {0}}
    → Marked m.bmap g first
    → retire g first m ≡ ok a m'
    → Retired m.bmap m'.bmap
unfolding retire refocus advance
retire-Retired m g first {m'} {a} mk e =
    let c = m.bmap in
    let hit : (g == g) ≡ true = ground arith in
    let keep = λ (s : Machine). Retired c s.bmap in
    elim (Bool-cases (add32 (c.n_alloced g) 1 == bpb)) [
      | inl fl ↦
          let e1 = rw (hit, fl) at e in
          elim (Option-cases (find_group (update c.first_unalloced g minus_one) c.n_cache 0)) [
            | inl nothing ↦ let e2 = rw nothing at e1 in cc e2
            | inr (i, fg) ↦
                let e2 = rw fg at e1 in subst keep (ok-state e2) (retired-full mk (ground arith) fg)
          ]
      | inr nf ↦
          let e1 =
            rw
              (
                hit,
                nf,
                find_free-same c
                    (record c { n_alloced = update c.n_alloced g (add32 (c.n_alloced g) 1) }) refl g
                    (bpb - (first + 1)) (first + 1),
              )
              at e in
          elim (Option-cases (find_free c g (bpb - (first + 1)) (first + 1))) [
            | inl nothing ↦
                absurd (let f = Found-none mk (searched mk none nothing) in ground arith)
            | inr (l, ff) ↦ let e2 = rw ff at e1 in subst keep (ok-state e2) (retired-next mk ff)
          ]
    ]
