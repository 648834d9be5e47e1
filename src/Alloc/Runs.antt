-- ===== src/Alloc/Runs.antt =====
-- When `block_alloc` of src/block_allocator.c returns.
use mathlib.Core.Path.{subst}
use native.Mathlib.Decide.{ℕ_discrete}
use myfuse.Common.{
  ℕ, ◌+◌, ◌-◌, ◌*◌, ◌/◌, ◌%◌, ◌<◌, ◌≡◌, ◌≢◌, refl, sym, ap, ◌∙◌, true, false, arith, ◌==◌, inl, inr,
  none, Bool-cases, Option-cases, add32, update, ltb,
}
use myfuse.Params.{bpb}
use myfuse.Machine.{
  Machine, Buf, BmapCache, Returns, returns, Returns-then, Returns-weaken, Returns-run, ◌>>◌, pure,
}
use myfuse.Machine.Block.{zeros}
use myfuse.Machine.Buffer.{set_data, buf_data}
use myfuse.Log.Edited.{HasRoomFor, Edited, HasRoomFor-Edited, edit_block-Edited}
use myfuse.Alloc.{
  minus_one, bmap_block_statue_get, bmap_block_statue_set, mark, find_group, find_free, retire,
  refocus, advance, block_alloc, logged_zero_a_block,
}
use myfuse.Alloc.Mark.{get-mark}
use myfuse.Alloc.Groups.{count_set, full, at, count_set-le, all_of_count}
use myfuse.Alloc.Search.{find_group-none}
use myfuse.Alloc.Effects.{statue_set-bmap}
use myfuse.Alloc.Retire.{IsWell, HasFree, Marked}
use myfuse.Alloc.Take.{Took, block_alloc-Took, victim_lem, b_inside, first_lt, mark-Marked}
use myfuse.Alloc.Take

-- Some block other than the one that is marked is free.
record Another (c : BmapCache) : Type 0 where
  block : ℕ
  inside : block / bpb < c.n_cache
  free : bmap_block_statue_get c block ≡ 0

free_split : (x : ℕ) → x / bpb * bpb + x % bpb ≡ x
free_split x = omega arith

clash : {n : ℕ} → n ≡ 0 → n ≡ 1 → ⊥
clash z o = omega (arith, z, o)

-- With another free block, `retire` finds a group for the next call.
group_left :
    {c : BmapCache} {g first : ℕ}
    → Marked c g first
    → Another c
    → add32 (c.n_alloced g) 1 ≡ bpb
    → find_group (update c.first_unalloced g minus_one) c.n_cache 0 ≢ none
group_left {c} {g} mk a whole nothing =
    let x = a.block in
    let gone =
      find_group-none (update c.first_unalloced g minus_one) c.n_cache 0 nothing (x / bpb)
        (omega arith) (omega (arith, a.inside)) in
    let z : bmap_block_statue_get c (x / bpb * bpb + x % bpb) ≡ 0 =
      ap (bmap_block_statue_get c) (free_split x) ∙ a.free in
    elim (ℕ_discrete g (x / bpb)) [
      | yes e ↦
          let count : count_set c (g * bpb) bpb ≡ bpb =
            omega (arith, mk.one_more, whole, count_set-le c (g * bpb) bpb) in
          clash z (
            subst (λ h. bmap_block_statue_get c (h * bpb + x % bpb) ≡ 1) e
              (all_of_count c (g * bpb) bpb count (x % bpb) (omega arith)))
      | no ne ↦
          let miss : (g == x / bpb) ≡ false = ground arith in
          elim (mk.others (x / bpb) a.inside (λ e. ne (sym e))).first [
            | full e h ↦ clash z (h (x % bpb) (omega arith))
            | at h z' below ↦ let gone' = rw miss at gone in omega (arith, h, gone')
          ]
    ]

retire-Returns :
    (m : Machine) (g first : ℕ)
    → Marked m.bmap g first
    → Another m.bmap
    → Returns (λ _ m'. (m'.bufs ≡ m.bufs) × (m'.log ≡ m.log)) (retire g first m)
unfolding retire refocus advance
retire-Returns m g first mk a =
    let c = m.bmap in
    let hit : (g == g) ≡ true = ground arith in
    elim (Bool-cases (add32 (c.n_alloced g) 1 == bpb)) [
      | inl whole ↦
          rw (hit, whole)
            (elim (Option-cases (find_group (update c.first_unalloced g minus_one) c.n_cache 0)) [
              | inl nothing ↦ absurd (group_left mk a (ground arith) nothing)
              | inr (i, fg) ↦ rw fg (returns (refl, refl))
            ])
      | inr part ↦
          rw (hit, part)
            (elim (Option-cases (
              find_free (record c { n_alloced = update c.n_alloced g (add32 (c.n_alloced g) 1) }) g
                (bpb - (first + 1)) (first + 1))) [
                  | inl nothing ↦ rw nothing (returns (refl, refl))
                  | inr (l, ff) ↦ rw ff (returns (refl, refl))
                ])
    ]

-- The bitmap block of `b` is edited.
pub statue_set-Edited :
    (k b i : ℕ) (m : Machine)
    → HasRoomFor (k + 1) m
    → b / bpb < m.bmap.n_cache
    → (m.bufs (add32 (b / bpb) m.sb.bmapstart)).locked ≡ false
    → Returns (λ _. Edited m) (bmap_block_statue_set b i m)
unfolding bmap_block_statue_set
statue_set-Edited k b i m h inside unlocked =
    let go : ltb (b / bpb) m.bmap.n_cache ≡ true = ground arith in
    rw go (
      Returns-weaken
        (edit_block-Edited k (add32 (b / bpb) m.sb.bmapstart)
          (λ d. update d (b % bpb / 8) ((mark m.bmap b i).cache_buf (b / 8)))
          (record m { bmap = mark m.bmap b i })
          (record { few = h.few; room = h.room; small = h.small; inside = h.inside; sane = h.sane })
          unlocked)
        λ _ m' e. record { locks = e.locks; more = e.more; size = e.size; ops = e.ops })

zero-Edited :
    (k b : ℕ) (m : Machine)
    → HasRoomFor (k + 1) m
    → (m.bufs b).locked ≡ false
    → Returns (λ _. Edited m) (logged_zero_a_block b m)
unfolding logged_zero_a_block set_data buf_data
zero-Edited k b m h unlocked = edit_block-Edited k b (λ d. zeros) m h unlocked

HasRoomFor-log : {k : ℕ} {m m' : Machine} → m'.log ≡ m.log → HasRoomFor k m → HasRoomFor k m'
HasRoomFor-log {k} e h = record {
  few = rw e h.few;
  room = rw e h.room;
  small = rw e h.small;
  inside = rw e h.inside;
  sane = rw e h.sane;
}

-- What `block_alloc` needs to return: room in the log for two blocks; the buffers of the block to
-- be handed out and of its bitmap block not held; a second free block.
pub record CanAlloc (m : Machine) (v : ℕ) : Type 0 where
  pub room : HasRoomFor 2 m
  pub bitmap_free : (m.bufs (add32 (v / bpb) m.sb.bmapstart)).locked ≡ false
  pub block_free : (m.bufs v).locked ≡ false
  pub other : ℕ
  pub other_inside : other / bpb < m.bmap.n_cache
  pub other_free : bmap_block_statue_get m.bmap other ≡ 0
  pub other_not : other ≢ v

module _ (m : Machine) (well : IsWell m.bmap) (free : HasFree m.bmap) where
  abbrev victim : ℕ
  victim = Take.b m.bmap well free

  abbrev group : ℕ
  group = m.bmap.first_free_cache

  abbrev head : ℕ
  head = m.bmap.first_unalloced group

  another : CanAlloc m victim → Another (mark m.bmap victim 1)
  unfolding mark
  another can =
      let miss : (victim == can.other) ≡ false = let n = can.other_not in ground arith in
      record {
        block = can.other;
        inside = can.other_inside;
        free = get-mark m.bmap well.bytes victim 1 (omega arith) can.other ∙ rw miss can.other_free;
      }

  block_alloc-runs : CanAlloc m victim → Returns (λ _ _. Unit {0}) (block_alloc m)
  unfolding block_alloc
  block_alloc-runs can =
      let never : ltb m.bmap.first_free_cache 0 ≡ false = ground arith in
      let inside : ltb m.bmap.first_free_cache m.bmap.n_cache ≡ true =
        let i = free.inside in ground arith in
      let same = victim_lem m.bmap well free in
      let in_range = b_inside m.bmap well free in
      rw (never, inside, same)
        (Returns-then {k = λ _. retire group head >> (logged_zero_a_block victim >> pure victim)}
          (Returns-run (statue_set-Edited 1 victim 1 m can.room (omega arith) can.bitmap_free))
          λ _ m1 (e1, run).
            let marked = (statue_set-bmap victim 1 m run).1 in
            Returns-then {k = λ _. logged_zero_a_block victim >> pure victim}
              (retire-Returns m1 group head
                (subst (λ c. Marked c group head) (sym marked) (mark-Marked m.bmap well free))
                (subst Another (sym marked) (another can)))
              λ _ m2 (bufs, log).
                Returns-then {k = λ _. pure victim}
                  (zero-Edited 0 victim m2 (HasRoomFor-log log (HasRoomFor-Edited 1 e1 can.room)) (
                    ap (λ (f : ℕ → Buf). (f victim).locked) bufs
                    ∙ e1.locks victim
                    ∙ can.block_free))
                  λ _ m3 e3. returns tt)

-- On a cache that is right, whose `first_free_cache` is a group with a free block, with a second
-- free block somewhere, in an operation, with room in the log for two blocks, and the buffers of
-- the block to be handed out (the first free one of that group) and of its bitmap block not held,
-- `block_alloc` returns. The block it returns was free, the first one of its group; it is allocated
-- afterwards, no other block's bit has changed, and the cache is right again and knows of a further
-- free block.
pub block_alloc-Returns :
    (m : Machine) (well : IsWell m.bmap) (free : HasFree m.bmap)
    → CanAlloc m (Take.b m.bmap well free)
    → Returns (λ v m'. Took m.bmap v m'.bmap) (block_alloc m)
block_alloc-Returns m well free can =
    Returns-weaken (Returns-run (block_alloc-runs m well free can))
      λ v m' r. block_alloc-Took m well free r.1
