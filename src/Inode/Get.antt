-- ===== src/Inode/Get.antt =====
-- `iget` of src/inode.c: it returns, and the table keeps one slot for an inode.
use mathlib.Core.Path.{subst}
use native.Mathlib.Decide.{dec_lt}
use myfuse.Common.{
  ℕ, ◌*◌, ◌%◌, ◌^◌, ◌≤◌, ◌<◌, ◌≡◌, ◌≢◌, sym, ap, ◌∙◌, true, false, arith, if◌then◌else◌, rounds,
  add32, leb, ltb, ◌&&◌,
}
use myfuse.Machine.{Machine, Inode, Cmd, ◌>>◌, pure, Returns, returns, Returns-weaken}
use myfuse.Inode.Table.{
  edit, Slot, same, empty, neither, scan_itable, iget_on, iget, itable_grow, no_inode,
}
use myfuse.Inode.Scan.{
  holds, free, no_free, Scanned, hit, miss, neither-NotSame, scan_itable-Scanned,
}
use myfuse.Inode.Slots.{IsTable, Got, same-Got, empty-Got}

abbrev grown : Machine → Machine
grown m = record m {
  inodes = λ i. if leb m.ninode i && ltb i (m.ninode * 2) then no_inode else m.inodes i;
  ninode = m.ninode * 2;
}

grown-old : (m : Machine) (j : ℕ) → j < m.ninode → (grown m).inodes j ≡ m.inodes j
grown-old m j h = let old : leb m.ninode j ≡ false = ground arith in rw old

grown-new : (m : Machine) (j : ℕ) → m.ninode ≤ j → j < m.ninode * 2 → (grown m).inodes j ≡ no_inode
grown-new m j h h' =
    let new : leb m.ninode j ≡ true = ground arith in
    let new' : ltb j (m.ninode * 2) ≡ true = ground arith in rw (new, new')

grown-IsTable : (m : Machine) → IsTable m → m.ninode < 2 ^ 30 → IsTable (grown m)
grown-IsTable m t small = record {
  some_in = omega (arith, t.some_in);
  small = omega arith;
  counts = λ j. ground (arith, t.counts j);
  single = λ i j hi hj ri rj e.
      let hi' = old i hi ri in
      let hj' = old j hj rj in
      let oi = grown-old m i hi' in
      let oj = grown-old m j hj' in
      t.single i j hi' hj' (subst (λ (x : Inode). 0 < x.ref) oi ri)
        (subst (λ (x : Inode). 0 < x.ref) oj rj)
        (ap (λ (x : Inode). x.inum) (sym oi) ∙ e ∙ ap (λ (x : Inode). x.inum) oj);
}
  where
    old : (i : ℕ) → i < m.ninode * 2 → 0 < ((grown m).inodes i).ref → i < m.ninode
    old i h r = elim (dec_lt i m.ninode) [
      | yes p ↦ p
      | no p ↦
          let z = ap (λ (x : Inode). x.ref) (grown-new m i (omega arith) h) in
          absurd (omega (arith, z))
    ]

-- The table as `iget` scans it.
scanned :
    (inum : ℕ) (m : Machine)
    → IsTable m
    → Scanned m.inodes inum m.ninode 0 neither
        (scan_itable m.inodes inum (rounds (m.ninode % 2 ^ 32)) 0 neither)
scanned inum m t =
    let e : rounds (m.ninode % 2 ^ 32) ≡ m.ninode = ground (arith, t.small) in
    rw e (scan_itable-Scanned m.inodes inum m.ninode 0 neither neither-NotSame)

abbrev cases : ℕ → ℕ → Slot → Cmd ℕ
cases fuel inum s = elim s [
  | same i ↦ (do edit i (λ ip. record ip { ref = add32 ip.ref 1 }); pure i)
  | empty i ↦ (do edit i (λ ip. record ip { inum = inum; ref = 1; valid = false }); pure i)
  | neither ↦ itable_grow >> iget_on fuel inum
]

-- A call that finds the inode or a free slot.
found-Got :
    (fuel inum : ℕ) (m : Machine) {s : Slot}
    → IsTable m
    → Scanned m.inodes inum m.ninode 0 neither s
    → (((j : ℕ) → j < m.ninode → (m.inodes j).ref ≢ 0)
        → ((j : ℕ) → j < m.ninode → holds m.inodes inum j ≡ false)
        → Returns (Got inum m) (cases fuel inum neither m))
    → Returns (Got inum m) (cases fuel inum s m)
found-Got fuel inum m t (hit j h is) next = returns (same-Got inum m j t (omega arith) is)
found-Got fuel inum m t (miss none_holds (free j a b z)) next =
    returns (empty-Got inum m j t (omega arith) z (λ i h. none_holds i (omega arith) (omega arith)))
found-Got fuel inum m t (miss none_holds (no_free used)) next =
    next (λ j h. used j (omega arith) (omega arith))
      (λ j h. none_holds j (omega arith) (omega arith))

-- The table with room for one more, seen from the one before it grew.
Got-grown :
    {inum : ℕ} {m : Machine} {ip : ℕ} {m' : Machine}
    → ((j : ℕ) → j < m.ninode → (m.inodes j).ref ≢ 0)
    → ((j : ℕ) → j < m.ninode → holds m.inodes inum j ≡ false)
    → Got inum (grown m) ip m'
    → Got inum m ip m'
Got-grown {inum} {m} {ip} {m'} used none_holds g = record {
  grown = omega (arith, g.grown);
  inside = g.inside;
  number = g.number;
  others = λ j h ne. g.others j (omega arith) ne ∙ grown-old m j h;
  one_more = λ j h is. absurd (let n = none_holds j h in cc (n, is));
  fresh = λ n.
      let f = g.fresh still_none in
      (
        f.0,
        f.1,
        λ h.
            absurd
              (used ip h (ap (λ (x : Inode). x.ref) (sym (grown-old m ip h)) ∙ f.2 (omega arith))),
      );
  single = g.single;
}
  where
    still_none : (j : ℕ) → j < m.ninode * 2 → holds (grown m).inodes inum j ≡ false
    still_none j h = elim (dec_lt j m.ninode) [
      | yes p ↦ let o = grown-old m j p in rw o (none_holds j p)
      | no p ↦ let o = grown-new m j (omega arith) h in rw o (ground arith)
    ]

-- On a table that has a slot, whose counts of references are at most 2^31 - 2, in which no two slots
-- in use have the same number, and which has fewer than 2 ^ 30 slots, `iget` returns, whether or not
-- the inode is in the table and the table has a free slot. If a slot holds the inode, it returns that
-- slot with one more reference; if none does, it returns a slot that no one referred to or a new one,
-- which has the number, one reference, and is not valid. The other slots do not change, and still no
-- two slots in use have the same number.
pub iget-Got :
    (inum : ℕ) (m : Machine) → IsTable m → m.ninode < 2 ^ 30 → Returns (Got inum m) (iget inum m)
unfolding iget iget_on itable_grow
iget-Got inum m t small = found-Got 1 inum m t (scanned inum m t) λ used none_holds.
    let t' = grown-IsTable m t small in
    Returns-weaken
      (found-Got 0 inum (grown m) t' (scanned inum (grown m) t') λ used' none_holds'. absurd (
        used' m.ninode (omega (arith, t.some_in)) (
          ap (λ (x : Inode). x.ref)
            (grown-new m m.ninode (omega arith) (omega (arith, t.some_in))))))
      λ ip m' g. Got-grown used none_holds g
