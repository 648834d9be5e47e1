-- ===== src/Inode/Scan.antt =====
-- The loop of `iget` over the inode table (src/inode.c).
use native.Mathlib.Decide.{dec_lt}
use myfuse.Common.{
  ℕ, zero, suc, ◌+◌, ◌≤◌, ◌<◌, ◌≡◌, ◌≢◌, refl, Bool, true, false, ◌&&◌, arith, ◌==◌, lt_int, inl,
  inr, Bool-cases, if◌then◌else◌,
}
use myfuse.Machine.{Inode}
use myfuse.Inode.Table.{Slot, same, empty, neither, scan_itable}

-- the slot holds inode `inum`, with a reference to it
abbrev pub holds : (ℕ → Inode) → ℕ → ℕ → Bool
holds inodes inum j = (inodes j).inum == inum && lt_int 0 (inodes j).ref

-- The free slot that the loop comes to, from what it had before.
pub data Victim (inodes : ℕ → Inode) (k i : ℕ) : Slot → Slot → Type 0 where
  had : (x : ℕ) → Victim inodes k i (empty x) (empty x)
  free : (j : ℕ) → i ≤ j → j < i + k → (inodes j).ref ≡ 0 → Victim inodes k i neither (empty j)
  no_free : ((j : ℕ) → i ≤ j → j < i + k → (inodes j).ref ≢ 0) → Victim inodes k i neither neither

pub data Scanned (inodes : ℕ → Inode) (inum k i : ℕ) (v : Slot) : Slot → Type 0 where
  hit : (j : ℕ) → j < i + k → holds inodes inum j ≡ true → Scanned inodes inum k i v (same j)
  miss :
      {r : Slot}
      → ((j : ℕ) → i ≤ j → j < i + k → holds inodes inum j ≡ false)
      → Victim inodes k i v r
      → Scanned inodes inum k i v r

abbrev victim' : (ℕ → Inode) → ℕ → Slot → Slot
victim' inodes i v = elim v [ neither ↦ if (inodes i).ref == 0 then empty i else neither | v ↦ v ]

abbrev NotSame : Slot → Type 0
NotSame v = (x : ℕ) → v ≢ same x

-- the last slot looked at, then those after it
Victim-suc :
    (inodes : ℕ → Inode) (k i : ℕ) (v : Slot) {r : Slot}
    → NotSame v
    → Victim inodes k (i + 1) (victim' inodes i v) r
    → Victim inodes (suc k) i v r
Victim-suc inodes k i neither h t = elim (Bool-cases ((inodes i).ref == 0)) [
  | inl z ↦ let t' = rw z at t in here t' (ground arith)
  | inr n ↦ let t' = rw n at t in later t' (ground arith)
]
  where
    here :
        {r : Slot}
        → Victim inodes k (i + 1) (empty i) r
        → (inodes i).ref ≡ 0
        → Victim inodes (suc k) i neither r
    here (had _) z = free i (omega arith) (omega arith) z

    later :
        {r : Slot}
        → Victim inodes k (i + 1) neither r
        → (inodes i).ref ≢ 0
        → Victim inodes (suc k) i neither r
    later (free j a b z) n = free j (omega arith) (omega arith) z
    later (no_free h) n = no_free λ j a b. elim (dec_lt i j) [
      | yes p ↦ h j (omega arith) (omega arith)
      | no p ↦ let e : j ≡ i = omega arith in rw e n
    ]
Victim-suc inodes k i (empty x) h (had _) = had x
Victim-suc inodes k i (same x) h t = absurd (h x refl)

Victim-zero : (inodes : ℕ → Inode) (i : ℕ) (v : Slot) → NotSame v → Victim inodes 0 i v v
Victim-zero inodes i neither h = no_free λ j a b. absurd (omega arith)
Victim-zero inodes i (empty x) h = had x
Victim-zero inodes i (same x) h = absurd (h x refl)

empty-NotSame : (i : ℕ) → NotSame (empty i)
empty-NotSame i x e = cc e

pub neither-NotSame : NotSame neither
neither-NotSame x e = cc e

victim'-NotSame : (inodes : ℕ → Inode) (i : ℕ) (v : Slot) → NotSame v → NotSame (victim' inodes i v)
victim'-NotSame inodes i neither h = elim (Bool-cases ((inodes i).ref == 0)) [
  | inl z ↦ rw z (empty-NotSame i)
  | inr n ↦ rw n neither-NotSame
]
victim'-NotSame inodes i (empty x) h = empty-NotSame x
victim'-NotSame inodes i (same x) h = h

pub scan_itable-Scanned :
    (inodes : ℕ → Inode) (inum k i : ℕ) (v : Slot)
    → NotSame v
    → Scanned inodes inum k i v (scan_itable inodes inum k i v)
unfolding scan_itable
scan_itable-Scanned inodes inum zero i v h =
    miss (λ j a b. absurd (omega arith)) (Victim-zero inodes i v h)
scan_itable-Scanned inodes inum (suc k) i v h = elim (Bool-cases (holds inodes inum i)) [
  | inl is ↦ rw is (hit i (omega arith) is)
  | inr not_is ↦ rw not_is (
      onward
        (scan_itable-Scanned inodes inum k (i + 1) (victim' inodes i v)
          (victim'-NotSame inodes i v h))
        not_is)
]
  where
    onward :
        {r : Slot}
        → Scanned inodes inum k (i + 1) (victim' inodes i v) r
        → holds inodes inum i ≡ false
        → Scanned inodes inum (suc k) i v r
    onward (hit j b is) n = hit j (omega arith) is
    onward (miss g t) n =
        miss
          (λ j a b. elim (dec_lt i j) [
            | yes p ↦ g j (omega arith) (omega arith)
            | no p ↦ let e : j ≡ i = omega arith in rw e n
          ])
          (Victim-suc inodes k i v h t)
