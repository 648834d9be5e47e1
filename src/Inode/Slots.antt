-- ===== src/Inode/Slots.antt =====
-- What `iget` (src/inode.c) does to the slot it returns, and why no two slots hold one inode.
use mathlib.Core.Path.{subst}
use native.Mathlib.Decide.{ℕ_discrete}
use myfuse.Common.{
  ℕ, ◌+◌, ◌^◌, ◌≤◌, ◌<◌, ◌≡◌, ◌≢◌, refl, sym, ap, ◌∙◌, true, false, arith, ◌==◌, lt_int, add32,
  update, ltb,
}
use myfuse.Machine.{Machine, Inode}
use myfuse.Inode.Scan.{holds}

-- The table has slots, not too many for an `int`, and the counts of references are `int`s that
-- have room for one more.
pub record IsTable (m : Machine) : Type 0 where
  pub some_in : 0 < m.ninode
  pub small : m.ninode < 2 ^ 31
  pub counts : (j : ℕ) → (m.inodes j).ref + 1 < 2 ^ 31
  pub single :
      (i j : ℕ)
      → i < m.ninode
      → j < m.ninode
      → 0 < (m.inodes i).ref
      → 0 < (m.inodes j).ref
      → (m.inodes i).inum ≡ (m.inodes j).inum
      → i ≡ j

-- Slot `ip` is that of inode `inum`, with one more reference; the other slots are as they were.
pub record Got (inum : ℕ) (m : Machine) (ip : ℕ) (m' : Machine) : Type 0 where
  pub grown : m.ninode ≤ m'.ninode
  pub inside : ip < m'.ninode
  pub number : (m'.inodes ip).inum ≡ inum
  pub others : (j : ℕ) → j < m.ninode → j ≢ ip → m'.inodes j ≡ m.inodes j
  -- the slot that held it before, if one did; else a free or new slot, to be read from the disk
  pub one_more :
      (j : ℕ)
      → j < m.ninode
      → holds m.inodes inum j ≡ true
      → (j ≡ ip)
        × ((m'.inodes ip).ref ≡ (m.inodes ip).ref + 1)
        × ((m'.inodes ip).valid ≡ (m.inodes ip).valid)
  pub fresh :
      ((j : ℕ) → j < m.ninode → holds m.inodes inum j ≡ false)
      → ((m'.inodes ip).ref ≡ 1)
        × ((m'.inodes ip).valid ≡ false)
        × (ip < m.ninode → (m.inodes ip).ref ≡ 0)
  pub single :
      (i j : ℕ)
      → i < m'.ninode
      → j < m'.ninode
      → 0 < (m'.inodes i).ref
      → 0 < (m'.inodes j).ref
      → (m'.inodes i).inum ≡ (m'.inodes j).inum
      → i ≡ j

live : (r : ℕ) → r < 2 ^ 31 → lt_int 0 r ≡ ltb 0 r
live r h = ground arith

holds_parts :
    (inodes : ℕ → Inode) (inum j : ℕ)
    → (inodes j).ref < 2 ^ 31
    → holds inodes inum j ≡ true
    → ((inodes j).inum ≡ inum) × (0 < (inodes j).ref)
holds_parts inodes inum j small h = ground arith

holds_intro :
    (inodes : ℕ → Inode) (inum j : ℕ)
    → (inodes j).ref < 2 ^ 31
    → (inodes j).inum ≡ inum
    → 0 < (inodes j).ref
    → holds inodes inum j ≡ true
holds_intro inodes inum j small e r = ground arith

-- One slot changes, and no other slot holds the number it has then.
single-change :
    (inodes inodes' : ℕ → Inode) (n ip : ℕ)
    → ((i j : ℕ)
        → i < n
        → j < n
        → 0 < (inodes i).ref
        → 0 < (inodes j).ref
        → (inodes i).inum ≡ (inodes j).inum
        → i ≡ j)
    → ((j : ℕ) → j ≢ ip → inodes' j ≡ inodes j)
    → ((j : ℕ) → j < n → j ≢ ip → 0 < (inodes j).ref → (inodes j).inum ≢ (inodes' ip).inum)
    → (i j : ℕ) → i < n
    → j < n
    → 0 < (inodes' i).ref
    → 0 < (inodes' j).ref
    → (inodes' i).inum ≡ (inodes' j).inum
    → i ≡ j
single-change inodes inodes' n ip single others apart i j hi hj ri rj e = elim (ℕ_discrete i ip) [
  | yes a ↦ elim (ℕ_discrete j ip) [
    | yes b ↦ a ∙ sym b
    | no b ↦
        let o = others j b in
        absurd (
          apart j hj b (subst (λ (x : Inode). 0 < x.ref) o rj)
            (ap (λ (x : Inode). x.inum) (sym o) ∙ sym e ∙ ap (λ k. (inodes' k).inum) a))
  ]
  | no a ↦
      let oi = others i a in
      elim (ℕ_discrete j ip) [
        | yes b ↦ absurd (
            apart i hi a (subst (λ (x : Inode). 0 < x.ref) oi ri)
              (ap (λ (x : Inode). x.inum) (sym oi) ∙ e ∙ ap (λ k. (inodes' k).inum) b))
        | no b ↦
            let oj = others j b in
            single i j hi hj (subst (λ (x : Inode). 0 < x.ref) oi ri)
              (subst (λ (x : Inode). 0 < x.ref) oj rj)
              (ap (λ (x : Inode). x.inum) (sym oi) ∙ e ∙ ap (λ (x : Inode). x.inum) oj)
      ]
]

update_other :
    (inodes : ℕ → Inode) (ip : ℕ) (n : Inode) (j : ℕ) → j ≢ ip → update inodes ip n j ≡ inodes j
update_other inodes ip n j ne = let miss : (ip == j) ≡ false = ground arith in rw miss

-- what `iget` makes of the slot it returns
abbrev again : Inode → Inode
again n = record n { ref = add32 n.ref 1 }

abbrev anew : ℕ → Inode → Inode
anew inum n = record n { inum = inum; ref = 1; valid = false }

abbrev with_slot : Machine → ℕ → Inode → Machine
with_slot m ip n = record m { inodes = update m.inodes ip n }

pub same-Got :
    (inum : ℕ) (m : Machine) (ip : ℕ)
    → IsTable m
    → ip < m.ninode
    → holds m.inodes inum ip ≡ true
    → Got inum m ip (with_slot m ip (again (m.inodes ip)))
same-Got inum m ip t inside is = record {
  grown = omega arith;
  inside = inside;
  number = rw self (ground arith);
  others = λ j h ne. let miss : (ip == j) ≡ false = ground arith in rw miss;
  one_more = λ j h is'. rw self (only j h is', omega (arith, t.counts ip), refl);
  fresh = λ none_holds. absurd (let n = none_holds ip inside in cc (n, is));
  single =
      single-change m.inodes (update m.inodes ip (again (m.inodes ip))) m.ninode ip t.single
        (update_other m.inodes ip (again (m.inodes ip)))
        (λ j h ne r e. ne (t.single j ip h inside r here.1 (e ∙ number_kept)));
}
  where
    self : (ip == ip) ≡ true
    self = ground arith

    here : ((m.inodes ip).inum ≡ inum) × (0 < (m.inodes ip).ref)
    here = holds_parts m.inodes inum ip (omega (arith, t.counts ip)) is

    only : (j : ℕ) → j < m.ninode → holds m.inodes inum j ≡ true → j ≡ ip
    only j h is' =
        let there = holds_parts m.inodes inum j (omega (arith, t.counts j)) is' in
        t.single j ip h inside there.1 here.1 (there.0 ∙ sym here.0)

    number_kept : (update m.inodes ip (again (m.inodes ip)) ip).inum ≡ (m.inodes ip).inum
    number_kept = rw self refl

pub empty-Got :
    (inum : ℕ) (m : Machine) (ip : ℕ)
    → IsTable m
    → ip < m.ninode
    → (m.inodes ip).ref ≡ 0
    → ((j : ℕ) → j < m.ninode → holds m.inodes inum j ≡ false)
    → Got inum m ip (with_slot m ip (anew inum (m.inodes ip)))
empty-Got inum m ip t inside unused none_holds = record {
  grown = omega arith;
  inside = inside;
  number = rw self refl;
  others = λ j h ne. let miss : (ip == j) ≡ false = ground arith in rw miss;
  one_more = λ j h is'. absurd (let n = none_holds j h in cc (n, is'));
  fresh = λ none_holds'. rw self (refl, refl, λ h. unused);
  single =
      single-change m.inodes (update m.inodes ip (anew inum (m.inodes ip))) m.ninode ip t.single
        (update_other m.inodes ip (anew inum (m.inodes ip)))
        (λ j h ne r e. absurd (
          let n = none_holds j h in
          cc (n, holds_intro m.inodes inum j (omega (arith, t.counts j)) (e ∙ number_new) r)));
}
  where
    self : (ip == ip) ≡ true
    self = ground arith

    number_new : (update m.inodes ip (anew inum (m.inodes ip)) ip).inum ≡ inum
    number_new = rw self refl
