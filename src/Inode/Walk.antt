-- ===== src/Inode/Walk.antt =====
-- The block map of src/inode.c read off the state: where `imap2blockno` comes to without allocating.
use myfuse.Common.{
  ℕ, ◌+◌, ◌-◌, ◌*◌, ◌<◌, ◌≡◌, ◌∙◌, refl, sym, ap, Bool, true, false, not, ◌&&◌, Bool-cases, ◌==◌,
  ltb, leb, arith, update, add32, sub32, inl, inr, fun_ext,
}
use myfuse.Params.{bsize, maxopblocks, ndirect, nindirect1, maxfile_size}
use myfuse.Machine.{Machine, ok, Returns, returns, Returns-then, ◌>>=◌}
use myfuse.Machine.Block.{Block, get32}
use myfuse.Machine.Buffer.{view, bread, brelse, buf_data}
use myfuse.Log.Op.{logged_read, logged_relse}
use myfuse.Inode.Map.{
  Place, direct, indirect1, indirect2, indirect3, too_big, place, addr_or_alloc, entry_or_alloc,
  imap2blockno, assert_no_need_to_restart_op_in_imap2blockno,
}
use myfuse.Inode.Place.{InRange, place-InRange}

-- Entry `i` of the indirect block `b`, in the blocks that `blocks` shows.
abbrev pub entry : (ℕ → Block) → ℕ → ℕ → ℕ
entry blocks b i = get32 (blocks b) (4 * i)

abbrev pub at_place : (ℕ → Block) → (ℕ → ℕ) → Place → ℕ
at_place blocks addrs (direct i) = addrs i
at_place blocks addrs (indirect1 i) = entry blocks (addrs ndirect) i
at_place blocks addrs (indirect2 i j) = entry blocks (entry blocks (addrs (ndirect + 1)) i) j
at_place blocks addrs (indirect3 i j k) =
    entry blocks (entry blocks (entry blocks (addrs (ndirect + 2)) i) j) k
at_place blocks addrs too_big = 0

-- No block on the way is missing.
abbrev pub is_mapped : (ℕ → Block) → (ℕ → ℕ) → Place → Bool
is_mapped blocks addrs (direct i) = not (addrs i == 0)
is_mapped blocks addrs (indirect1 i) =
    not (addrs ndirect == 0) && not (entry blocks (addrs ndirect) i == 0)
is_mapped blocks addrs (indirect2 i j) =
    not (addrs (ndirect + 1) == 0)
    && (not (entry blocks (addrs (ndirect + 1)) i == 0)
        && not (entry blocks (entry blocks (addrs (ndirect + 1)) i) j == 0))
is_mapped blocks addrs (indirect3 i j k) =
    not (addrs (ndirect + 2) == 0)
    && (not (entry blocks (addrs (ndirect + 2)) i == 0)
        && (not (entry blocks (entry blocks (addrs (ndirect + 2)) i) j == 0)
            && not (entry blocks (entry blocks (entry blocks (addrs (ndirect + 2)) i) j) k == 0)))
is_mapped blocks addrs too_big = false

-- Block `bn` of the file.
abbrev pub walk : Machine → ℕ → ℕ → ℕ
walk m ip bn = at_place (view m) (m.inodes ip).addrs (place bn)

-- Blocks have been looked at: some may be in the cache now, and nothing else has changed.
pub record Looked (m m' : Machine) : Type 0 where
  pub same : m' ≡ record m { bufs = m'.bufs }
  pub seen : view m' ≡ view m
  pub locks : (b : ℕ) → (m'.bufs b).locked ≡ (m.bufs b).locked

pub Looked-refl : (m : Machine) → Looked m m
Looked-refl m = record { same = refl; seen = refl; locks = λ b. refl }

pub Looked-trans : {m m' m'' : Machine} → Looked m m' → Looked m' m'' → Looked m m''
Looked-trans {m} {m'} {m''} h h' = record {
  same = h'.same ∙ ap {A = Machine} (λ x. record x { bufs = m''.bufs }) h.same;
  seen = h'.seen ∙ h.seen;
  locks = λ b. h'.locks b ∙ h.locks b;
}

-- block `b` after `bread` and `brelse`
abbrev pub looked_at : ℕ → Machine → Machine
looked_at b m = record m {
  bufs =
      update
        (update m.bufs b (record {
          contents = view m b;
          valid = true;
          locked = true;
          refcnt = add32 (m.bufs b).refcnt 1;
        }))
        b
        (record {
          contents = view m b;
          valid = true;
          locked = false;
          refcnt = sub32 (add32 (m.bufs b).refcnt 1) 1;
        });
}

pub looked_at-Looked : (b : ℕ) (m : Machine) → (m.bufs b).locked ≡ false → Looked m (looked_at b m)
looked_at-Looked b m free = record {
  same = refl;
  seen = fun_ext λ c. ground arith;
  locks = λ c. elim (Bool-cases (b == c)) [
    | inl here ↦ let q : b ≡ c = ground arith in let free' = rw q at free in rw here (sym free')
    | inr away ↦ rw away refl
  ];
}

-- `entry_or_alloc` of an entry that is there.
entry_or_alloc-entry :
    (b i : ℕ) (m : Machine)
    → (m.bufs b).locked ≡ false
    → (entry (view m) b i == 0) ≡ false
    → entry_or_alloc b i m ≡ ok (entry (view m) b i) (looked_at b m)
unfolding entry_or_alloc logged_read logged_relse bread brelse buf_data
entry_or_alloc-entry b i m free there =
    let hit : (b == b) ≡ true = ground arith in rw (free, hit, there, hit) refl

-- `addr_or_alloc` of an address that is there.
addr_or_alloc-addr :
    (ip i : ℕ) (m : Machine)
    → ((m.inodes ip).addrs i == 0) ≡ false
    → addr_or_alloc ip i m ≡ ok ((m.inodes ip).addrs i) m
unfolding addr_or_alloc
addr_or_alloc-addr ip i m there = rw there refl

-- The same after blocks have been looked at.
entry_or_alloc-Looked :
    (b i : ℕ) (m0 m : Machine)
    → ((b : ℕ) → (m0.bufs b).locked ≡ false)
    → Looked m0 m
    → (entry (view m0) b i == 0) ≡ false
    → Returns (λ a m'. (a ≡ entry (view m0) b i) × Looked m0 m') (entry_or_alloc b i m)
entry_or_alloc-Looked b i m0 m free looked there =
    let free' = looked.locks b ∙ free b in
    let there' : (entry (view m) b i == 0) ≡ false =
      ap (λ v. entry v b i == 0) looked.seen ∙ there in
    rw (entry_or_alloc-entry b i m free' there') (
      returns (ap (λ v. entry v b i) looked.seen, Looked-trans looked (looked_at-Looked b m free')))

pub and-true : (a b : Bool) → (a && b) ≡ true → (a ≡ true) × (b ≡ true)
and-true true true e = (refl, refl)
and-true true false e = cc e
and-true false b e = cc e

pub not-true : (a : Bool) → not a ≡ true → a ≡ false
not-true true e = cc e
not-true false e = refl

calm_test :
    (m : Machine)
    → m.n_log_wrote < maxopblocks - 4
    → leb (maxopblocks - 1 - 3) m.n_log_wrote ≡ false
calm_test m h = ground arith

entry_test : (i : ℕ) → i < nindirect1 → ltb (i * 4) bsize ≡ true
entry_test i h = ground arith

module _ (m : Machine) (ip : ℕ) (free : (b : ℕ) → (m.bufs b).locked ≡ false)
    (calm : m.n_log_wrote < maxopblocks - 4) where
  -- Two entries in turn, the second in the block that the first names.
  entries-Looked :
      (b i j : ℕ) (m1 : Machine)
      → Looked m m1
      → (entry (view m) b i == 0) ≡ false
      → (entry (view m) (entry (view m) b i) j == 0) ≡ false
      → Returns
          (λ a m'. (a ≡ entry (view m) (entry (view m) b i) j) × Looked m m')
          ((entry_or_alloc b i >>= λ addr. entry_or_alloc addr j) m1)
  entries-Looked b i j m1 looked there there' =
      Returns-then (entry_or_alloc-Looked b i m m1 free looked there) (λ a m2 (e, looked2).
        rw e (entry_or_alloc-Looked (entry (view m) b i) j m m2 free looked2 there'))

  imap_place :
      (bn : ℕ) (p : Place)
      → place bn ≡ p
      → InRange p
      → is_mapped (view m) (m.inodes ip).addrs p ≡ true
      → Returns
          (λ a m'. (a ≡ at_place (view m) (m.inodes ip).addrs p) × Looked m m')
          (imap2blockno ip bn m)
  unfolding imap2blockno assert_no_need_to_restart_op_in_imap2blockno
  imap_place bn (direct i) e range mapped =
      rw (calm_test m calm, e, addr_or_alloc-addr ip i m (not-true _ mapped))
        (returns (refl, Looked-refl m))
  imap_place bn (indirect1 i) e range mapped =
      let (first, second) = and-true _ _ mapped in
      rw (calm_test m calm, e, addr_or_alloc-addr ip ndirect m (not-true _ first))
        (entry_or_alloc-Looked _ i m m free (Looked-refl m) (not-true _ second))
  imap_place bn (indirect2 i j) e range mapped =
      let (first, rest) = and-true _ _ mapped in
      let (second, third) = and-true _ _ rest in
      rw
        (
          calm_test m calm,
          e,
          addr_or_alloc-addr ip (ndirect + 1) m (not-true _ first),
          entry_test i range.0,
        )
        (entries-Looked _ i j m (Looked-refl m) (not-true _ second) (not-true _ third))
  imap_place bn (indirect3 i j k) e range mapped =
      let (first, rest) = and-true _ _ mapped in
      let (second, rest') = and-true _ _ rest in
      let (third, fourth) = and-true _ _ rest' in
      rw
        (
          calm_test m calm,
          e,
          addr_or_alloc-addr ip (ndirect + 2) m (not-true _ first),
          entry_test i range.0,
        )
        (Returns-then (entry_or_alloc-Looked _ i m m free (Looked-refl m) (not-true _ second))
          (λ a m2 (e, looked2).
            rw (entry_test j range.1, e)
              (entries-Looked _ j k m2 looked2 (not-true _ third) (not-true _ fourth))))
  imap_place bn too_big e range mapped = cc mapped

  -- `imap2blockno` of a block that is mapped, at any level, finds it and changes nothing.
  pub imap2blockno-Looked :
      (bn : ℕ)
      → bn * bsize < maxfile_size
      → is_mapped (view m) (m.inodes ip).addrs (place bn) ≡ true
      → Returns (λ a m'. (a ≡ walk m ip bn) × Looked m m') (imap2blockno ip bn m)
  imap2blockno-Looked bn low mapped = imap_place bn (place bn) refl (place-InRange bn low).0 mapped

module _ {m m' : Machine} (looked : Looked m m') (ip : ℕ) where
  pub is_mapped-Looked :
      (p : Place)
      → is_mapped (view m') (m'.inodes ip).addrs p ≡ is_mapped (view m) (m.inodes ip).addrs p
  is_mapped-Looked p =
      ap (λ v. is_mapped v (m'.inodes ip).addrs p) looked.seen
      ∙ ap (λ (x : Machine). is_mapped (view m) (x.inodes ip).addrs p) looked.same

  pub walk-Looked : (bn : ℕ) → walk m' ip bn ≡ walk m ip bn
  walk-Looked bn =
      ap (λ v. at_place v (m'.inodes ip).addrs (place bn)) looked.seen
      ∙ ap (λ (x : Machine). at_place (view m) (x.inodes ip).addrs (place bn)) looked.same
