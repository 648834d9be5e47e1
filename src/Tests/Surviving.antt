-- ===== src/Tests/Surviving.antt =====
-- A write of 4000 bytes from offset 4000 on is on the disk after end_op, and a crash in the middle of
-- the commit leaves all of it or none.
use myfuse.Common.{ℕ, zero, suc, ◌≡◌, ◌⊎◌, refl, ap, false, ltb, arith, [], ◌∷◌, ◌++◌, inl, inr}
use myfuse.Machine.{Machine, Run, ok, Returns, returns, ◌>>=◌, ◌>>◌, pure}
use myfuse.Machine.Block.{get32}
use myfuse.Machine.Effect.{Writes, apply_writes}
use myfuse.Log.Op.{end_op}
use myfuse.Log.Commit.{log_init}
use myfuse.Log.Atomic.{Boots}
use myfuse.Inode.Layout.{nblockaddr}
use myfuse.Inode.Content.{inode_write_nbytes_locked}
use myfuse.Inode.Alone.{IsAlone}
use myfuse.Inode.Durable.{
  Inside, IsWritten, end_op-inode_write_nbytes_locked, end_op-inode_write_nbytes_locked_atomic,
}
use myfuse.Tests.Fixture.{superblock, boot, sevens, after, answer, first_of, rest_of}
use myfuse.Tests.Contents.{filed, walk-file, filed-IsSeparate, filed-HasRoomFor}

filed-IsAlone : IsAlone filed 0 8192
unfolding get32
filed-IsAlone = record {
  one = refl;
  idle = refl;
  small = omega arith;
  words = λ i. omega arith;
  header = refl;
  synced = λ b away. refl;
  listed = λ b old. cc old;
  size = ground arith;
  addrs = λ j. ground arith;
  beyond = λ j high. let away : ltb j nblockaddr ≡ false = ground (arith, high) in rw away refl;
  touched = λ b which. elim which [
    | inl at_home ↦ (inr (omega (arith, at_home)), omega (arith, at_home))
    | inr (p, low, hit) ↦
        let a = walk-file p low in (inr (omega (arith, a, hit, low)), omega (arith, a, hit, low))
  ];
}

end_op-inode_write_nbytes_locked_example :
    Returns
      (λ r m'.
        (r ≡ 4000)
        × (m'.log.n ≡ 0)
        × (get32 (m'.disk 2) 0 ≡ 0)
        × IsWritten filed 0 8192 sevens 4000 4000 m'.disk)
      ((do r ← inode_write_nbytes_locked 0 sevens 4000 4000; end_op; pure r) filed)
end_op-inode_write_nbytes_locked_example =
    end_op-inode_write_nbytes_locked filed 0 8192 filed-IsSeparate filed-IsAlone sevens 4000 4000
      (omega arith) (omega arith) (filed-HasRoomFor _ (omega arith))

abbrev run : Run ℕ
run = (do r ← inode_write_nbytes_locked 0 sevens 4000 4000; end_op; pure r) filed

abbrev written : Machine
written = after run filed

run-after :
    {P : ℕ → Machine → Type 0} {c : Run ℕ} → Returns P c → c ≡ ok (answer c 0) (after c filed)
run-after (returns p) = refl

first_of-rest_of : (k : ℕ) (w : Writes) → w ≡ first_of k w ++ rest_of k w
first_of-rest_of zero w = refl
first_of-rest_of (suc k) [] = refl
first_of-rest_of (suc k) (x ∷ w) = ap (λ t. x ∷ t) (first_of-rest_of k w)

abbrev cut_off : Machine
cut_off = record boot { disk = apply_writes (first_of 5 written.trace) filed.disk }

cut_off-Boots : Boots filed.log superblock cut_off
cut_off-Boots = record {
  fresh = record { empty = λ b. refl; free = λ b. refl };
  start = refl;
  size = refl;
}

-- The crash comes after five writes.
end_op-inode_write_nbytes_locked_atomic_example :
    Returns
      (λ _ m''.
        ((b : ℕ) → Inside filed.log b ⊎ (m''.disk b ≡ filed.disk b))
        ⊎ IsWritten filed 0 8192 sevens 4000 4000 m''.disk)
      (log_init superblock cut_off)
end_op-inode_write_nbytes_locked_atomic_example =
    end_op-inode_write_nbytes_locked_atomic filed 0 8192 filed-IsSeparate filed-IsAlone sevens 4000
      4000 (omega arith) (omega arith) (filed-HasRoomFor _ (omega arith)) (first_of 5 written.trace)
      (rest_of 5 written.trace)
      (run-after (
        end_op-inode_write_nbytes_locked filed 0 8192 filed-IsSeparate filed-IsAlone sevens 4000
          4000 (omega arith) (omega arith) (filed-HasRoomFor _ (omega arith))))
      (first_of-rest_of 5 written.trace) cut_off-Boots refl
