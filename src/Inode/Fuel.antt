-- ===== src/Inode/Fuel.antt =====
-- The fuel of the loops over whole blocks of src/inode.c.
use mathlib.Core.Path.{fun_ext}
use myfuse.Common.{
  ℕ, zero, suc, ◌+◌, ◌-◌, ◌*◌, ◌%◌, ◌^◌, ◌≤◌, ◌≡◌, refl, ap, false, arith, ltb, if◌then◌else◌,
}
use myfuse.Params.{bsize}
use myfuse.Machine.{pure}
use myfuse.Machine.Block.{Block}
use myfuse.Inode.Content.{write_loop, read_round, read_loop}

-- Fuel for `nbytes` bytes: the loop stops at BSIZE or fewer.
abbrev Enough : ℕ → ℕ → Type 0
Enough fuel nbytes = nbytes ≤ (fuel + 1) * bsize

short : (nbytes : ℕ) → Enough 0 nbytes → ltb bsize nbytes ≡ false
short nbytes h = ground arith

write_loop-fuel :
    (f f' ip : ℕ) (bytes : Block) (from bn nbytes : ℕ)
    → Enough f nbytes
    → Enough f' nbytes
    → write_loop f ip bytes from bn nbytes ≡ write_loop f' ip bytes from bn nbytes
unfolding write_loop
write_loop-fuel zero zero ip bytes from bn nbytes h h' = refl
write_loop-fuel zero (suc f') ip bytes from bn nbytes h h' = rw (short nbytes h)
write_loop-fuel (suc f) zero ip bytes from bn nbytes h h' = rw (short nbytes h')
write_loop-fuel (suc f) (suc f') ip bytes from bn nbytes h h' = rw (
    write_loop-fuel f f' ip bytes (from + bsize) ((bn + 1) % 2 ^ 32) (nbytes - bsize) (omega arith)
      (omega arith))

read_loop-fuel :
    (f f' ip : ℕ) (bytes : Block) (to bn nbytes : ℕ)
    → Enough f nbytes
    → Enough f' nbytes
    → read_loop f ip bytes to bn nbytes ≡ read_loop f' ip bytes to bn nbytes
unfolding read_loop
read_loop-fuel zero zero ip bytes to bn nbytes h h' = refl
read_loop-fuel zero (suc f') ip bytes to bn nbytes h h' = rw (short nbytes h)
read_loop-fuel (suc f) zero ip bytes to bn nbytes h h' = rw (short nbytes h')
read_loop-fuel (suc f) (suc f') ip bytes to bn nbytes h h' =
    ap
      (λ rest.
        if ltb bsize nbytes then read_round ip bytes to bn rest else pure (bytes, to, bn, nbytes))
      (fun_ext λ bytes'.
        read_loop-fuel f f' ip bytes' (to + bsize) ((bn + 1) % 2 ^ 32) (nbytes - bsize)
          (omega arith) (omega arith))

-- Any two amounts of fuel that are at least the number of whole blocks among the bytes, the last
-- one less (`nbytes ≤ (fuel + 1) * BSIZE`), make each loop over whole blocks the same command, for
-- writes and for reads: the fuel that is given, the bytes divided by BSIZE, never cuts a loop short.
pub blocks-fuel :
    (f f' ip : ℕ) (bytes : Block) (at bn nbytes : ℕ)
    → Enough f nbytes
    → Enough f' nbytes
    → (write_loop f ip bytes at bn nbytes ≡ write_loop f' ip bytes at bn nbytes)
      × (read_loop f ip bytes at bn nbytes ≡ read_loop f' ip bytes at bn nbytes)
blocks-fuel f f' ip bytes at bn nbytes h h' = (
  write_loop-fuel f f' ip bytes at bn nbytes h h',
  read_loop-fuel f f' ip bytes at bn nbytes h h',
)
