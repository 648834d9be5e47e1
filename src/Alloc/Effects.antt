-- ===== src/Alloc/Effects.antt =====
-- What the functions of src/block_allocator.c do to `bmap_cache`, whenever they return.
use myfuse.Common.{
  ℕ, ◌/◌, ◌<◌, ◌≡◌, refl, sym, ◌∙◌, ap, false, arith, ltb, inl, inr, Bool-cases, update,
}
use myfuse.Params.{bpb}
use myfuse.Machine.{Machine, ok, Cmd, ◌>>=◌, ◌>>◌, pure}
use myfuse.Machine.Buffer.{buf_data, set_data}
use myfuse.Machine.Keeps.{Keeps, IsAbove, and_then-ok, ok-state, ok-value, keeps}
use myfuse.Log.Op.{logged_read, logged_write, logged_relse}
use myfuse.Log.Upper.{IsUpper, keeps_logged_read, keeps_logged_write, keeps_logged_relse}
use myfuse.Alloc.{
  mark, bmap_block_statue_set, logged_zero_a_block, bmap2blockno, retire, block_alloc,
}

bmap_IsUpper : IsUpper (λ m. m.bmap)
bmap_IsUpper = record {
  above = record { bufs = λ m b. refl; disk = λ m d t. refl };
  log = λ m l. refl;
  wrote = λ m n. refl;
  log_wrote = λ m l n. refl;
}

above : IsAbove (λ m. m.bmap)
above = bmap_IsUpper.above

KeepsBmap : {A : Type 0} → Cmd A → Type 0
KeepsBmap c = Keeps (λ m. m.bmap) c

read_kept : (b : ℕ) → Keeps (λ m. m.bmap) (logged_read b)
read_kept = keeps_logged_read bmap_IsUpper

write_kept : (b : ℕ) → Keeps (λ m. m.bmap) (logged_write b)
write_kept = keeps_logged_write bmap_IsUpper

relse_kept : (b : ℕ) → Keeps (λ m. m.bmap) (logged_relse b)
relse_kept = keeps_logged_relse bmap_IsUpper

ruleset keeps_bmap = (keeps, above, read_kept, write_kept, relse_kept)

zero_kept : (b : ℕ) → Keeps (λ m. m.bmap) (logged_zero_a_block b)
unfolding logged_zero_a_block
zero_kept b = search keeps_bmap depth 12

-- The second half of `bmap_block_statue_set`.
abbrev write_through : ℕ → ℕ → ℕ → Cmd (Unit {0})
write_through bmapno off flag = do
  logged_read bmapno
  d ← buf_data bmapno
  set_data bmapno (update d off flag)
  logged_write bmapno
  logged_relse bmapno

write_through_kept : (b off flag : ℕ) → Keeps (λ m. m.bmap) (write_through b off flag)
write_through_kept b off flag = search keeps_bmap depth 12

pub statue_set-bmap :
    (b i : ℕ) (m : Machine) {m' : Machine} {a : Unit {0}}
    → bmap_block_statue_set b i m ≡ ok a m'
    → (b / bpb < m.bmap.n_cache) × (m'.bmap ≡ mark m.bmap b i)
unfolding bmap_block_statue_set
statue_set-bmap b i m e = elim (Bool-cases (ltb (b / bpb) m.bmap.n_cache)) [
  | inl inside ↦ let e' = rw inside at e in (ground arith, (write_through_kept _ _ _).kept e')
  | inr outside ↦ let e' = rw outside at e in cc e'
]

ltb-zero : (a : ℕ) → ltb a 0 ≡ false
ltb-zero a = ground arith

-- `block_alloc` marks the first free block of the first free group and retires it.
pub block_alloc-parts :
    (m : Machine) {m' : Machine} {b : ℕ}
    → block_alloc m ≡ ok b m'
    → let g = m.bmap.first_free_cache in
      let first = m.bmap.first_unalloced g in
      (b ≡ bmap2blockno first g)
      × (g < m.bmap.n_cache)
      × (b / bpb < m.bmap.n_cache)
      × (m1 : Machine) × (m2 : Machine) × (m1.bmap ≡ mark m.bmap b 1)
      × (retire g first m1 ≡ ok tt m2)
      × (m'.bmap ≡ m2.bmap)
unfolding block_alloc
block_alloc-parts m {m'} {b} e = elim (Bool-cases (ltb g m.bmap.n_cache)) [
  | inl inside ↦
      let e0 = rw (ltb-zero g, inside) at e in
      let (_, m1, f1, e1) =
        and_then-ok (bmap_block_statue_set victim 1 m)
          (λ _. retire g first >> (logged_zero_a_block victim >> pure victim)) e0 in
      let (_, m2, f2, e2) =
        and_then-ok (retire g first m1) (λ _. logged_zero_a_block victim >> pure victim) e1 in
      let (_, m3, f3, e3) = and_then-ok (logged_zero_a_block victim m2) (λ _. pure victim) e2 in
      let same : b ≡ victim = sym (ok-value e3) in
      let marked = statue_set-bmap victim 1 m f1 in
      (
        same,
        ground arith,
        rw same marked.0,
        m1,
        m2,
        marked.1 ∙ ap (λ v. mark m.bmap v 1) (sym same),
        f2,
        ap (λ (s : Machine). s.bmap) (sym (ok-state e3)) ∙ (zero_kept victim).kept f3,
      )
  | inr outside ↦ let e0 = rw (ltb-zero g, outside) at e in cc e0
]
  where
    g : ℕ
    g = m.bmap.first_free_cache

    first : ℕ
    first = m.bmap.first_unalloced g

    victim : ℕ
    victim = bmap2blockno first g
