-- ===== src/Balance/Log.antt =====
-- `begin_op` and `end_op` of src/log.c move the count of operations under way by one, and an
-- `end_op` that leaves others under way writes nothing.

use myfuse.Common.{
  ℕ, zero, suc, ◌+◌, ◌%◌, ◌^◌, ◌≤◌, List, Option, some, none, ◌≡◌, refl, ap, ◌∙◌, Bool, true, false,
  ◌==◌, arith, inl, inr, Bool-cases, sym, add32, sub32, leb, lt_int, ◌||◌, if◌then◌else◌,
}
use myfuse.Params.{nlog}
use myfuse.Machine.Block.{Block}
use myfuse.Machine.{Machine, ok, ◌>>◌}
use myfuse.Machine.Keeps.{
  Keeps, IsAbove, IsOffBufs, keeps, keeps_bind, keeps_pure, keeps_modify, keeps_if, ok-state,
}
use myfuse.Log.Header.{write_log_header_to_disk}
use myfuse.Log.Commit.{
  commit, log_one_block, log_loop, write_from_cache_to_log, install_block, install_loop,
  install_transaction,
}
use myfuse.Log.Op.{
  set_committing, begin_op, end_op, reserved, logged_read, logged_write, logged_relse,
}

-- the operations under way, as a 32-bit count
abbrev pub ops : Machine → ℕ
ops m = m.log.outstanding % 2 ^ 32

pub above : IsAbove ops
above = record { bufs = λ m b. refl; disk = λ m d t. refl }

pub header : Keeps ops write_log_header_to_disk
unfolding write_log_header_to_disk
header = search (keeps, above) depth 12

log_one : (t : ℕ) → Keeps ops (log_one_block t)
unfolding log_one_block
log_one t = search (keeps, above) depth 20

install_one : (r : Bool) (t : ℕ) → Keeps ops (install_block r t)
unfolding install_block
install_one true t = search (keeps, above) depth 20
install_one false t = search (keeps, above) depth 20

log_all : (k t : ℕ) → Keeps ops (log_loop k t)
unfolding log_loop
log_all zero t = keeps_pure tt
log_all (suc k) t = keeps_bind (log_one t) (λ _. log_all k (t + 1))

pub install_all : (r : Bool) (k t : ℕ) → Keeps ops (install_loop r k t)
unfolding install_loop
install_all r zero t = keeps_pure tt
install_all r (suc k) t = keeps_bind (install_one r t) (λ _. install_all r k (t + 1))

commit_kept : Keeps ops commit
unfolding commit write_from_cache_to_log install_transaction
commit_kept = search (keeps, keeps_modify, above, header, log_all, install_all) depth 20

count_up : (n : ℕ) → add32 n 1 % 2 ^ 32 ≡ add32 (n % 2 ^ 32) 1
count_up n = omega arith

count_down : (n : ℕ) → sub32 n 1 % 2 ^ 32 ≡ sub32 (n % 2 ^ 32) 1
count_down n = omega arith

-- One operation more, and the disk as it was.
pub begin_op-ops :
    (m : Machine) {m' : Machine} {a : Unit {0}}
    → begin_op m ≡ ok a m'
    → (ops m' ≡ add32 (ops m) 1) × (m'.disk ≡ m.disk) × (m'.trace ≡ m.trace)
unfolding begin_op
begin_op-ops m {m'} e = elim (Bool-cases (m.log.committing || lt_int nlog (reserved m))) [
  | inl full ↦ let e' = rw full at e in cc e'
  | inr free ↦
      let e' = rw free at e in
      let s = sym (ok-state e') in
      (ap ops s ∙ count_up m.log.outstanding, ap (λ x. x.disk) s, ap (λ x. x.trace) s)
]

commit_last : Keeps ops (do set_committing true; commit; set_committing false)
commit_last = search (keeps, keeps_modify, above, commit_kept) depth 20

-- One operation less.
-- Another operation is under way.
abbrev pub Shared : Machine → Type 0
Shared m = 2 ≤ ops m

left_open : (n : ℕ) → 2 ≤ n % 2 ^ 32 → (sub32 n 1 == 0) ≡ false
left_open n h = ground arith

-- One operation less; and the disk as it was, unless this was the last.
pub end_op-ops :
    (m : Machine) {m' : Machine} {a : Unit {0}}
    → end_op m ≡ ok a m'
    → (ops m' ≡ sub32 (ops m) 1) × (Shared m → (m'.disk ≡ m.disk) × (m'.trace ≡ m.trace))
unfolding end_op
end_op-ops m {m'} e = elim (Bool-cases m.log.committing) [
  | inl busy ↦ let e' = rw busy at e in cc e'
  | inr idle ↦
      let e' = rw idle at e in
      let down =
        (keeps_if (sub32 m.log.outstanding 1 == 0) commit_last (keeps_pure tt)).kept e'
        ∙ count_down m.log.outstanding in
      (
        down,
        λ more.
            let e2 = rw (left_open m.log.outstanding more) at e' in
            (sym (ap (λ x. x.disk) (ok-state e2)), sym (ap (λ x. x.trace) (ok-state e2))),
      )
]

-- The count, and what is on the disk while another operation is under way.
abbrev pub held : Machine → ℕ × Option ((ℕ → Block) × List (ℕ × Block))
held m = (ops m, if leb 2 (ops m) then some (m.disk, m.trace) else none)

pub off_bufs : IsOffBufs held
off_bufs = record { bufs = λ m b. refl }

pub read_kept : (b : ℕ) → Keeps held (logged_read b)
unfolding logged_read
read_kept b = search (keeps, off_bufs)

pub relse_kept : (b : ℕ) → Keeps held (logged_relse b)
unfolding logged_relse
relse_kept b = search (keeps, off_bufs)

pub write_kept : (b : ℕ) → Keeps held (logged_write b)
unfolding logged_write
write_kept b = search (keeps, keeps_modify, off_bufs) depth 20

-- What `held` says of two states.
pub held_lem :
    (m m' : Machine)
    → held m' ≡ held m
    → (ops m' ≡ ops m) × (Shared m → (m'.disk ≡ m.disk) × (m'.trace ≡ m.trace))
held_lem m m' e =
    let same : ops m' ≡ ops m = ap (λ x. x.0) e in
    (
      same,
      λ more.
          let p : leb 2 (ops m) ≡ true = ground arith in
          let p' : leb 2 (ops m') ≡ true = ground arith in
          let e0 : (held m').1 ≡ (held m).1 = ap (λ x. x.1) e in
          let e1 = rw (p, p') at e0 in (cc e1, cc e1),
    )

pub held-≡ :
    (m m' : Machine)
    → ops m' ≡ ops m
    → (Shared m → (m'.disk ≡ m.disk) × (m'.trace ≡ m.trace))
    → held m' ≡ held m
held-≡ m m' e h = elim (Bool-cases (leb 2 (ops m))) [
  | inl p ↦
      let (d, t) = h (ground arith) in
      let p' : leb 2 (ops m') ≡ true = ground arith in rw (p, p') cc
  | inr p ↦ let p' : leb 2 (ops m') ≡ false = ground arith in rw (p, p') cc
]
