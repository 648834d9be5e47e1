-- ===== src/Balance/Inode.antt =====
-- Inodes (src/inode.c) leave the count of operations under way alone, the functions that end an
-- operation and begin another included.
use myfuse.Common.{
  ℕ, zero, suc, ◌+◌, ◌%◌, ◌^◌, ◌<◌, ◌≡◌, refl, ap, ◌∙◌, arith, add32, sub32, rounds,
}
use myfuse.Machine.{Machine, Cmd, ok, ◌>>◌}
use myfuse.Machine.Keeps.{
  Keeps, keeps, keeps_bind, keeps_modify, keeps_state, keeps_if, keeps_buf_data, keeps_set_data,
  and_then-ok,
}
use myfuse.Log.Op.{begin_op, end_op}
use myfuse.Inode.Table.{
  neither, scan_itable, iget_on, iget, ialloc_loop, ialloc, ilock, iunlock, iupdate, itable_grow,
}
use myfuse.Inode.Map.{itrunc2size_log_op_restart_helper}
use myfuse.Balance.Log.{
  ops, held, held-≡, off_bufs, read_kept, write_kept, relse_kept, begin_op-ops, end_op-ops,
}
use myfuse.Balance.Rules.{parts, slot_kept}

down_up : (n : ℕ) → n < 2 ^ 32 → add32 (sub32 n 1) 1 ≡ n
down_up n h = omega arith

-- An operation ended, and another begun.
restarted :
    (m m1 m2 : Machine) {a b : Unit {0}}
    → end_op m ≡ ok a m1
    → begin_op m1 ≡ ok b m2
    → held m2 ≡ held m
restarted m m1 m2 e1 e2 =
    let (down, quiet) = end_op-ops m e1 in
    let (up, d, t) = begin_op-ops m1 e2 in
    held-≡ m m2 (up ∙ ap (λ x. add32 x 1) down ∙ down_up (ops m) (omega arith))
      (λ more. let (d', t') = quiet more in (d ∙ d', t ∙ t'))

-- The same, before what else is done.
pub again_kept : {A : Type 0} {c : Cmd A} → Keeps held c → Keeps held (do end_op; begin_op; c)
again_kept {c} h = record {
  kept = λ {m} e.
      let (b, m1, e1, e2) = and_then-ok (end_op m) (λ _. begin_op >> c) e in
      let (b', m2, e3, e4) = and_then-ok (begin_op m1) (λ _. c) e2 in
      h.kept e4 ∙ restarted m m1 m2 e1 e3;
}

restart_kept : Keeps held (end_op >> begin_op)
restart_kept = record {
  kept = λ {m} {m'} e.
      let (b, m1, e1, e2) = and_then-ok (end_op m) (λ _. begin_op) e in restarted m m1 m' e1 e2;
}

pub helper_kept : Keeps held itrunc2size_log_op_restart_helper
unfolding itrunc2size_log_op_restart_helper
helper_kept = search (keeps, restart_kept)

iget_on_kept : (fuel inum : ℕ) → Keeps held (iget_on fuel inum)
unfolding iget_on itable_grow
iget_on_kept zero inum = search keeps
iget_on_kept (suc fuel) inum =
    let again = iget_on_kept fuel inum in
    keeps_bind keeps_state λ m.
      slot_kept (scan_itable m.inodes inum (rounds (m.ninode % 2 ^ 32)) 0 neither)
        (λ i. search (keeps, parts)) (λ i. search (keeps, parts))
        (keeps_bind (keeps_modify _ (λ m. refl)) (λ _. again))

pub iget_kept : (inum : ℕ) → Keeps held (iget inum)
unfolding iget
iget_kept inum = iget_on_kept 2 inum

ialloc_loop_kept : (kind k inum : ℕ) → Keeps held (ialloc_loop kind k inum)
unfolding ialloc_loop
ialloc_loop_kept kind zero inum = search keeps
ialloc_loop_kept kind (suc k) inum =
    let rest = ialloc_loop_kept kind k (inum + 1) in
    keeps_bind keeps_state λ m. keeps_bind (read_kept _) λ _.
      keeps_bind (keeps_buf_data off_bufs _) λ d.
        keeps_if _
          (keeps_bind (keeps_set_data off_bufs _ _)
            λ _. keeps_bind (write_kept _) λ _. keeps_bind (relse_kept _) (λ _. iget_kept inum))
          (keeps_bind (relse_kept _) (λ _. rest))

pub ialloc_kept : (kind : ℕ) → Keeps held (ialloc kind)
unfolding ialloc
ialloc_kept kind = search (keeps, ialloc_loop_kept)

pub ilock_kept : (ip : ℕ) → Keeps held (ilock ip)
unfolding ilock
ilock_kept ip = search (keeps, parts, keeps_modify, off_bufs, read_kept, relse_kept) depth 30

pub iunlock_kept : (ip : ℕ) → Keeps held (iunlock ip)
unfolding iunlock
iunlock_kept ip = search (keeps, parts, keeps_modify)

pub iupdate_kept : (ip : ℕ) → Keeps held (iupdate ip)
unfolding iupdate
iupdate_kept ip =
    search (keeps, parts, keeps_modify, off_bufs, read_kept, write_kept, relse_kept) depth 20
