-- ===== src/Mount/Started.antt =====
-- The state in which the first request finds the file system (src/main.c).
use myfuse.Common.{
  ℕ, zero, suc, ◌+◌, ◌/◌, ◌^◌, ◌<◌, ◌≡◌, ◌∙◌, refl, sym, ap, true, ◌==◌, add32, sub32, inl, inr,
  Bool-cases, arith,
}
use myfuse.Machine.{Machine, SuperBlock, Cmd, ok, ◌>>◌, modify}
use myfuse.Machine.Keeps.{Keeps, keeps, keeps_bind, keeps_pure, keeps_modify, and_then-ok, ok-state}
use myfuse.Log.Op.{begin_op, end_op, logged_read, logged_relse}
use myfuse.Params.{bpb}
use myfuse.Log.Header.{read_log_header_from_disk}
use myfuse.Log.Commit.{install_transaction, recover_from_log, log_init}
use myfuse.Alloc.{roundup, refresh_group, refresh_loop, block_allocator_refresh}
use myfuse.Alloc.Refresh.{block_allocator_refresh-current}
use myfuse.Inode.Table.{inode_init}
use myfuse.File.Table.{file_init}
use myfuse.Mount.{fsmagic, superblock_id, superblock_of, myfuse_init}
use myfuse.Balance.Log.{ops, above, header, install_all, begin_op-ops, end_op-ops}

read_header_kept : Keeps ops read_log_header_from_disk
unfolding read_log_header_from_disk
read_header_kept = search (keeps, keeps_modify, above) depth 20

log_init_kept : (sb : SuperBlock) → Keeps ops (log_init sb)
unfolding log_init recover_from_log install_transaction
log_init_kept sb = search (keeps, keeps_modify, header, read_header_kept, install_all) depth 20

group_kept : (sb : SuperBlock) (i : ℕ) → Keeps ops (refresh_group sb i)
unfolding refresh_group logged_read logged_relse
group_kept sb i = search (keeps, keeps_modify, above) depth 24

loop_kept : (sb : SuperBlock) (k i : ℕ) → Keeps ops (refresh_loop sb k i)
unfolding refresh_loop
loop_kept sb zero i = keeps_pure tt
loop_kept sb (suc k) i = keeps_bind (group_kept sb i) λ _. loop_kept sb k (i + 1)

-- an operation begun and ended
keeps_between : {c : Cmd (Unit {0})} → Keeps ops c → Keeps ops (do begin_op; c; end_op)
keeps_between {c} h = record {
  kept = λ {m} e.
      let (b, m1, e1, e2) = and_then-ok (begin_op m) (λ _. c >> end_op) e in
      let (b', m2, e3, e4) = and_then-ok (c m1) (λ _. end_op) e2 in
      (end_op-ops m2 e4).0
      ∙ ap (λ x. sub32 x 1) (h.kept e3 ∙ (begin_op-ops m e1).0)
      ∙ up_down (ops m) (omega arith);
}
  where
    up_down : (n : ℕ) → n < 2 ^ 32 → sub32 (add32 n 1) 1 ≡ n
    up_down n h = omega arith

refresh_kept : (sb : SuperBlock) → Keeps ops (block_allocator_refresh sb)
unfolding block_allocator_refresh
refresh_kept sb =
    let n = roundup sb.size bpb / bpb in
    keeps_bind (keeps_modify (λ m. record m { bmap = record m.bmap { n_cache = n } }) (λ m. refl))
      (λ _. keeps_between (loop_kept sb n 0))

inode_init_kept : (sb : SuperBlock) → Keeps ops (inode_init sb)
unfolding inode_init
inode_init_kept sb = search (keeps, keeps_modify, refresh_kept)

init_kept : Keeps ops myfuse_init
unfolding myfuse_init file_init
init_kept = search (keeps, keeps_modify, log_init_kept, inode_init_kept) depth 20

inode_init-current :
    (sb : SuperBlock) (m : Machine) {m' : Machine} {a : Unit {0}}
    → inode_init sb m ≡ ok a m'
    → m'.bmap.first_free_cache ≡ 0
unfolding inode_init
inode_init-current sb m e = block_allocator_refresh-current sb _ e

-- When `myfuse_init` returns, the magic number was right, as many operations are under way as at its
-- call (none, in a new process), `MYFUSE_STATE` has the super block of block 1, and
-- `first_free_cache`, which the bitmap is not asked for, is 0.
pub myfuse_init-started :
    (m : Machine) {m' : Machine} {a : Unit {0}}
    → myfuse_init m ≡ ok a m'
    → ((superblock_of (m.disk superblock_id)).magic ≡ fsmagic)
      × (ops m' ≡ ops m)
      × (m'.sb ≡ superblock_of (m.disk superblock_id))
      × (m'.bmap.first_free_cache ≡ 0)
unfolding myfuse_init file_init
myfuse_init-started m {m'} e =
    let sb = superblock_of (m.disk superblock_id) in
    elim (Bool-cases (sb.magic == fsmagic)) [
      | inr wrong ↦ let e' = rw wrong at e in cc e'
      | inl right ↦
          let e' = rw right at e in
          let last : Cmd (Unit {0}) = modify (λ m. record m { sb = sb }) in
          let (a1, m1, e1, e2) =
            and_then-ok (log_init sb _) (λ _. do inode_init sb; file_init; last) e' in
          let (a2, m2, e3, e4) = and_then-ok (inode_init sb m1) (λ _. do file_init; last) e2 in
          (
            ==_true sb.magic fsmagic right,
            init_kept.kept {m = m} e,
            sym (ap (λ s. s.sb) (ok-state e4)),
            sym (ap (λ s. s.bmap.first_free_cache) (ok-state e4)) ∙ inode_init-current sb m1 e3,
          )
    ]
  where
    ==_true : (a b : ℕ) → (a == b) ≡ true → a ≡ b
    ==_true a b h = ground arith
