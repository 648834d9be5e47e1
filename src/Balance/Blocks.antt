-- ===== src/Balance/Blocks.antt =====
-- The block map, truncation and content of inodes (src/inode.c) leave the count of operations under
-- way alone.
use myfuse.Common.{ℕ, zero, suc, ◌+◌, ◌==◌, update}
use myfuse.Params.{ndirect, nindirect1}
use myfuse.Machine.{Cmd, ◌>>◌}
use myfuse.Machine.Block.{Block}
use myfuse.Machine.Keeps.{
  Keeps, keeps, keeps_bind, keeps_pure, keeps_modify, keeps_state, keeps_exit, keeps_if,
}
use myfuse.Log.Op.{begin_op, end_op}
use myfuse.Inode.Table.{ilock, iunlock, iupdate}
use myfuse.Inode.Map.{
  place, assert_entry, assert_no_need_to_restart_op_in_imap2blockno, addr_or_alloc, entry_or_alloc,
  imap2blockno, free_entry, through_entry, imap2blockno_free, get_entry,
}
use myfuse.Inode.Trunc.{for_each, free_tree, itrunc, itrunc2size, iput, iunlockput}
use myfuse.Inode.Content.{
  restart_op_on, write_block, write_loop, inode_write_nbytes_locked, read_block, read_round,
  read_loop, inode_read_nbytes_locked,
}
use myfuse.Balance.Log.{held, off_bufs, read_kept, write_kept, relse_kept}
use myfuse.Balance.Rules.{parts, place_kept, inode_of_kept, edit_kept}
use myfuse.Balance.Alloc.{alloc_kept, free_kept}
use myfuse.Balance.Inode.{helper_kept, again_kept, ilock_kept, iunlock_kept, iupdate_kept}

assert_kept : Keeps held assert_no_need_to_restart_op_in_imap2blockno
unfolding assert_no_need_to_restart_op_in_imap2blockno
assert_kept = search keeps

addr_kept : (ip i : ℕ) → Keeps held (addr_or_alloc ip i)
unfolding addr_or_alloc
addr_kept ip i = search (keeps, parts, keeps_modify, alloc_kept) depth 20

entry_kept : (bp i : ℕ) → Keeps held (entry_or_alloc bp i)
unfolding entry_or_alloc
entry_kept bp i = search (keeps, off_bufs, alloc_kept, read_kept, write_kept, relse_kept) depth 20

free_entry_kept : (bp i : ℕ) → Keeps held (free_entry bp i)
unfolding free_entry
free_entry_kept bp i =
    search (keeps, off_bufs, helper_kept, free_kept, read_kept, write_kept, relse_kept) depth 20

through_kept :
    (bp i : ℕ) (rest : ℕ → Cmd (Unit {0}))
    → ((a : ℕ) → Keeps held (rest a))
    → Keeps held (through_entry bp i rest)
unfolding through_entry
through_kept bp i rest h = search (keeps, off_bufs, read_kept, relse_kept, h) depth 20

imap_kept : (ip bn : ℕ) → Keeps held (imap2blockno ip bn)
unfolding imap2blockno
imap_kept ip bn = keeps_bind assert_kept λ _.
    place_kept (place bn) (addr_kept ip) (λ i. search (keeps, addr_kept, entry_kept))
      (λ i j. search (keeps, addr_kept, entry_kept) depth 20)
      (λ i j k. search (keeps, addr_kept, entry_kept) depth 20) (search keeps)

entry_in : (entry : ℕ) → Keeps held (assert_entry entry)
entry_in entry = keeps_if _ (keeps_pure tt) keeps_exit

imap_free_kept : (ip bn : ℕ) → Keeps held (imap2blockno_free ip bn)
unfolding imap2blockno_free
imap_free_kept ip bn = keeps_bind assert_kept λ _. keeps_bind (inode_of_kept ip) λ n.
    place_kept (place bn)
      (λ i. keeps_if (n.addrs i == 0) (keeps_pure tt) (
        keeps_bind helper_kept λ _.
          keeps_bind (free_kept (n.addrs i))
            λ _. edit_kept ip (λ n. record n { addrs = update n.addrs i 0 })))
      (λ i. keeps_if (n.addrs ndirect == 0) (keeps_pure tt) (free_entry_kept (n.addrs ndirect) i))
      (λ i j.
        keeps_bind (addr_kept ip (ndirect + 1))
          λ a. keeps_bind (entry_in i) λ _. through_kept a i _ (λ b. free_entry_kept b j))
      (λ i j k. keeps_if (n.addrs (ndirect + 2) == 0) (keeps_pure tt) (
        keeps_bind (entry_in i) λ _.
          through_kept (n.addrs (ndirect + 2)) i _
            λ a. keeps_bind (entry_in j) λ _. through_kept a j _ (λ b. free_entry_kept b k)))
      keeps_exit

for_each_kept :
    (body : ℕ → Cmd (Unit {0}))
    → ((i : ℕ) → Keeps held (body i))
    → (k i : ℕ) → Keeps held (for_each body k i)
unfolding for_each
for_each_kept body h zero i = keeps_pure tt
for_each_kept body h (suc k) i = keeps_bind (h i) (λ _. for_each_kept body h k (i + 1))

free_tree_kept : (depth : ℕ) (slot : Cmd ℕ) → Keeps held slot → Keeps held (free_tree depth slot)
unfolding free_tree
free_tree_kept zero slot h = keeps_bind h λ a. search (keeps, free_kept)
free_tree_kept (suc depth) slot h =
    let below =
      λ (a i : ℕ). free_tree_kept depth (get_entry a i) (search (keeps, off_bufs) depth 10) in
    keeps_bind h λ a. keeps_if _ (keeps_pure tt) (
      keeps_bind (read_kept a) λ _.
        keeps_bind (for_each_kept _ (below a) nindirect1 0)
          λ _. keeps_bind (relse_kept a) λ _. keeps_bind h free_kept)

itrunc_kept : (ip : ℕ) → Keeps held (itrunc ip)
unfolding itrunc
itrunc_kept ip =
    search (keeps, parts, keeps_modify, for_each_kept, free_tree_kept, iupdate_kept) depth 20

pub itrunc2size_kept : (ip size : ℕ) → Keeps held (itrunc2size ip size)
unfolding itrunc2size
itrunc2size_kept ip size =
    search
      (
        keeps, parts, keeps_modify, for_each_kept, helper_kept, imap_kept, imap_free_kept,
        itrunc_kept, iupdate_kept,
      )
      depth 20

pub iput_kept : (ip : ℕ) → Keeps held (iput ip)
unfolding iput
iput_kept ip = search (keeps, parts, keeps_modify, itrunc_kept, iupdate_kept) depth 20

pub iunlockput_kept : (ip : ℕ) → Keeps held (iunlockput ip)
unfolding iunlockput
iunlockput_kept ip = search (keeps, iunlock_kept, iput_kept)

restart_on_kept : (ip n : ℕ) → Keeps held (restart_op_on ip n)
unfolding restart_op_on
restart_on_kept ip n =
    let again : Keeps held (do iupdate ip; iunlock ip; end_op; begin_op; ilock ip) =
      keeps_bind (iupdate_kept ip)
        λ _. keeps_bind (iunlock_kept ip) λ _. again_kept (ilock_kept ip) in
    keeps_bind keeps_state λ m. keeps_if _ again (keeps_pure tt)

write_block_kept :
    (ip bn : ℕ) (bytes : Block) (from to n : ℕ) → Keeps held (write_block ip bn bytes from to n)
unfolding write_block
write_block_kept ip bn bytes from to n =
    search (keeps, off_bufs, imap_kept, read_kept, write_kept, relse_kept) depth 20

write_loop_kept :
    (fuel ip : ℕ) (bytes : Block) (from bn nbytes : ℕ)
    → Keeps held (write_loop fuel ip bytes from bn nbytes)
unfolding write_loop
write_loop_kept zero ip bytes from bn nbytes = keeps_pure _
write_loop_kept (suc fuel) ip bytes from bn nbytes =
    search (keeps, restart_on_kept, write_block_kept, write_loop_kept fuel) depth 20

pub write_nbytes_kept :
    (ip : ℕ) (bytes : Block) (n off : ℕ) → Keeps held (inode_write_nbytes_locked ip bytes n off)
unfolding inode_write_nbytes_locked
write_nbytes_kept ip bytes n off =
    search
      (keeps, parts, keeps_modify, iupdate_kept, restart_on_kept, write_block_kept, write_loop_kept)
      depth 30

read_block_kept :
    (ip bn : ℕ) (bytes : Block) (to from n : ℕ) → Keeps held (read_block ip bn bytes to from n)
unfolding read_block
read_block_kept ip bn bytes to from n =
    search (keeps, off_bufs, imap_kept, read_kept, relse_kept) depth 20

read_loop_kept :
    (fuel ip : ℕ) (bytes : Block) (to bn nbytes : ℕ)
    → Keeps held (read_loop fuel ip bytes to bn nbytes)
unfolding read_loop read_round
read_loop_kept zero ip bytes to bn nbytes = keeps_pure _
read_loop_kept (suc fuel) ip bytes to bn nbytes =
    search (keeps, restart_on_kept, read_block_kept, read_loop_kept fuel) depth 20

pub read_nbytes_kept :
    (ip : ℕ) (bytes : Block) (n off : ℕ) → Keeps held (inode_read_nbytes_locked ip bytes n off)
unfolding inode_read_nbytes_locked
read_nbytes_kept ip bytes n off =
    search
      (keeps, parts, keeps_modify, iupdate_kept, restart_on_kept, read_block_kept, read_loop_kept)
      depth 30
