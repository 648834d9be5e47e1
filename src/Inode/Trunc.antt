-- ===== src/Inode/Trunc.antt =====
-- Truncation, and the release of an inode: `itrunc`, `itrunc2size`, `iput` of src/inode.c.
use myfuse.Common.{
  ℕ, zero, suc, ◌+◌, ◌-◌, ◌/◌, ◌%◌, ◌^◌, ◌&&◌, true, false, ◌==◌, leb, sub32, if◌then◌else◌,
}
use myfuse.Params.{bsize, ndirect, nindirect1, t_unuse}
use myfuse.Machine.{Cmd, pure, ◌>>=◌, ◌>>◌, wait}
use myfuse.Log.Op.{logged_read, logged_relse}
use myfuse.Alloc.{block_free}
use myfuse.Inode.Table.{edit, inode_of, iupdate, iunlock}
use myfuse.Inode.Map.{get_entry, itrunc2size_log_op_restart_helper, imap2blockno, imap2blockno_free}

-- `for (int i = from; i < from + k; i++) body(i)`
unfoldable pub for_each : (ℕ → Cmd (Unit {0})) → ℕ → ℕ → Cmd (Unit {0})
for_each body zero i = pure tt
for_each body (suc k) i = body i >> for_each body k (i + 1)

-- The block that `slot` names, with the blocks below it through `depth` levels, unless it is 0.
-- `slot` is read again for the last `block_free`, as the source does.
unfoldable pub free_tree : ℕ → Cmd ℕ → Cmd (Unit {0})
free_tree zero slot = slot >>= λ a. if a == 0 then pure tt else block_free a
free_tree (suc depth) slot = do
  a ← slot
  let below = for_each (λ i. free_tree depth (get_entry a i)) nindirect1 0
  if a == 0 then pure tt else (do logged_read a; below; logged_relse a; slot >>= block_free)

abbrev pub addr_of : ℕ → ℕ → Cmd ℕ
addr_of ip i = do n ← inode_of ip; pure (n.addrs i)

unfoldable pub itrunc : ℕ → Cmd (Unit {0})
itrunc ip = do
  for_each (λ i. free_tree 0 (addr_of ip i)) ndirect 0
  free_tree 1 (addr_of ip ndirect)
  free_tree 2 (addr_of ip (ndirect + 1))
  free_tree 3 (addr_of ip (ndirect + 2))
  edit ip (λ n. record n { addrs = λ i. 0 })
  edit ip (λ n. record n { size = 0 })
  iupdate ip

-- `ROUNDUP(size, BSIZE) / BSIZE`, at 64 bits
abbrev pub blocks_of : ℕ → ℕ
blocks_of size = (size + (bsize - 1)) % 2 ^ 64 / bsize

unfoldable pub itrunc2size : ℕ → ℕ → Cmd (Unit {0})
itrunc2size ip size = do
  n ← inode_of ip
  if size == n.size then pure tt else (do
    if size == 0 then itrunc ip else pure tt
    n ← inode_of ip
    let target_blockno = blocks_of size
    let origin_blockno = blocks_of n.size
    if leb origin_blockno target_blockno
        then for_each
            (λ i.
              itrunc2size_log_op_restart_helper >> (imap2blockno ip (i % 2 ^ 32) >>= λ _. pure tt))
            (target_blockno - origin_blockno % 2 ^ 32) (origin_blockno % 2 ^ 32)
        else for_each (λ i. itrunc2size_log_op_restart_helper >> imap2blockno_free ip (i % 2 ^ 32))
            (origin_blockno - target_blockno % 2 ^ 32) (target_blockno % 2 ^ 32))
  edit ip (λ n. record n { size = size })
  iupdate ip

unfoldable pub iput : ℕ → Cmd (Unit {0})
iput ip = do
  n ← inode_of ip
  if (n.ref == 1) && n.valid && (n.nlink == 0)
      then (do
        if n.locked then wait else edit ip (λ n. record n { locked = true })
        itrunc ip
        edit ip (λ n. record n { kind = t_unuse })
        iupdate ip
        edit ip (λ n. record n { valid = false })
        edit ip (λ n. record n { locked = false }))
      else pure tt
  edit ip (λ n. record n { ref = sub32 n.ref 1 })

unfoldable pub iunlockput : ℕ → Cmd (Unit {0})
iunlockput ip = do iunlock ip; iput ip
