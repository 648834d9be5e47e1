-- ===== src/Inode/Table.antt =====
-- The inode table and single inodes, src/inode.c. An inode is named by its slot in `itable.inode`.
-- `itable.lock` is taken and given back within each function, and is left out; `ip->lock` is not.
use myfuse.Common.{
  ℕ, zero, suc, ◌+◌, ◌-◌, ◌*◌, ◌/◌, ◌%◌, ◌^◌, true, false, ◌&&◌, not, ◌==◌, ltb, lt_int, leb, add32,
  rounds, if◌then◌else◌, update,
}
use myfuse.Params.{ipb, t_unuse, t_dir, t_file, t_device}
use myfuse.Machine.{SuperBlock, Inode, Cmd, pure, wait, ◌>>=◌, ◌>>◌, state, modify, err_exit}
use myfuse.Machine.Buffer.{buf_data, set_data}
use myfuse.Log.Op.{logged_read, logged_write, logged_relse}
use myfuse.Alloc.{block_allocator_refresh}
use myfuse.Inode.Layout.{dinode_off, get_le, set_le, load, store}

-- `ip->… = …`
abbrev pub edit : ℕ → (Inode → Inode) → Cmd (Unit {0})
edit ip f = modify (λ m. record m { inodes = update m.inodes ip (f (m.inodes ip)) })

abbrev pub inode_of : ℕ → Cmd Inode
inode_of ip m = pure (m.inodes ip) m

-- `IBLOCK`
abbrev pub iblock : SuperBlock → ℕ → ℕ
iblock sb inum = (inum / ipb + sb.inodestart) % 2 ^ 32

-- `calloc(1, sizeof(struct inode))`
abbrev pub no_inode : Inode
no_inode = record {
  inum = 0;
  ref = 0;
  locked = false;
  valid = false;
  kind = 0;
  major = 0;
  minor = 0;
  nlink = 0;
  size = 0;
  atime = record { sec = 0; nsec = 0 };
  mtime = record { sec = 0; nsec = 0 };
  ctime = record { sec = 0; nsec = 0 };
  perm = 0;
  addrs = λ i. 0;
}

unfoldable pub inode_init : SuperBlock → Cmd (Unit {0})
inode_init sb = do
  modify (λ m. record m {
    ninode = 30;
    inodes = λ i. no_inode;
    bmap = record {
      cache_buf = λ i. 0;
      first_unalloced = λ i. 0;
      n_alloced = λ i. 0;
      n_cache = 0;
      first_free_cache = 0;
    };
  })
  block_allocator_refresh sb

unfoldable pub itable_grow : Cmd (Unit {0})
itable_grow = modify (λ m. record m {
  inodes = λ i. if leb m.ninode i && ltb i (m.ninode * 2) then no_inode else m.inodes i;
  ninode = m.ninode * 2;
})

-- Where the loop of `iget` comes to: the inode itself, or the first free slot, or neither.
pub data Slot : Type 0 where
  same : ℕ → Slot
  empty : ℕ → Slot
  neither : Slot

unfoldable pub scan_itable : (ℕ → Inode) → ℕ → ℕ → ℕ → Slot → Slot
scan_itable inodes inum zero i victim = victim
scan_itable inodes inum (suc k) i victim =
    let rest =
      scan_itable inodes inum k (i + 1)
        (elim victim [ neither ↦ if (inodes i).ref == 0 then empty i else neither | v ↦ v ]) in
    if (inodes i).inum == inum && lt_int 0 (inodes i).ref then same i else rest

-- With fuel for its calls of itself: after `itable_grow` there is a free slot, so 2 is enough.
unfoldable pub iget_on : ℕ → ℕ → Cmd ℕ
iget_on zero inum = wait
iget_on (suc fuel) inum = do
  m ← state
  let again = itable_grow >> iget_on fuel inum
  elim (scan_itable m.inodes inum (rounds (m.ninode % 2 ^ 32)) 0 neither) [
    | same i ↦ (do edit i (λ ip. record ip { ref = add32 ip.ref 1 }); pure i)
    | empty i ↦ (do edit i (λ ip. record ip { inum = inum; ref = 1; valid = false }); pure i)
    | neither ↦ again
  ]

unfoldable pub iget : ℕ → Cmd ℕ
unfolding iget_on
iget inum = iget_on 2 inum

-- The loop of `ialloc`, for `k` more numbers. `memset(dip, 0, sizeof(*dip))` comes first.
unfoldable pub ialloc_loop : ℕ → ℕ → ℕ → Cmd ℕ
ialloc_loop kind zero inum = err_exit
ialloc_loop kind (suc k) inum = do
  m ← state
  let bp = iblock m.sb inum
  let dip = dinode_off inum
  let rest = ialloc_loop kind k (inum + 1)
  logged_read bp
  d ← buf_data bp
  if get_le 2 d dip == t_unuse
      then (do
        set_data bp (set_le 2 (set_le 256 d dip 0) dip kind)
        logged_write bp
        logged_relse bp
        iget inum)
      else logged_relse bp >> rest

unfoldable pub ialloc : ℕ → Cmd ℕ
unfolding ialloc_loop
ialloc kind = do m ← state; ialloc_loop kind (m.sb.ninodes - 1) 1

unfoldable pub idup : ℕ → Cmd ℕ
idup ip = do edit ip (λ i. record i { ref = add32 i.ref 1 }); pure ip

-- `ip` is never null here.
unfoldable pub ilock : ℕ → Cmd (Unit {0})
ilock ip = do
  i ← inode_of ip
  if lt_int i.ref 1 then err_exit else pure tt
  if i.locked then wait else edit ip (λ i. record i { locked = true })
  if i.valid then pure tt else (do
    m ← state
    let bp = iblock m.sb i.inum
    logged_read bp
    d ← buf_data bp
    edit ip (load d (dinode_off i.inum))
    logged_relse bp
    edit ip (λ i. record i { valid = true })
    i ← inode_of ip
    if i.kind == t_unuse then err_exit else pure tt
    if not (i.kind == t_file) && not (i.kind == t_dir) && not (i.kind == t_device)
        then err_exit
        else pure tt)

unfoldable pub iunlock : ℕ → Cmd (Unit {0})
iunlock ip = edit ip (λ i. record i { locked = false })

unfoldable pub iupdate : ℕ → Cmd (Unit {0})
iupdate ip = do
  i ← inode_of ip
  m ← state
  let bp = iblock m.sb i.inum
  logged_read bp
  edit ip (λ i. record i { ctime = m.now })
  d ← buf_data bp
  set_data bp (store (record i { ctime = m.now }) (dinode_off i.inum) d)
  logged_write bp
  logged_relse bp
