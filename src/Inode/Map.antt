-- ===== src/Inode/Map.antt =====
-- The block map of an inode, src/inode.c: `imap2blockno` and `imap2blockno_free`.
use myfuse.Common.{ℕ, ◌+◌, ◌-◌, ◌*◌, ◌/◌, ◌%◌, ◌==◌, ltb, leb, if◌then◌else◌, update}
use myfuse.Params.{bsize, maxopblocks, ndirect, nindirect1, nindirect2, nindirect3}
use myfuse.Machine.{Cmd, pure, ◌>>=◌, ◌>>◌, state, err_exit}
use myfuse.Machine.Block.{get32, set32}
use myfuse.Machine.Buffer.{buf_data, set_data}
use myfuse.Log.Op.{begin_op, end_op, logged_read, logged_write, logged_relse}
use myfuse.Alloc.{block_alloc, block_free}
use myfuse.Inode.Table.{edit, inode_of}

unfoldable pub assert_no_need_to_restart_op_in_imap2blockno : Cmd (Unit {0})
assert_no_need_to_restart_op_in_imap2blockno = do
  m ← state
  if leb (maxopblocks - 1 - 3) m.n_log_wrote then err_exit else pure tt

-- `ip->addrs[i] = addr`
abbrev pub set_addr : ℕ → ℕ → ℕ → Cmd (Unit {0})
set_addr ip i addr = edit ip (λ n. record n { addrs = update n.addrs i addr })

-- `a[i]`, with `a` the data of the buffer of block `bp`
abbrev pub get_entry : ℕ → ℕ → Cmd ℕ
get_entry bp i = do d ← buf_data bp; pure (get32 d (4 * i))

abbrev pub set_entry : ℕ → ℕ → ℕ → Cmd (Unit {0})
set_entry bp i addr = do d ← buf_data bp; set_data bp (set32 d (4 * i) addr)

-- `if ((addr = ip->addrs[i]) == 0) ip->addrs[i] = addr = block_alloc();`
unfoldable pub addr_or_alloc : ℕ → ℕ → Cmd ℕ
addr_or_alloc ip i = do
  n ← inode_of ip
  if n.addrs i == 0
      then (do addr ← block_alloc; set_addr ip i addr; pure addr)
      else pure (n.addrs i)

-- One level of an indirect block: entry `i` of block `bp`, allocated if it is 0.
unfoldable pub entry_or_alloc : ℕ → ℕ → Cmd ℕ
entry_or_alloc bp i = do
  logged_read bp
  a ← get_entry bp i
  addr ←
      (if a == 0
        then (do addr ← block_alloc; set_entry bp i addr; logged_write bp; pure addr)
        else pure a)
  logged_relse bp
  pure addr

-- The path of block `bn`: which of `ip->addrs`, and the entries at each level of indirection. The
-- tests of the asserts (`entry * sizeof(uint) < BSIZE`) are those of `assert_entry`.
pub data Place : Type 0 where
  direct : ℕ → Place
  indirect1 : ℕ → Place
  indirect2 : ℕ → ℕ → Place
  indirect3 : ℕ → ℕ → ℕ → Place
  too_big : Place

unfoldable pub place : ℕ → Place
place bn =
    if ltb bn ndirect
    then direct bn
    else let bn1 = bn - ndirect in
      if ltb bn1 nindirect1
      then indirect1 bn1
      else let bn2 = bn1 - nindirect1 in
        if ltb bn2 nindirect2
        then indirect2 (bn2 / nindirect1) (bn2 % nindirect1)
        else let bn3 = bn2 - nindirect2 in
          if ltb bn3 nindirect3
          then indirect3 (bn3 / nindirect2) (bn3 % nindirect2 / nindirect1)
              (bn3 % nindirect2 % nindirect1)
          else too_big

-- `assert(entry * sizeof(uint) < BSIZE)`
abbrev pub assert_entry : ℕ → Cmd (Unit {0})
assert_entry entry = if ltb (entry * 4) bsize then pure tt else err_exit

unfoldable pub imap2blockno : ℕ → ℕ → Cmd ℕ
unfolding place
imap2blockno ip bn = do
  assert_no_need_to_restart_op_in_imap2blockno
  elim (place bn) [
    | direct i ↦ addr_or_alloc ip i
    | indirect1 i ↦ addr_or_alloc ip ndirect >>= λ addr. entry_or_alloc addr i
    | indirect2 entry offset ↦ (do
      addr ← addr_or_alloc ip (ndirect + 1)
      assert_entry entry
      addr ← entry_or_alloc addr entry
      entry_or_alloc addr offset)
    | indirect3 entryl1 entryl2 offsetl2 ↦ (do
      addr ← addr_or_alloc ip (ndirect + 2)
      assert_entry entryl1
      addr ← entry_or_alloc addr entryl1
      assert_entry entryl2
      addr ← entry_or_alloc addr entryl2
      entry_or_alloc addr offsetl2)
    | too_big ↦ err_exit
  ]

unfoldable pub itrunc2size_log_op_restart_helper : Cmd (Unit {0})
itrunc2size_log_op_restart_helper = do
  m ← state
  if leb (maxopblocks - 1 - 3) m.n_log_wrote then (do end_op; begin_op) else pure tt

-- `block_free_safe(a[i])` and `logged_write(bp)`, if `a[i]` is not 0
unfoldable pub free_entry : ℕ → ℕ → Cmd (Unit {0})
free_entry bp i = do
  logged_read bp
  a ← get_entry bp i
  if a == 0
      then pure tt
      else (do itrunc2size_log_op_restart_helper; block_free a; set_entry bp i 0; logged_write bp)
  logged_relse bp

-- `bp = logged_read(addr); addr = a[entry]; logged_relse(bp);`, and the rest unless it is 0
unfoldable pub through_entry : ℕ → ℕ → (ℕ → Cmd (Unit {0})) → Cmd (Unit {0})
through_entry bp i rest = do
  logged_read bp
  a ← get_entry bp i
  logged_relse bp
  if a == 0 then pure tt else rest a

-- The doubly indirect case allocates the first block when there is none, as `imap2blockno` does.
unfoldable pub imap2blockno_free : ℕ → ℕ → Cmd (Unit {0})
unfolding place
imap2blockno_free ip bn = do
  assert_no_need_to_restart_op_in_imap2blockno
  n ← inode_of ip
  elim (place bn) [
    | direct i ↦
        if n.addrs i == 0
        then pure tt
        else (do itrunc2size_log_op_restart_helper; block_free (n.addrs i); set_addr ip i 0)
    | indirect1 i ↦ if n.addrs ndirect == 0 then pure tt else free_entry (n.addrs ndirect) i
    | indirect2 entry offset ↦ (do
      addr ← addr_or_alloc ip (ndirect + 1)
      assert_entry entry
      through_entry addr entry (λ addr. free_entry addr offset))
    | indirect3 entryl1 entryl2 offsetl2 ↦ if n.addrs (ndirect + 2) == 0 then pure tt else (do
      assert_entry entryl1
      through_entry (n.addrs (ndirect + 2)) entryl1 (λ addr. do
        assert_entry entryl2
        through_entry addr entryl2 (λ addr. free_entry addr offsetl2)))
    | too_big ↦ err_exit
  ]
