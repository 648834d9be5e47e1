-- ===== src/Log/Commit.antt =====
-- Commit and recovery of src/log.c.
use myfuse.Common.{ℕ, zero, suc, ◌+◌, Bool, true, false, lt_int, rounds, if◌then◌else◌}
use myfuse.Machine.{SuperBlock, Cmd, pure, ◌>>=◌, ◌>>◌, state, modify}
use myfuse.Machine.Buffer.{bread, buf_data, set_data, bwrite, brelse, bunpin}
use myfuse.Log.Header.{log_block, read_log_header_from_disk, write_log_header_to_disk}

-- One round of `install_transaction`: the log block is copied to its place.
unfoldable pub install_block : Bool → ℕ → Cmd (Unit {0})
install_block recovering tail = do
  m ← state
  let log_buf = log_block m.log.start tail
  let dst_buf = m.log.block tail
  bread log_buf
  bread dst_buf
  d ← buf_data log_buf
  set_data dst_buf d
  bwrite dst_buf
  if recovering then pure tt else bunpin dst_buf
  brelse log_buf
  brelse dst_buf

unfoldable pub install_loop : Bool → ℕ → ℕ → Cmd (Unit {0})
install_loop recovering zero tail = pure tt
install_loop recovering (suc k) tail =
    install_block recovering tail >> install_loop recovering k (tail + 1)

unfoldable pub install_transaction : Bool → Cmd (Unit {0})
install_transaction recovering = do m ← state; install_loop recovering (rounds m.log.n) 0

-- One round of `write_from_cache_to_log`.
unfoldable pub log_one_block : ℕ → Cmd (Unit {0})
log_one_block tail = do
  m ← state
  let to = log_block m.log.start tail
  let from = m.log.block tail
  bread to
  bread from
  d ← buf_data from
  set_data to d
  bwrite to
  brelse to
  brelse from

unfoldable pub log_loop : ℕ → ℕ → Cmd (Unit {0})
log_loop zero tail = pure tt
log_loop (suc k) tail = log_one_block tail >> log_loop k (tail + 1)

unfoldable pub write_from_cache_to_log : Cmd (Unit {0})
write_from_cache_to_log = do m ← state; log_loop (rounds m.log.n) 0

abbrev pub set_log_n : ℕ → Cmd (Unit {0})
set_log_n n = modify (λ m. record m { log = record m.log { n = n } })

unfoldable pub commit : Cmd (Unit {0})
commit = do
  m ← state
  if lt_int 0 m.log.n
      then (do
        write_from_cache_to_log
        write_log_header_to_disk
        install_transaction false
        set_log_n 0
        write_log_header_to_disk)
      else pure tt

unfoldable pub recover_from_log : Cmd (Unit {0})
recover_from_log = do
  read_log_header_from_disk
  install_transaction true
  set_log_n 0
  write_log_header_to_disk

-- The test of `sizeof(struct fslogheader)` is between constants: 4 * (NLOG + 1) ≤ BSIZE.
unfoldable pub log_init : SuperBlock → Cmd (Unit {0})
log_init sb = do
  modify (λ m. record m { log = record m.log { start = sb.logstart; size = sb.nlog } })
  recover_from_log
