-- ===== src/Log/Header.antt =====
-- The log header of src/log.c: a count and the block numbers, in the first block of the log.
use myfuse.Common.{ℕ, zero, suc, ◌+◌, ◌*◌, ltb, add32, rounds, if◌then◌else◌, update}
use myfuse.Params.{nlog}
use myfuse.Machine.{Cmd, fault, ◌>>=◌, ◌>>◌, state, modify}
use myfuse.Machine.Block.{Block, get32, set32}
use myfuse.Machine.Buffer.{bread, buf_data, set_data, bwrite, brelse}

-- `lh->block[i]`: `n` comes first
abbrev pub entry_off : ℕ → ℕ
entry_off i = 4 * (i + 1)

-- the block of the log that holds the `tail`-th logged block
abbrev pub log_block : ℕ → ℕ → ℕ
log_block start tail = add32 (add32 start tail) 1

-- `for (…; i < n; i++) fslog.lh.block[i] = lh->block[i]`, for `k` more rounds
unfoldable pub read_entries : Block → ℕ → ℕ → (ℕ → ℕ) → ℕ → ℕ
read_entries d zero i block = block
read_entries d (suc k) i block = read_entries d k (i + 1) (update block i (get32 d (entry_off i)))

-- `for (…; i < n; i++) lh->block[i] = fslog.lh.block[i]`
unfoldable pub write_entries : (ℕ → ℕ) → ℕ → ℕ → Block → Block
write_entries block zero i d = d
write_entries block (suc k) i d = write_entries block k (i + 1) (set32 d (entry_off i) (block i))

-- A count above NLOG runs over the end of `fslog.lh.block`.
unfoldable pub read_log_header_from_disk : Cmd (Unit {0})
read_log_header_from_disk = do
  m ← state
  bread m.log.start
  d ← buf_data m.log.start
  let n = get32 d 0
  if ltb nlog (rounds n)
      then (λ _. fault)
      else modify (λ s. record s {
        log = record s.log { n = n; block = read_entries d (rounds n) 0 s.log.block };
      })
  brelse m.log.start

unfoldable pub write_log_header_to_disk : Cmd (Unit {0})
write_log_header_to_disk = do
  m ← state
  bread m.log.start
  d ← buf_data m.log.start
  set_data m.log.start (write_entries m.log.block (rounds m.log.n) 0 (set32 d 0 m.log.n))
  bwrite m.log.start
  brelse m.log.start
