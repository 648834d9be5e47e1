-- ===== src/Log/Op.antt =====
-- Operations and logged writes of src/log.c. The threads of the program are taken one at a time: a
-- wait on `fslog.wakeup` that no other thread ends is `wait` (Log.Reserve has the interleavings).
use myfuse.Common.{
  ℕ, zero, suc, ◌+◌, Bool, true, false, not, ◌||◌, ◌==◌, lt_int, add32, sub32, mul32, if◌then◌else◌,
  update,
}
use myfuse.Params.{maxopblocks, nlog}
use myfuse.Machine.{Machine, Cmd, wait, pure, ◌>>=◌, ◌>>◌, state, modify, err_exit}
use myfuse.Machine.Buffer.{bread, brelse, bpin}
use myfuse.Log.Commit.{commit}

abbrev pub set_outstanding : ℕ → Cmd (Unit {0})
set_outstanding k = modify (λ m. record m { log = record m.log { outstanding = k } })

abbrev pub set_committing : Bool → Cmd (Unit {0})
set_committing c = modify (λ m. record m { log = record m.log { committing = c } })

-- what the log would hold if each operation under way wrote MAXOPBLOCKS more
abbrev pub reserved : Machine → ℕ
reserved m = add32 m.log.n (mul32 (add32 m.log.outstanding 1) maxopblocks)

unfoldable pub begin_op : Cmd (Unit {0})
begin_op = do
  m ← state
  if m.log.committing || lt_int nlog (reserved m)
      then wait
      else set_outstanding (add32 m.log.outstanding 1)
  modify (λ s. record s { n_log_wrote = 0 })

unfoldable pub end_op : Cmd (Unit {0})
end_op = do
  m ← state
  let left = sub32 m.log.outstanding 1
  set_outstanding left
  if m.log.committing then err_exit else pure tt
  if left == 0 then (do set_committing true; commit; set_committing false) else pure tt

-- the index of `b` among the first `k` entries from `i` on, or the index after them
unfoldable pub find_block : (ℕ → ℕ) → ℕ → ℕ → ℕ → ℕ
find_block block b zero i = i
find_block block b (suc k) i =
    let rest = find_block block b k (i + 1) in if block i == b then i else rest

unfoldable pub logged_write : ℕ → Cmd (Unit {0})
unfolding find_block
logged_write b = do
  m ← state
  if not (lt_int m.log.n nlog) || not (lt_int m.log.n (sub32 m.log.size 1))
      then err_exit
      else pure tt
  if lt_int m.log.outstanding 1 then err_exit else pure tt
  let idx = find_block m.log.block b m.log.n 0
  modify (λ s. record s {
    n_log_wrote = add32 s.n_log_wrote 1;
    log = record s.log { block = update s.log.block idx b };
  })
  if idx == m.log.n
      then (do bpin b; modify (λ s. record s { log = record s.log { n = add32 s.log.n 1 } }))
      else pure tt

unfoldable pub logged_read : ℕ → Cmd (Unit {0})
logged_read b = bread b

unfoldable pub logged_relse : ℕ → Cmd (Unit {0})
logged_relse b = brelse b
