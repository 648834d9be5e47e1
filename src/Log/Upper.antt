-- ===== src/Log/Upper.antt =====
-- The calls of src/log.c leave the state of the layers above the log alone.
use myfuse.Common.{ℕ, zero, suc, ◌+◌, ◌≡◌, Bool, true, false}
use myfuse.Machine.{Machine, FsLog}
use myfuse.Machine.Keeps.{Keeps, IsAbove, keeps, keeps_bind, keeps_pure, keeps_modify}
use myfuse.Log.Header.{write_log_header_to_disk}
use myfuse.Log.Commit.{
  commit, log_one_block, log_loop, write_from_cache_to_log, install_block, install_loop,
  install_transaction,
}
use myfuse.Log.Op.{begin_op, end_op, logged_read, logged_write, logged_relse}

-- The part does not look at the buffers, the disk and the log.
pub record IsUpper {X : Type 0} (part : Machine → X) : Type 0 where
  pub above : IsAbove part
  pub log : (m : Machine) (l : FsLog) → part (record m { log = l }) ≡ part m
  pub wrote : (m : Machine) (n : ℕ) → part (record m { n_log_wrote = n }) ≡ part m
  pub log_wrote :
      (m : Machine) (l : FsLog) (n : ℕ) → part (record m { log = l; n_log_wrote = n }) ≡ part m

module _ {X : Type 0} {part : Machine → X} (upper : IsUpper part) where
  above : IsAbove part
  above = upper.above

  header : Keeps part write_log_header_to_disk
  unfolding write_log_header_to_disk
  header = search (keeps, above) depth 12

  log_one : (t : ℕ) → Keeps part (log_one_block t)
  unfolding log_one_block
  log_one t = search (keeps, above) depth 20

  install_one : (r : Bool) (t : ℕ) → Keeps part (install_block r t)
  unfolding install_block
  install_one true t = search (keeps, above) depth 20
  install_one false t = search (keeps, above) depth 20

  log_all : (k t : ℕ) → Keeps part (log_loop k t)
  unfolding log_loop
  log_all zero t = keeps_pure tt
  log_all (suc k) t = keeps_bind (log_one t) (λ _. log_all k (t + 1))

  install_all : (r : Bool) (k t : ℕ) → Keeps part (install_loop r k t)
  unfolding install_loop
  install_all r zero t = keeps_pure tt
  install_all r (suc k) t = keeps_bind (install_one r t) (λ _. install_all r k (t + 1))

  keeps_commit : Keeps part commit
  unfolding commit write_from_cache_to_log install_transaction
  keeps_commit =
      search (keeps, keeps_modify, above, upper.log, header, log_all, install_all) depth 20

  pub keeps_begin_op : Keeps part begin_op
  unfolding begin_op
  keeps_begin_op = search (keeps, keeps_modify, upper.log, upper.wrote) depth 20

  pub keeps_end_op : Keeps part end_op
  unfolding end_op
  keeps_end_op = search (keeps, keeps_modify, upper.log, keeps_commit) depth 20

  pub keeps_logged_read : (b : ℕ) → Keeps part (logged_read b)
  unfolding logged_read
  keeps_logged_read b = search (keeps, above)

  pub keeps_logged_relse : (b : ℕ) → Keeps part (logged_relse b)
  unfolding logged_relse
  keeps_logged_relse b = search (keeps, above)

  pub keeps_logged_write : (b : ℕ) → Keeps part (logged_write b)
  unfolding logged_write
  keeps_logged_write b = search (keeps, keeps_modify, above, upper.log, upper.log_wrote) depth 20
