-- ===== src/Tests/Commits.antt =====
-- Commit and recovery, on a log with one block.
use myfuse.Common.{ℕ, ◌≡◌, refl, arith, ◌==◌, if◌then◌else◌}
use myfuse.Machine.{Machine, Returns}
use myfuse.Machine.Block.{Block, get32, zeros}
use myfuse.Machine.Effect.{apply_writes}
use myfuse.Machine.Buffer.{view, bread, buf_data, set_data, bwrite, brelse, bunpin}
use myfuse.Log.Header.{write_log_header_to_disk, read_entries}
use myfuse.Log.Commit.{
  commit, log_init, recover_from_log, write_from_cache_to_log, log_loop, log_one_block,
  install_transaction, install_loop, install_block,
}
use myfuse.Log.Committing.{Ready, Committed, commit-Committed}
use myfuse.Log.Recovery.{found, Recovered, recover_from_log-Recovered}
use myfuse.Log.Atomic.{AllOrNothing, Boots, commit-AllOrNothing}
use myfuse.Tests.Fixture.{superblock, boot, idle, dirty, sevens, after, first_of, rest_of}

dirty-Ready : Ready dirty
dirty-Ready = record {
  fits = record { room = omega arith; small = omega arith; outside = λ i h h'. omega arith };
  few = omega arith;
  free = λ b. ground arith;
  words = λ i. omega arith;
}

commit-Committed_example : Returns (λ _. Committed dirty) (commit dirty)
commit-Committed_example = commit-Committed dirty dirty-Ready (omega arith)

abbrev done : Machine
done = after (commit dirty) dirty

-- what a crash after `k` writes leaves for the next process
abbrev crashed : ℕ → Machine
crashed k = record boot { disk = apply_writes (first_of k done.trace) dirty.disk }

crashed-Boots : (k : ℕ) → Boots dirty.log superblock (crashed k)
crashed-Boots k = record {
  fresh = record { empty = λ b. refl; free = λ b. refl };
  start = refl;
  size = refl;
}

-- the crash is between the header and the home block
commit-AllOrNothing_example :
    Returns (λ _ m''. AllOrNothing dirty m''.disk) (log_init superblock (crashed 2))
unfolding commit get32 write_from_cache_to_log log_loop log_one_block bread buf_data set_data bwrite
    brelse write_log_header_to_disk install_transaction install_loop install_block bunpin
commit-AllOrNothing_example =
    commit-AllOrNothing (first_of 2 done.trace) (rest_of 2 done.trace) dirty-Ready (omega arith)
      refl refl refl (crashed-Boots 2) refl

-- a header that lists one block, 2000
abbrev header : Block
header off = if off == 0 then 1 else if off == 4 then 208 else if off == 5 then 7 else 0

abbrev interrupted : Machine
interrupted = record idle {
  disk = λ b. if b == 2 then header else if b == 3 then sevens else zeros;
}

recover_from_log-Recovered_example :
    Returns
      (λ _. Recovered (found interrupted.log (view interrupted interrupted.log.start)) interrupted)
      (recover_from_log interrupted)
unfolding get32 read_entries
recover_from_log-Recovered_example =
    recover_from_log-Recovered interrupted (λ b. refl) (omega arith)
      (record {
        room = omega arith;
        small = omega arith;
        outside = λ i h h'. let e : i ≡ 0 = omega arith in rw e (omega arith);
      })
