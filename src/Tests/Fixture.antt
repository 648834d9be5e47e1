-- ===== src/Tests/Fixture.antt =====
-- States of the machine for the tests: a disk whose log is blocks 2 to 1199, and runs on it.
use myfuse.Common.{ℕ, zero, suc, true, false, List, [], ◌∷◌, ◌==◌, if◌then◌else◌}
use myfuse.Machine.{Machine, SuperBlock, Buf, FsLog, BmapCache, Run, ok, exit, wait, fault}
use myfuse.Machine.Block.{Block, zeros}
use myfuse.Inode.Table.{no_inode}
use myfuse.File.Table.{no_file}

abbrev pub superblock : SuperBlock
superblock = record {
  magic = 1667917427;
  size = 3000;
  nblocks = 1790;
  ninodes = 16;
  nlog = 1200;
  logstart = 2;
  inodestart = 1202;
  bmapstart = 1203;
}

abbrev pub no_buf : Buf
no_buf = record { contents = zeros; valid = false; locked = false; refcnt = 0 }

abbrev pub empty_log : FsLog
empty_log = record {
  start = 2;
  size = 1200;
  outstanding = 0;
  committing = false;
  n = 0;
  block = λ i. 0;
}

-- Group 0 has its first two blocks allocated; there is one group.
abbrev pub bitmap : BmapCache
bitmap = record {
  cache_buf = λ i. if i == 0 then 3 else 0;
  first_unalloced = λ g. 2;
  n_alloced = λ g. 2;
  n_cache = 1;
  first_free_cache = 0;
}

abbrev pub boot : Machine
boot = record {
  sb = superblock;
  disk = λ b. zeros;
  trace = [];
  bufs = λ b. no_buf;
  log = record empty_log { start = 0; size = 0 };
  n_log_wrote = 0;
  bmap = bitmap;
  inodes = λ i. no_inode;
  ninode = 30;
  files = λ i. no_file;
  nfile = 50;
  now = record { sec = 1; nsec = 2 };
}

abbrev pub idle : Machine
idle = record boot { log = empty_log }

-- One operation is under way.
abbrev pub busy : Machine
busy = record idle { log = record empty_log { outstanding = 1 } }

abbrev pub sevens : Block
sevens off = 7

-- Block 2000 is logged, with new contents in its buffer.
abbrev pub dirty : Machine
dirty = record boot {
  log = record empty_log { n = 1; block = λ i. 2000 };
  bufs = λ b.
      if b == 2000
      then record { contents = sevens; valid = true; locked = false; refcnt = 1 }
      else no_buf;
}

-- The state a run ends in, if it returns.
abbrev pub after : {A : Type 0} → Run A → Machine → Machine
after (ok a m) d = m
after (exit m) d = d
after (wait m) d = d
after fault d = d

abbrev pub answer : {A : Type 0} → Run A → A → A
answer (ok a m) d = a
answer (exit m) d = d
answer (wait m) d = d
answer fault d = d

abbrev pub first_of {ℓ} : {A : Type ℓ} → ℕ → List A → List A
first_of zero xs = []
first_of (suc k) [] = []
first_of (suc k) (x ∷ xs) = x ∷ first_of k xs

abbrev pub rest_of {ℓ} : {A : Type ℓ} → ℕ → List A → List A
rest_of zero xs = xs
rest_of (suc k) [] = []
rest_of (suc k) (x ∷ xs) = rest_of k xs
