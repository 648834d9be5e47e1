-- ===== src/BlockDevice.antt =====
-- The block device, src/block_device.c. The system calls that it makes are parameters of the model;
-- `DEBUG` is not defined.
pub mod Blocks
use myfuse.Common.{
  ℕ, ◌+◌, ◌*◌, ◌-◌, ◌%◌, ◌^◌, Bool, true, false, not, ◌==◌, ltb, lt_int, if◌then◌else◌, List,
}
use myfuse.Params.{bsize}
use myfuse.Machine.Block.{Block}

-- `open`, `lseek`, `write` and `read`, on the state `S` of the system. The results are the bit
-- patterns of an `int`, an `off_t` and two `ssize_t`s; `read` gives the buffer as it is afterwards.
pub record Os (S : Type 0) : Type 0 where
  pub open_rdwr : List ℕ → S → ℕ × S
  pub lseek : ℕ → ℕ → S → ℕ × S
  pub write : ℕ → Block → ℕ → S → ℕ × S
  pub read : ℕ → Block → ℕ → S → ℕ × Block × S

-- `disk_lock` and `device_fd`, with the system
pub record Device (S : Type 0) : Type 0 where
  pub disk_lock : Bool
  pub device_fd : ℕ
  pub os : S

-- How a call ends: it returns, or waits for `disk_lock`, or ends the process.
pub data Io (S A : Type 0) : Type 0 where
  returns : A → Device S → Io S A
  waits : Device S → Io S A
  exits : Io S A

-- -1 as an `int`
abbrev pub minus_one : ℕ
minus_one = 2 ^ 32 - 1

module _ {S : Type 0} (sys : Os S) where
  abbrev pub locked : Device S → S → Device S
  locked d s = record d { disk_lock = true; os = s }

  abbrev pub unlocked : Device S → S → Device S
  unlocked d s = record d { disk_lock = false; os = s }

  -- The position is tested with the lock held; when it is wrong the lock is not given back.
  unfoldable pub write_block_raw : ℕ → Block → Device S → Io S ℕ
  write_block_raw block_id buf d =
      let (at, s) = sys.lseek d.device_fd (block_id * bsize) d.os in
      let (nbytes, s') = sys.write d.device_fd buf bsize s in
      if d.disk_lock
      then waits d
      else if not (at == block_id * bsize)
      then returns minus_one (locked d s)
      else returns (nbytes % 2 ^ 32) (unlocked d s')

  -- With the buffer.
  unfoldable pub read_block_raw : ℕ → Block → Device S → Io S (ℕ × Block)
  read_block_raw block_id buf d =
      let (at, s) = sys.lseek d.device_fd (block_id * bsize) d.os in
      let (nbytes, buf', s') = sys.read d.device_fd buf bsize s in
      if d.disk_lock
      then waits d
      else if not (at == block_id * bsize)
      then returns (minus_one, buf) (locked d s)
      else returns (nbytes % 2 ^ 32, buf') (unlocked d s')

  unfoldable pub read_block_raw_nbytes : ℕ → Block → ℕ → Device S → Io S (ℕ × Block)
  read_block_raw_nbytes block_id buf nbytes d =
      let (at, s) = sys.lseek d.device_fd (block_id * bsize) d.os in
      let n = if ltb bsize nbytes then bsize else nbytes in
      let (nbytes_read, buf', s') = sys.read d.device_fd buf n s in
      if d.disk_lock
      then waits d
      else if not (at == block_id * bsize)
      then returns (minus_one, buf) (locked d s)
      else returns (nbytes_read % 2 ^ 32, buf') (unlocked d s')

  -- `device_fd < 0` of an `int`
  unfoldable pub block_device_init : List ℕ → Device S → Io S (Unit {0})
  block_device_init path d =
      let (fd, s) = sys.open_rdwr path d.os in
      if lt_int fd 0
      then exits
      else returns tt (record { disk_lock = false; device_fd = fd; os = s })
