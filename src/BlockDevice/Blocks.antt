-- ===== src/BlockDevice/Blocks.antt =====
-- What src/block_device.c makes of a device: blocks that are read as they were written.
use myfuse.Common.{
  ℕ, ◌*◌, ◌<◌, ◌≡◌, ◌≢◌, ◌∙◌, refl, ap, true, false, ◌==◌, arith, update, if◌then◌else◌,
}
use myfuse.Params.{bsize}
use myfuse.Machine.Block.{Block}
use myfuse.BlockDevice.{
  Os, Device, returns, waits, locked, unlocked, minus_one, write_block_raw, read_block_raw,
  read_block_raw_nbytes,
}

-- What the manual says of a device of `size` blocks that is open as `fd`: `lseek` goes to an offset
-- on the device and returns it, and a `read` or `write` of a block there is of the whole block.
pub record IsDisk {S : Type 0} (sys : Os S) (fd size : ℕ) : Type 0 where
  pub position : S → ℕ
  pub blocks : S → ℕ → Block
  pub seeks :
      (off : ℕ) (s : S)
      → off < size * bsize
      → ((sys.lseek fd off s).0 ≡ off)
        × (position (sys.lseek fd off s).1 ≡ off)
        × (blocks (sys.lseek fd off s).1 ≡ blocks s)
  pub writes :
      (b : ℕ) (buf : Block) (s : S)
      → b < size
      → position s ≡ b * bsize
      → ((sys.write fd buf bsize s).0 ≡ bsize)
        × (blocks (sys.write fd buf bsize s).1 ≡ update (blocks s) b buf)
  pub reads :
      (b : ℕ) (buf : Block) (s : S)
      → b < size
      → position s ≡ b * bsize
      → ((sys.read fd buf bsize s).0 ≡ bsize)
        × ((sys.read fd buf bsize s).1 ≡ blocks s b)
        × (blocks (sys.read fd buf bsize s).2 ≡ blocks s)

module _ {S : Type 0} (sys : Os S) (size : ℕ) (d : Device S) (disk : IsDisk sys d.device_fd size)
    (free : d.disk_lock ≡ false) where
  abbrev pub sought : ℕ → S
  sought b = (sys.lseek d.device_fd (b * bsize) d.os).1

  abbrev pub written : ℕ → Block → Device S
  written b buf = unlocked sys d (sys.write d.device_fd buf bsize (sought b)).1

  write_block_raw-returns :
      (b : ℕ) (buf : Block)
      → b < size
      → (write_block_raw sys b buf d ≡ returns bsize (written b buf))
        × (disk.blocks (written b buf).os ≡ update (disk.blocks d.os) b buf)
  unfolding write_block_raw
  write_block_raw-returns b buf low =
      let (at, pos, same) = disk.seeks (b * bsize) d.os (omega (arith, low)) in
      let (n, wrote) = disk.writes b buf (sought b) low pos in
      let hit : (b * bsize == b * bsize) ≡ true = ground arith in
      (rw (free, at, hit, n) refl, wrote ∙ ap (λ f. update f b buf) same)

  read_block_raw-returns :
      (b : ℕ) (buf : Block)
      → b < size
      → (d' : Device S) × (read_block_raw sys b buf d ≡ returns (bsize, disk.blocks d.os b) d')
        × (d'.disk_lock ≡ false)
  unfolding read_block_raw
  read_block_raw-returns b buf low =
      let (at, pos, same) = disk.seeks (b * bsize) d.os (omega (arith, low)) in
      let (n, shown, kept) = disk.reads b buf (sought b) low pos in
      let hit : (b * bsize == b * bsize) ≡ true = ground arith in
      let shows = shown ∙ ap (λ f. f b) same in
      (
        unlocked sys d (sys.read d.device_fd buf bsize (sought b)).2,
        rw (free, at, hit, n, shows) refl,
        refl,
      )

module _ {S : Type 0} (sys : Os S) (size : ℕ) (d : Device S) (disk : IsDisk sys d.device_fd size)
    (free : d.disk_lock ≡ false) where
  -- On a device of `size` blocks whose lock is free, `write_block_raw` of a block below `size` returns
  -- BSIZE, and `read_block_raw` then returns of that block what was written and of any other below
  -- `size` what was there; and the lock is free again.
  pub read-write_block_raw :
      (b b' : ℕ) (buf buf' : Block)
      → b < size
      → b' < size
      → (d1 : Device S) × (d2 : Device S) × (write_block_raw sys b buf d ≡ returns bsize d1)
        × (read_block_raw sys b' buf' d1
            ≡ returns (bsize, if b == b' then buf else disk.blocks d.os b') d2)
        × (d2.disk_lock ≡ false)
  read-write_block_raw b b' buf buf' low low' =
      let (wrote, now) = write_block_raw-returns sys size d disk free b buf low in
      let (d2, read, unlocked_again) =
        read_block_raw-returns sys size (written sys size d disk free b buf) disk refl b' buf'
          low' in
      let shows = ap (λ f. f b') now in
      (written sys size d disk free b buf, d2, wrote, rw⁻¹ shows read, unlocked_again)

module _ {S : Type 0} (sys : Os S) (d : Device S) (free : d.disk_lock ≡ false) where
  -- When `lseek` does not return the offset that is asked for, each of the three calls returns -1
  -- with `disk_lock` held, and whichever of them comes next waits for ever.
  pub seek_failed-waits :
      (b : ℕ)
      → (sys.lseek d.device_fd (b * bsize) d.os).0 ≢ b * bsize
      → (buf : Block) (nbytes b' : ℕ)
      → (d' : Device S) × (write_block_raw sys b buf d ≡ returns minus_one d')
        × (read_block_raw sys b buf d ≡ returns (minus_one, buf) d')
        × (read_block_raw_nbytes sys b buf nbytes d ≡ returns (minus_one, buf) d')
        × (write_block_raw sys b' buf d' ≡ waits d')
        × (read_block_raw sys b' buf d' ≡ waits d')
        × (read_block_raw_nbytes sys b' buf nbytes d' ≡ waits d')
  unfolding write_block_raw read_block_raw read_block_raw_nbytes
  seek_failed-waits b failed buf nbytes b' =
      let miss : ((sys.lseek d.device_fd (b * bsize) d.os).0 == b * bsize) ≡ false = ground arith in
      (
        locked sys d (sys.lseek d.device_fd (b * bsize) d.os).1,
        rw (free, miss) refl,
        rw (free, miss) refl,
        rw (free, miss) refl,
        refl,
        refl,
        refl,
      )
