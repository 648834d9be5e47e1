-- ===== src/Tests/Caches.antt =====
-- The buffer cache, the block device and a new disk.
use mathlib.Core.List.{Memᴰ}
use mathlib.Core.List.Memᴰ
use myfuse.Common.{
  ℕ, refl, sym, ◌+◌, ◌-◌, ◌*◌, ◌/◌, ◌^◌, true, false, ◌≡◌, ◌≤◌, ◌<◌, ◌⊎◌, arith, [], ◌∷◌, ◌==◌,
  length, if◌then◌else◌, inl, inr, Bool-cases, update, some,
}
use myfuse.Params.{bsize, bpb, nlog}
use myfuse.Machine.{Machine, ok, ◌>>◌}
use myfuse.Machine.Block.{Block, zeros}
use myfuse.Alloc.{scan, count_free, minus_one, roundup}
use myfuse.Alloc.Counts.{scan-count_free}
use myfuse.BufCache.{
  CacheBuf, Cache, static_buf, got, bread, find, ncache_buf, bcache_init, bpin, bunpin, brelse,
  bwrite,
}
use myfuse.BufCache.Invariant.{IsCache, IsClean, Fetches, view}
use myfuse.BufCache.Refine.{IsReady, bread-Fetches}
use myfuse.BufCache.Start.{bcache_init-IsCache}
use myfuse.BufCache.Writes.{writes-view}
use myfuse.BlockDevice.{
  Os, Device, returns, waits, write_block_raw, read_block_raw, read_block_raw_nbytes,
}
use myfuse.BlockDevice.Blocks.{IsDisk, read-write_block_raw, seek_failed-waits}
use myfuse.Mkfs.{init_super_block, put_superblock}
use myfuse.Mkfs.Regions.{init_super_block-regions, superblock_of-put_superblock}
use myfuse.Mount.{superblock_of, superblock_id}
use myfuse.Inode.Table.{iblock}
use myfuse.File.Table.{filealloc, no_file, filedup, fileclose}
use myfuse.File.References.{fileclose-filedup}
use myfuse.File.Slots.{IsAllocated, filealloc-IsAllocated}
use myfuse.Tests.Fixture.{idle, sevens, bitmap, superblock}

scan-count_free_example : (scan bitmap 100 0 0 minus_one).0 + count_free bitmap 100 0 ≡ 100
scan-count_free_example = scan-count_free bitmap 100 0 0 minus_one (omega arith)

-- One buffer, of block 5, valid and without references.
abbrev five : CacheBuf
five = record static_buf { valid = true; blockno = 5; contents = sevens }

abbrev cache : Cache
cache = record {
  buf = λ s. five;
  hash = λ h. if h == 5 then 0 ∷ [] else [];
  disk = λ b. sevens;
  clock = 0;
}

cache-IsCache : IsCache cache
cache-IsCache = record {
  home = λ h s m. elim (Bool-cases (h == 5)) [
    | inl here ↦ let q : h ≡ 5 = ground arith in sym q
    | inr away ↦ let m' = rw away at m in absurd (Memᴰ.not-nil m')
  ];
  single = λ h. elim (Bool-cases (h == 5)) [
    | inl here ↦ rw here (Memᴰ.not-nil, λ t m. absurd (Memᴰ.not-nil m), tt)
    | inr away ↦ rw away tt
  ];
  idle = λ s z. refl;
}

cache-IsClean : IsClean cache
cache-IsClean h s m z v = refl

-- block 7 is not in the cache, and takes the place of block 5
cache-IsReady : IsReady cache 7
unfolding find
cache-IsReady = inr (refl, (5, 0, omega arith, Memᴰ.head refl, omega arith, refl))

bread-Fetches_example : (s : ℕ) × (c' : Cache) × (bread cache 7 ≡ got s c') × Fetches cache 7 s c'
bread-Fetches_example = bread-Fetches cache 7 cache-IsCache cache-IsClean cache-IsReady

-- zeroed memory, over a disk
abbrev static : Cache
static = record { buf = λ s. static_buf; hash = λ h. []; disk = λ b. sevens; clock = 0 }

bcache_init-IsCache_example :
    IsCache (bcache_init static)
    × IsClean (bcache_init static)
    × ((b : ℕ) → view (bcache_init static) b ≡ sevens)
    × (length ((bcache_init static).hash 0) ≡ ncache_buf)
    × ((s : ℕ)
        → (ncache_buf ≤ s)
          ⊎ (Memᴰ s ((bcache_init static).hash 0) × (((bcache_init static).buf s).refcnt ≡ 0)))
bcache_init-IsCache_example = bcache_init-IsCache static (λ s. refl)

-- with two references, and locked
abbrev held : Cache
held = record cache { buf = λ s. record five { refcnt = 2 } }

held-IsCache : IsCache held
held-IsCache = record {
  home = cache-IsCache.home;
  single = cache-IsCache.single;
  idle = λ s z. refl;
}

writes-view_example :
    (IsCache (bpin held 0) × ((b : ℕ) → view (bpin held 0) b ≡ view held b))
    × (IsCache (bunpin held 0) × ((b : ℕ) → view (bunpin held 0) b ≡ view held b))
    × (IsCache (brelse held 0) × ((b : ℕ) → view (brelse held 0) b ≡ view held b))
    × (IsCache (bwrite held 0) × ((b : ℕ) → view (bwrite held 0) b ≡ view held b))
    × ((bwrite held 0).disk 5 ≡ sevens)
writes-view_example =
    writes-view held held-IsCache 0 5 (Memᴰ.head refl) refl (λ z. refl) (λ z. omega (arith, z))

-- a device whose position and blocks are its state; the results of `lseek` are never wrong
abbrev Medium : Type 0
Medium = ℕ × (ℕ → Block)

abbrev medium : Os Medium
medium = record {
  open_rdwr = λ path s. (3, s);
  lseek = λ fd off s. (off, (off, s.1));
  write = λ fd buf n s. (n, (s.0 + n, update s.1 (s.0 / bsize) buf));
  read = λ fd buf n s. (n, s.1 (s.0 / bsize), (s.0 + n, s.1));
}

medium-IsDisk : IsDisk medium 3 100
medium-IsDisk = record {
  position = λ s. s.0;
  blocks = λ s. s.1;
  seeks = λ off s low. (refl, refl, refl);
  writes =
      λ b buf s low at. let block : s.0 / bsize ≡ b = omega (arith, at) in (refl, rw block refl);
  reads = λ b buf s low at.
      let block : s.0 / bsize ≡ b = omega (arith, at) in (refl, rw block refl, refl);
}

abbrev device : Device Medium
device = record { disk_lock = false; device_fd = 3; os = (0, λ b. zeros) }

read-write_block_raw_example :
    (d1 : Device Medium) × (d2 : Device Medium) × (write_block_raw medium 5 sevens device
      ≡ returns bsize d1)
    × (read_block_raw medium 5 zeros d1 ≡ returns (bsize, sevens) d2)
    × (d2.disk_lock ≡ false)
read-write_block_raw_example =
    read-write_block_raw medium 100 device medium-IsDisk refl 5 5 sevens zeros (omega arith)
      (omega arith)

-- a device that cannot be positioned
abbrev pipe : Os Medium
pipe = record medium { lseek = λ fd off s. (2 ^ 64 - 1, s) }

seek_failed-waits_example :
    (d' : Device Medium) × (write_block_raw pipe 5 sevens device ≡ returns (2 ^ 32 - 1) d')
    × (read_block_raw pipe 5 sevens device ≡ returns (2 ^ 32 - 1, sevens) d')
    × (read_block_raw_nbytes pipe 5 sevens 32 device ≡ returns (2 ^ 32 - 1, sevens) d')
    × (write_block_raw pipe 6 sevens d' ≡ waits d')
    × (read_block_raw pipe 6 sevens d' ≡ waits d')
    × (read_block_raw_nbytes pipe 6 sevens 32 d' ≡ waits d')
seek_failed-waits_example = seek_failed-waits pipe device refl 5 (λ e. omega (arith, e)) sevens 32 6

init_super_block-regions_example :
    let sb = init_super_block 3000 in
    (superblock_id < sb.logstart)
    × (sb.nlog ≡ nlog)
    × (sb.logstart + sb.nlog ≡ sb.inodestart)
    × (sb.inodestart ≤ iblock sb 900)
    × (iblock sb 900 < sb.bmapstart)
    × (sb.bmapstart + roundup sb.size bpb / bpb + sb.nblocks ≡ sb.size)
    × (sb.size ≤ roundup sb.size bpb / bpb * bpb)
unfolding init_super_block
init_super_block-regions_example =
    init_super_block-regions 3000 900 (omega arith) (omega arith) (omega arith)

superblock_of-put_superblock_example : superblock_of (put_superblock superblock sevens) ≡ superblock
superblock_of-put_superblock_example =
    superblock_of-put_superblock superblock sevens (omega arith) (omega arith) (omega arith)
      (omega arith) (omega arith) (omega arith) (omega arith) (omega arith)

filealloc-IsAllocated_example :
    (f : ℕ) × (m' : Machine) × (filealloc idle ≡ ok f m')
    × IsAllocated idle m' f
    × ((g : ℕ) → (g ≡ f) ⊎ (50 ≤ g) ⊎ (m'.files g ≡ idle.files g))
filealloc-IsAllocated_example = filealloc-IsAllocated idle (omega arith) (omega arith)

-- every slot holds a file of inode slot 3
abbrev opened : Machine
opened = record idle { files = λ i. record no_file { kind = 1; ref = 1; ip = some 3 } }

fileclose-filedup_example : (filedup 4 >> fileclose 4) opened ≡ ok tt opened
fileclose-filedup_example = fileclose-filedup opened 4 (omega arith) (omega arith)
