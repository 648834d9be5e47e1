-- ===== src/Tests/Files.antt =====
-- Inodes and paths.
use myfuse.Common.{ℕ, ◌≡◌, arith, false, some, none, List, [], ◌∷◌, if◌then◌else◌, ◌==◌}
use myfuse.Machine.{Inode, Returns}
use myfuse.Machine.Block.{zeros}
use myfuse.Inode.Table.{no_inode, iget}
use myfuse.Inode.Layout.{load, store}
use myfuse.Inode.Fields.{Fits, load-store}
use myfuse.Inode.Map.{place}
use myfuse.Inode.Place.{InRange, block_at, place-InRange}
use myfuse.Inode.Slots.{IsTable, Got}
use myfuse.Inode.Get.{iget-Got}
use myfuse.Machine.{ok}
use myfuse.Machine.Block.{Block, get32}
use myfuse.Common.{true, suc}
use myfuse.Directory.Entries.{name_at, dirent_of, find_entry}
use myfuse.Directory.Fuel.{namex_loop-fuel}
use myfuse.Directory.Entries.{namex_loop}
use myfuse.Inode.Content.{write_loop, read_loop}
use myfuse.Inode.Fuel.{blocks-fuel}
use myfuse.Directory.Dirent.{find_entry-dirent_of}
use myfuse.Directory.Path.{dirnamecmp, skipelem, skiptoend}
use myfuse.Directory.Elements.{Parsed, skipelem-Parsed}
use myfuse.Directory.Ends.{only_slashes?, skiptoend-end}
use myfuse.Tests.Fixture.{boot}

place-InRange_example : InRange (place 2000000) × (block_at (place 2000000) ≡ 2000000)
place-InRange_example = place-InRange 2000000 (omega arith)

-- a file of 5000 bytes
abbrev file : Inode
file = record no_inode {
  kind = 2;
  nlink = 1;
  size = 5000;
  perm = 420;
  addrs = λ i. if i == 0 then 2000 else if i == 1 then 2001 else 0;
}

file-Fits : Fits file
file-Fits = record {
  kind = omega arith;
  major = omega arith;
  minor = omega arith;
  nlink = omega arith;
  size = omega arith;
  perm = omega arith;
  atime = omega arith;
  mtime = omega arith;
  ctime = omega arith;
  addrs = λ j. ground arith;
  beyond = λ j h. ground arith;
}

load-store_example :
    load (store file 256 zeros) 256 no_inode
    ≡ record file { inum = 0; ref = 0; locked = false; valid = false }
load-store_example = load-store file no_inode 256 zeros file-Fits

boot-IsTable : IsTable boot
boot-IsTable = record {
  some_in = omega arith;
  small = omega arith;
  counts = λ j. omega arith;
  single = λ i j hi hj ri rj e. absurd (omega (arith, ri));
}

iget-Got_example : Returns (Got 7 boot) (iget 7 boot)
iget-Got_example = iget-Got 7 boot boot-IsTable (omega arith)

-- "/a//b"
abbrev path : List ℕ
path = 47 ∷ 97 ∷ 47 ∷ 47 ∷ 98 ∷ []

skipelem-Parsed_example : Parsed path zeros (skipelem path zeros)
skipelem-Parsed_example = skipelem-Parsed path zeros

skiptoend-end_example : skiptoend path zeros ≡ (if only_slashes? path then none else some [])
skiptoend-end_example = skiptoend-end path zeros

-- "b"
abbrev name : Block
name i = if i == 0 then 98 else 0

find_entry-dirent_of_example :
    (get32 (dirent_of name 7) 0 ≡ 7)
    × (dirnamecmp (name_at (dirent_of name 7) 0) name ≡ true)
    × (find_entry (dirent_of name 7) 64 name (suc 0) 0 boot ≡ ok (some (0, 7)) boot)
find_entry-dirent_of_example =
    find_entry-dirent_of name 7 64 0 boot (omega arith) (omega arith) (omega arith)

namex_loop-fuel_example : namex_loop 6 0 path true zeros ≡ namex_loop 100 0 path true zeros
namex_loop-fuel_example = namex_loop-fuel 6 100 0 path true zeros (omega arith) (omega arith)

blocks-fuel_example :
    (write_loop 2 0 zeros 0 1 10000 ≡ write_loop 5 0 zeros 0 1 10000)
    × (read_loop 2 0 zeros 0 1 10000 ≡ read_loop 5 0 zeros 0 1 10000)
blocks-fuel_example = blocks-fuel 2 5 0 zeros 0 1 10000 (omega arith) (omega arith)
