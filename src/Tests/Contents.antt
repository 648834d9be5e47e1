-- ===== src/Tests/Contents.antt =====
-- A file of 5000 bytes in direct blocks is read and overwritten, and its dinode is printed.
use myfuse.Common.{
  ℕ, ◌+◌, ◌-◌, ◌*◌, ◌/◌, ◌≤◌, ◌<◌, ◌≡◌, ◌⊎◌, refl, true, false, ◌&&◌, ◌==◌, ltb, leb, if◌then◌else◌,
  arith, not, List, ◌++◌, [],
}
use myfuse.Params.{bsize, ndirect}
use myfuse.Machine.{Machine, Inode, Returns, ◌>>=◌, pure}
use myfuse.Machine.Block.{Block, zeros, get32, set32, get32-set32_apart}
use myfuse.Machine.Buffer.{view}
use myfuse.Log.Write.{HasRoom}
use myfuse.Inode.Layout.{nblockaddr, dinode_off}
use myfuse.Inode.Table.{no_inode}
use myfuse.Inode.Map.{place, direct}
use myfuse.Inode.Content.{min, inode_write_nbytes_locked, inode_read_nbytes_locked}
use myfuse.Inode.Walk.{Looked, is_mapped, walk}
use myfuse.Inode.Paths.{passes}
use myfuse.Inode.Update.{home}
use myfuse.Inode.Read.{byte, filled, IsReadable}
use myfuse.Inode.ReadFile.{Quiet, inode_read_nbytes_locked-filled}
use myfuse.Inode.Overwritten.{overwritten}
use myfuse.Inode.Separate.{IsSeparate}
use myfuse.Inode.Rewrite.{HasRoomFor}
use myfuse.Inode.ReadBack.{
  inode_write_nbytes_locked-overwritten, inode_read_nbytes_locked-inode_write_nbytes_locked,
}
use myfuse.Alloc.{bmap_block_statue_get}
use myfuse.Diagnostic.{Piece, Report, dinode_addrs, output_dinode, count_leakblock}
use myfuse.Diagnostic.Leaks.{mentions}
use myfuse.Diagnostic.Dinode.{OnFile, Judged, count_leakblock-output_dinode}
use myfuse.Tests.Fixture.{busy, sevens}

abbrev pub file : Inode
file = record no_inode {
  inum = 1;
  ref = 1;
  valid = true;
  kind = 2;
  nlink = 1;
  size = 5000;
  addrs = λ i. if ltb i nblockaddr then 2000 + i else 0;
}

abbrev pub filed : Machine
filed = record busy { inodes = λ i. if i == 0 then file else no_inode }

place-direct : (bn : ℕ) → bn < ndirect → place bn ≡ direct bn
unfolding place
place-direct bn low = let e : ltb bn ndirect ≡ true = ground (arith, low) in rw e refl

pub walk-file : (p : ℕ) → p < 8192 → walk filed 0 (p / bsize) ≡ 2000 + p / bsize
walk-file p low =
    let direct : ltb (p / bsize) nblockaddr ≡ true = ground (arith, low) in
    rw (place-direct (p / bsize) (omega (arith, low)), direct) refl

mapped : (p : ℕ) → p < 8192 → is_mapped (view filed) file.addrs (place (p / bsize)) ≡ true
mapped p low =
    let direct : ltb (p / bsize) nblockaddr ≡ true = ground (arith, low) in
    rw (place-direct (p / bsize) (omega (arith, low)), direct) (ground arith)

off_path : (p b : ℕ) → p < 8192 → passes (view filed) file.addrs (place (p / bsize)) b ≡ false
off_path p b low = rw (place-direct (p / bsize) (omega (arith, low))) refl

filed-IsReadable : IsReadable filed 0
filed-IsReadable = record {
  free = λ b. refl;
  calm = omega arith;
  fits = omega arith;
  mapped = λ p low. mapped p (omega (arith, low));
}

filed-HasRoom : HasRoom filed
filed-HasRoom = record {
  few = omega arith;
  room = omega arith;
  small = omega arith;
  inside = omega arith;
  sane = omega arith;
}

-- 2000 bytes from offset 4000 on, of which the file has 1000, in two blocks
inode_read_nbytes_locked-filled_example :
    Returns
      (λ r m'.
        (r.0 ≡ min 2000 1000)
        × (r.1 ≡ filled (λ i. byte filed 0 (4000 + i)) sevens r.0)
        × Quiet 0 filed m')
      (inode_read_nbytes_locked 0 sevens 2000 4000 filed)
inode_read_nbytes_locked-filled_example =
    inode_read_nbytes_locked-filled filed 0 filed-IsReadable filed-HasRoom sevens 2000 4000
      (omega arith) (omega arith)

pub filed-IsSeparate : IsSeparate filed 0 8192
filed-IsSeparate = record {
  fits = omega arith;
  mapped = mapped;
  apart = λ p q low low' e.
      let a = walk-file p low in let b = walk-file q low' in omega (arith, a, b, e);
  no_data = λ p q low low'. off_path q _ low';
  not_home = λ p low e. let a = walk-file p low in omega (arith, a, e);
  no_home = λ p low. off_path p _ low;
}

pub filed-HasRoomFor : (k : ℕ) → k ≤ 10 → HasRoomFor k filed
filed-HasRoomFor k few = record {
  free = λ b. refl;
  entries = omega (arith, few);
  room = omega (arith, few);
  small = omega arith;
  inside = omega arith;
  sane = omega arith;
  calm = omega (arith, few);
}

inode_write_nbytes_locked-overwritten_example :
    Returns
      (λ r m'.
        (r ≡ 4000)
        × ((m'.inodes 0).size ≡ 8000)
        × ((pos : ℕ)
            → (8192 ≤ pos) ⊎ (byte m' 0 pos ≡ overwritten (byte filed 0) 4000 sevens 4000 pos))
        × ((b : ℕ)
            → (b ≡ home 0 filed)
              ⊎ ((p : ℕ) × (p < 8192) × (b ≡ walk filed 0 (p / bsize)))
              ⊎ (view m' b ≡ view filed b)))
      (inode_write_nbytes_locked 0 sevens 4000 4000 filed)
inode_write_nbytes_locked-overwritten_example =
    inode_write_nbytes_locked-overwritten filed 0 8192 filed-IsSeparate sevens 4000 4000
      (omega arith) (omega arith) (filed-HasRoomFor _ (omega arith))

inode_read_nbytes_locked-inode_write_nbytes_locked_example :
    Returns
      (λ r m'. (r.0 ≡ 4000) × (r.1 ≡ filled sevens zeros 4000))
      ((do
        written ← inode_write_nbytes_locked 0 sevens 4000 4000
        inode_read_nbytes_locked 0 zeros 4000 4000)
        filed)
inode_read_nbytes_locked-inode_write_nbytes_locked_example =
    inode_read_nbytes_locked-inode_write_nbytes_locked filed 0 8192 filed-IsSeparate sevens zeros
      4000 4000 (omega arith) (omega arith) (omega arith) (filed-HasRoomFor _ (omega arith))

-- the dinode of inode 1, with block 2000 alone
abbrev dinodes : Block
dinodes = set32 zeros 324 2000

abbrev blank : Report
blank = record { printed = []; used = [] }

dinodes-zero : (i : ℕ) → 0 < i → dinode_addrs dinodes 1 i ≡ 0
unfolding get32
dinodes-zero i some =
    get32-set32_apart zeros 324 (dinode_off 1 + 68 + 4 * i) 2000 (omega (arith, some))

count_leakblock-output_dinode_example :
    Returns
      (λ (rs : Report × Report) m'.
        Looked filed m'
        × (added : List Piece) × (rs.1.printed ≡ rs.0.printed ++ added)
        × ((b : ℕ)
            → Judged
                (leb (3000 - 1790) b && ltb b 3000 && not (bmap_block_statue_get filed.bmap b == 0))
                false
                (OnFile (view filed) (dinode_addrs dinodes 1) b)
                (mentions b added)))
      ((do r1 ← output_dinode dinodes 1 blank; r2 ← count_leakblock r1; pure (r1, r2)) filed)
unfolding get32 set32
count_leakblock-output_dinode_example =
    count_leakblock-output_dinode filed dinodes 1
      (λ j low high there. absurd (there (dinodes-zero (ndirect + 0 + j) (omega arith))))
      (λ j low high there. absurd (there (dinodes-zero (ndirect + 1 + j) (omega arith))))
      (λ j low high there. absurd (there (dinodes-zero (ndirect + 2 + j) (omega arith)))) blank
      (omega arith) (omega arith)
