-- ===== src/Mkfs/Regions.antt =====
-- The regions that `init_super_block` (src/mkfs/mkfs.myfuse-util.cc) divides a disk into.
use myfuse.Common.{ℕ, ◌+◌, ◌*◌, ◌/◌, ◌^◌, ◌≤◌, ◌<◌, ◌≡◌, ◌∙◌, refl, List, [], ◌∷◌, arith}
use myfuse.Params.{bpb, nlog}
use myfuse.Machine.{SuperBlock}
use myfuse.Machine.Block.{Block, set32, get32, get32-set32_self, get32-set32_apart}
use myfuse.Alloc.{roundup}
use myfuse.Inode.Table.{iblock}
use myfuse.Mount.{superblock_of, superblock_id}
use myfuse.Mkfs.{init_super_block, put_superblock, put_words}

-- A disk of at least 1041 blocks is divided without overlap: the log comes after the super block and
-- has NLOG blocks, which end where the inodes begin; each inode's block comes after the log and before the bitmap, and the bitmap has a
-- bit for every block of the disk and is followed by the data blocks, which are the rest.
pub init_super_block-regions :
    (disk_size inum : ℕ)
    → 1041 ≤ disk_size
    → disk_size < 2 ^ 32
    → inum < (init_super_block disk_size).ninodes
    → let sb = init_super_block disk_size in
      (superblock_id < sb.logstart)
      × (sb.nlog ≡ nlog)
      × (sb.logstart + sb.nlog ≡ sb.inodestart)
      × (sb.inodestart ≤ iblock sb inum)
      × (iblock sb inum < sb.bmapstart)
      × (sb.bmapstart + roundup sb.size bpb / bpb + sb.nblocks ≡ sb.size)
      × (sb.size ≤ roundup sb.size bpb / bpb * bpb)
unfolding init_super_block
init_super_block-regions disk_size inum large word inode =
    (omega arith, omega arith, omega arith, omega arith, omega arith, omega arith, omega arith)

-- A disk of 101 to 1039 blocks passes the test of `main`, but has no room for the log: the count of
-- data blocks wraps, and is larger than the disk.
init_super_block-small :
    (disk_size : ℕ)
    → 100 < disk_size
    → disk_size < 1040
    → disk_size < (init_super_block disk_size).nblocks
unfolding init_super_block
init_super_block-small disk_size some few = omega arith

put_words_before :
    (vs : List ℕ) (off : ℕ) (d : Block) (p : ℕ)
    → p + 4 ≤ off
    → get32 (put_words vs off d) p ≡ get32 d p
unfolding put_words
put_words_before [] off d p h = refl
put_words_before (v ∷ vs) off d p h =
    put_words_before vs (off + 4) (set32 d off v) p (omega arith)
    ∙ get32-set32_apart d off p v (omega arith)

put_words_head :
    (v : ℕ) (vs : List ℕ) (off : ℕ) (d : Block)
    → v < 2 ^ 32
    → get32 (put_words (v ∷ vs) off d) off ≡ v
unfolding put_words
put_words_head v vs off d h =
    put_words_before vs (off + 4) (set32 d off v) off (omega arith) ∙ get32-set32_self d off v h

-- the words read again
abbrev Words : List ℕ → Type 0
Words [] = Unit {0}
Words (v ∷ vs) = (v < 2 ^ 32) × Words vs

abbrev AllRead : List ℕ → ℕ → Block → Type 0
AllRead [] off d = Unit {0}
AllRead (v ∷ vs) off d = (get32 d off ≡ v) × AllRead vs (off + 4) d

put_words-AllRead :
    (vs : List ℕ) (off : ℕ) (d : Block) → Words vs → AllRead vs off (put_words vs off d)
unfolding put_words
put_words-AllRead [] off d tt = tt
put_words-AllRead (v ∷ vs) off d (h, hs) =
    (put_words_head v vs off d h, put_words-AllRead vs (off + 4) (set32 d off v) hs)

-- The super block that `mkfs` puts into block 1 is the one that `myfuse_init` takes from it, if its
-- fields are 32-bit words, whatever the rest of the block.
pub superblock_of-put_superblock :
    (sb : SuperBlock) (d : Block)
    → sb.magic < 2 ^ 32
    → sb.size < 2 ^ 32
    → sb.nblocks < 2 ^ 32
    → sb.ninodes < 2 ^ 32
    → sb.nlog < 2 ^ 32
    → sb.logstart < 2 ^ 32
    → sb.inodestart < 2 ^ 32
    → sb.bmapstart < 2 ^ 32
    → superblock_of (put_superblock sb d) ≡ sb
unfolding superblock_of put_superblock put_words
superblock_of-put_superblock sb d a b c e f g h i =
    let words =
      sb.magic ∷ sb.size ∷ sb.nblocks ∷ sb.ninodes ∷ sb.nlog ∷ sb.logstart ∷ sb.inodestart
      ∷ sb.bmapstart ∷ [] in
    let (e0, r0) = put_words-AllRead words 0 d (a, (b, (c, (e, (f, (g, (h, (i, tt)))))))) in
    let (e1, r1) = r0 in
    let (e2, r2) = r1 in
    let (e3, r3) = r2 in
    let (e4, r4) = r3 in
    let (e5, r5) = r4 in
    let (e6, r6) = r5 in let (e7, r7) = r6 in cc (e0, e1, e2, e3, e4, e5, e6, e7)
