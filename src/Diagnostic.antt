-- ===== src/Diagnostic.antt =====
-- The tool that prints a disk, src/diagnostic/disk-diagnostic.cc. What it prints is kept piece by
-- piece, a number that `printf` formats as it is; `putchar(comma)` and its blank are one piece.
pub mod Leaks
pub mod Below
pub mod Collect
pub mod Dinode
use Prim.Native.String.{String}
use myfuse.Common.{
  ℕ, zero, suc, ◌+◌, ◌-◌, ◌*◌, ◌%◌, Bool, true, false, not, ◌==◌, ◌&&◌, ◌||◌, lt_int, sub32, ltb,
  if◌then◌else◌, List, [], ◌∷◌, ◌++◌,
}
use myfuse.Params.{bsize, ndirect, nindirect1, t_unuse}
use myfuse.Machine.{Machine, SuperBlock, BmapCache, Cmd, pure, ◌>>=◌, ◌>>◌, state, modify, err_exit}
use myfuse.Machine.Block.{Block, get32}
use myfuse.Machine.Buffer.{buf_data}
use myfuse.Log.Op.{logged_read, logged_relse}
use myfuse.Log.Commit.{log_init}
use myfuse.Alloc.{bmap_block_statue_get}
use myfuse.Inode.Layout.{dinode_off, get_le}
use myfuse.Inode.Table.{iblock, inode_init}
use myfuse.File.Table.{file_init}
use myfuse.Mount.{superblock_of, superblock_id, fsmagic, empty_cache}

pub data Piece : Type 0 where
  text : String → Piece
  number : ℕ → Piece

-- what has been printed, and `block_used`
pub record Report : Type 0 where
  pub printed : List Piece
  pub used : List ℕ

abbrev pub Reporter : Type 0
Reporter = Report → Cmd Report

-- `printf`
abbrev pub print : List Piece → Report → Report
print ps r = record r { printed = r.printed ++ ps }

abbrev pub use_block : ℕ → Report → Report
use_block b r = record r { used = b ∷ r.used }

-- ' ' before the first of a list, ',' before the others
abbrev pub comma : Bool → Piece
comma first = text (if first then " " else ",")

-- The loop of `print_direct_map`, for `k` more from `i` on.
unfoldable pub direct_loop : (ℕ → ℕ) → ℕ → ℕ → Bool → Report → Report
direct_loop addrs zero i first r = r
direct_loop addrs (suc k) i first r = elim (addrs i == 0) [
  | true ↦ direct_loop addrs k (i + 1) first r
  | false ↦ direct_loop addrs k (i + 1) false (
      use_block (addrs i) (
        print
          (comma first
            ∷ text "{\"index\":"
            ∷ number i
            ∷ text ",\"blockno\": "
            ∷ number (addrs i)
            ∷ text "}"
            ∷ [])
          r))
]

unfoldable pub print_direct_map : (ℕ → ℕ) → ℕ → Report → Report
unfolding direct_loop
print_direct_map addrs n r =
    print (text "]" ∷ []) (direct_loop addrs n 0 true (print (text "[" ∷ []) r))

-- the block numbers in a buffer
abbrev pub entries_of : Block → ℕ → ℕ
entries_of d i = get32 d (4 * i)

-- what is printed before a page
abbrev pub page_head : List Piece → Bool → ℕ → Report → Report
page_head head first b r =
    print ((comma first ∷ text "{" ∷ text "\"index_page\": " ∷ number b ∷ text "," ∷ []) ++ head)
      (use_block b r)

-- The loop that the three other maps share, for `k` more pages from `i` on: `head` and `tail` are
-- printed around what `sub` prints of the page, which is held meanwhile.
unfoldable pub pages_loop :
    List Piece → List Piece → ((ℕ → ℕ) → Reporter) → (ℕ → ℕ) → ℕ → ℕ → Bool → Reporter
pages_loop head tail sub addrs zero i first r = pure r
pages_loop head tail sub addrs (suc k) i first r = elim (addrs i == 0) [
  | true ↦ pages_loop head tail sub addrs k (i + 1) first r
  | false ↦ (do
    logged_read (addrs i)
    d ← buf_data (addrs i)
    r2 ← sub (entries_of d) (page_head head first (addrs i) r)
    logged_relse (addrs i)
    pages_loop head tail sub addrs k (i + 1) false (print tail r2))
]

unfoldable pub print_indirect1_map : (ℕ → ℕ) → ℕ → Reporter
unfolding print_direct_map pages_loop
print_indirect1_map addrs n =
    pages_loop (text "\"map_page\": " ∷ []) (text "}" ∷ [])
      (λ page r. pure (print_direct_map page nindirect1 r)) addrs n 0 true

unfoldable pub print_indirect2_map : (ℕ → ℕ) → ℕ → Reporter
print_indirect2_map addrs n =
    pages_loop (text "\"map_pages\": [" ∷ []) (text "]" ∷ text "}" ∷ [])
      (λ page. print_indirect1_map page nindirect1) addrs n 0 true

unfoldable pub print_indirect3_map : (ℕ → ℕ) → ℕ → Reporter
print_indirect3_map addrs n =
    pages_loop (text "\"map_pages\": [" ∷ []) (text "]" ∷ text "}" ∷ [])
      (λ page. print_indirect2_map page nindirect1) addrs n 0 true

-- `dip->addrs`
abbrev pub dinode_addrs : Block → ℕ → ℕ → ℕ
dinode_addrs d inum i = get32 d (dinode_off inum + 68 + 4 * i)

-- `if (dip->addrs[NDIRECT + l]) { printf(key); show(&dip->addrs[NDIRECT + l], 1); }`
abbrev pub tree : Piece → ((ℕ → ℕ) → ℕ → Reporter) → (ℕ → ℕ) → ℕ → Reporter
tree key show addrs l r =
    if addrs (ndirect + l) == 0
    then pure r
    else show (λ i. addrs (ndirect + l + i)) 1 (print (key ∷ []) r)

unfoldable pub output_dinode : Block → ℕ → Reporter
unfolding print_direct_map print_indirect1_map print_indirect2_map print_indirect3_map get_le
output_dinode d inum r = do
  let addrs = dinode_addrs d inum
  let r1 =
      print
        (text "{"
          ∷ text "\"inum\": "
          ∷ number inum
          ∷ text ",\"type\": "
          ∷ number (get_le 2 d (dinode_off inum))
          ∷ text ",\"used_size\": "
          ∷ number (get_le 8 d (dinode_off inum + 8))
          ∷ text ",\"direct\": "
          ∷ [])
        r
  r2 ←
      tree (text ",\"indirect1\": ") print_indirect1_map addrs 0 (print_direct_map addrs ndirect r1)
  r3 ← tree (text ",\"indirect2\": ") print_indirect2_map addrs 1 r2
  r4 ← tree (text ",\"indirect3\": ") print_indirect3_map addrs 2 r3
  pure (print (text "}" ∷ []) r4)

-- `block_used.count(i)`
abbrev pub is_used : ℕ → List ℕ → Bool
is_used b [] = false
is_used b (c ∷ used) = c == b || is_used b used

-- The loop over the data blocks, for `k` more from `i` on.
unfoldable pub leak_loop : BmapCache → ℕ → ℕ → Bool → Report → Report
leak_loop bmap zero i first r = r
leak_loop bmap (suc k) i first r =
    elim (not (bmap_block_statue_get bmap i == 0) && not (is_used i r.used)) [
      | true ↦ leak_loop bmap k (i + 1) false (print (comma first ∷ number i ∷ []) r)
      | false ↦ leak_loop bmap k (i + 1) first r
    ]

-- An `int` counts up to a `uint`.
unfoldable pub count_leakblock : Reporter
unfolding leak_loop
count_leakblock r = do
  m ← state
  let start = sub32 m.sb.size m.sb.nblocks
  let r1 = leak_loop m.bmap (m.sb.size - start) start true (print (text "\"leak\": [" ∷ []) r)
  pure (print (text "]" ∷ []) r1)

-- The loop over the inodes, for `k` more from `inum` on.
unfoldable pub inodes_loop : (Block → ℕ → Reporter) → ℕ → ℕ → Bool → Reporter
inodes_loop filler zero inum first r = pure r
inodes_loop filler (suc k) inum first r = do
  m ← state
  let bp = iblock m.sb inum
  logged_read bp
  d ← buf_data bp
  let rest =
      λ (first : Bool) (r : Report). logged_relse bp >> inodes_loop filler k (inum + 1) first r
  elim (get_le 2 d (dinode_off inum) == t_unuse) [
    | true ↦ rest first r
    | false ↦ filler d inum (print (comma first ∷ []) r) >>= rest false
  ]

unfoldable pub count_inodes : (Block → ℕ → Reporter) → Reporter
unfolding inodes_loop
count_inodes filler r = do
  m ← state
  r1 ← inodes_loop filler (m.sb.ninodes - 1) 1 true (print (text "\"files\": [" ∷ []) r)
  pure (print (text "]" ∷ []) r1)

unfoldable pub print_superblock : SuperBlock → Report → Report
print_superblock sb = print (
    text "\"superblock\":{"
    ∷ text "\"size_in_blocks\": "
    ∷ number sb.size
    ∷ text ",\"block_size\": "
    ∷ number bsize
    ∷ text ",\"ndata_blocks\": "
    ∷ number sb.nblocks
    ∷ text ",\"nlog_blocks\": "
    ∷ number sb.nlog
    ∷ text ",\"ninode_blocks\": "
    ∷ number sb.ninodes
    ∷ text ",\"logstart\": "
    ∷ number sb.logstart
    ∷ text ",\"inodestart\": "
    ∷ number sb.inodestart
    ∷ text ",\"bmapstart\": "
    ∷ number sb.bmapstart
    ∷ text "}"
    ∷ [])

-- `disk_init`, after `block_device_init`
unfoldable pub disk_init : Cmd (Unit {0})
unfolding superblock_of
disk_init = do
  m ← state
  let sb = superblock_of (m.disk superblock_id)
  modify (λ m. record m { sb = sb })
  if not (sb.magic == fsmagic) then err_exit else pure tt
  empty_cache
  log_init sb
  inode_init sb
  file_init

-- `main`, with the path of the disk given.
unfoldable pub diagnose : Cmd Report
unfolding disk_init print_superblock count_inodes output_dinode count_leakblock
diagnose = do
  disk_init
  m ← state
  let r = print_superblock m.sb (record { printed = text "{" ∷ []; used = [] })
  r1 ← count_inodes output_dinode (print (text "," ∷ []) r)
  r2 ← count_leakblock (print (text "," ∷ []) r1)
  pure (print (text "}" ∷ []) r2)
