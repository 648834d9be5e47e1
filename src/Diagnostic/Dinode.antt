-- ===== src/Diagnostic/Dinode.antt =====
-- `output_dinode` and `count_leakblock` (src/diagnostic/disk-diagnostic.cc): exactly the blocks that
-- are in use and in no file are reported.
use myfuse.Common.{
  ℕ, suc, ◌+◌, ◌-◌, ◌^◌, ◌≤◌, ◌<◌, ◌≡◌, ◌⊎◌, ◌∙◌, refl, ap, Bool, true, false, not, ◌&&◌, ◌==◌, ltb,
  leb, arith, inl, inr, Bool-cases, List, [], ◌∷◌, ◌++◌,
}
use myfuse.Params.{ndirect, nindirect1}
use myfuse.Machine.{Machine, pure, Returns, returns, Returns-then, Returns-weaken, ◌>>=◌}
use myfuse.Machine.Block.{Block}
use myfuse.Machine.Buffer.{view}
use myfuse.Alloc.{bmap_block_statue_get}
use myfuse.Inode.Walk.{Looked, Looked-refl, Looked-trans}
use myfuse.Diagnostic.{
  Piece, text, Report, Reporter, print, is_used, print_direct_map, print_indirect1_map,
  print_indirect2_map, print_indirect3_map, tree, dinode_addrs, output_dinode, count_leakblock,
}
use myfuse.Diagnostic.Below.{Below, Adds, Adds-same, Adds-then}
use myfuse.Diagnostic.Collect.{
  Unheld, Collects, direct_loop-Adds, print_direct_map-Collects, pages_loop-Adds,
}
use myfuse.Diagnostic.Leaks.{mentions, is_leak, and-false, count_leakblock-leaks}

-- Block `b` is a block of the file: one that the dinode names, or one below those at the levels of
-- its three indirect addresses, the blocks of block numbers included.
abbrev pub OnFile : (ℕ → Block) → (ℕ → ℕ) → ℕ → Type 0
OnFile v addrs b =
    ((Below 0 v addrs 0 ndirect b ⊎ Below 1 v (λ i. addrs (ndirect + 0 + i)) 0 1 b)
      ⊎ Below 2 v (λ i. addrs (ndirect + 1 + i)) 0 1 b)
    ⊎ Below 3 v (λ i. addrs (ndirect + 2 + i)) 0 1 b

-- A block is named, if it is a data block in use that was not listed and is not of the file, and not
-- named otherwise.
pub data Judged (in_use listed : Bool) (on_file : Type 0) : Bool → Type 0 where
  leaked : in_use ≡ true → listed ≡ false → (¬ on_file) → Judged in_use listed on_file true
  accounted : (in_use ≡ false) ⊎ (listed ≡ true) ⊎ on_file → Judged in_use listed on_file false

clash : {a : Bool} → a ≡ true → a ≡ false → ⊥
clash t f = cc (t, f)

not_true : (a : Bool) → ¬ (a ≡ true) → a ≡ false
not_true true h = absurd (h refl)
not_true false h = refl

judge :
    (low high free : Bool) {listed listed' named : Bool} {on_file : Type 0}
    → named ≡ (low && high && (not free && not listed'))
    → (listed ≡ true → listed' ≡ true)
    → (on_file → listed' ≡ true)
    → (listed' ≡ true → (listed ≡ true) ⊎ on_file)
    → Judged (low && high && not free) listed on_file named
judge low high free {listed} {listed'} e grows adds only = elim (Bool-cases listed') [
  | inl used ↦ rw (e, used, and-false, and-false) (accounted (inr (only used)))
  | inr unused ↦ elim (Bool-cases (low && high && not free)) [
    | inl in_use ↦
        let same : (low && high && (not free && true)) ≡ true = ground (arith, in_use) in
        rw (e, unused, same)
          (leaked in_use (not_true listed (λ h. clash (grows h) unused))
            (λ h. clash (adds h) unused))
    | inr idle ↦
        let same : (low && high && (not free && true)) ≡ false = ground (arith, idle) in
        rw (e, unused, same) (accounted (inl idle))
  ]
]

module _ (v : ℕ → Block) where
  print_indirect1_map-Collects : Collects 1 v (λ page. print_indirect1_map page nindirect1)
  unfolding print_indirect1_map
  print_indirect1_map-Collects held page m r seen locks free =
      pages_loop-Adds v 0 (λ page r. pure (print_direct_map page nindirect1 r))
        (print_direct_map-Collects v) (text "\"map_page\": " ∷ []) (text "}" ∷ []) held page
        nindirect1 0 true m r seen locks free

  print_indirect2_map-Collects : Collects 2 v (λ page. print_indirect2_map page nindirect1)
  unfolding print_indirect2_map
  print_indirect2_map-Collects held page m r seen locks free =
      pages_loop-Adds v 1 (λ page. print_indirect1_map page nindirect1) print_indirect1_map-Collects
        (text "\"map_pages\": [" ∷ []) (text "]" ∷ text "}" ∷ []) held page nindirect1 0 true m r
        seen locks free

  -- One of the three trees, with its key.
  module _ (l : ℕ) (show : (ℕ → ℕ) → ℕ → Reporter)
      (one : (held : ℕ → Bool) (page : ℕ → ℕ) (m : Machine) (r : Report)
        → view m ≡ v
        → ((b : ℕ) → (m.bufs b).locked ≡ held b)
        → Unheld (suc l) v held page 0 1
        → Returns
            (λ r' m'. Looked m m' × Adds (Below (suc l) v page 0 1) r.used r'.used)
            (show page 1 r m)) where
    tree-Adds :
        (key : Piece) (addrs : ℕ → ℕ) (t : ℕ) (held : ℕ → Bool) (m : Machine) (r : Report)
        → view m ≡ v
        → ((b : ℕ) → (m.bufs b).locked ≡ held b)
        → Unheld (suc l) v held (λ i. addrs (ndirect + t + i)) 0 1
        → Returns
            (λ r' m'.
              Looked m m'
              × Adds (Below (suc l) v (λ i. addrs (ndirect + t + i)) 0 1) r.used r'.used)
            (tree key show addrs t r m)
    tree-Adds key addrs t held m r seen locks free = elim (Bool-cases (addrs (ndirect + t) == 0)) [
      | inl none ↦ rw none (
          returns (
            Looked-refl m,
            Adds-same (λ b (j, low, high, there, tree).
                let q : ndirect + t + j ≡ ndirect + t = omega (arith, high) in
                let z : addrs (ndirect + t) ≡ 0 = ground (arith, none) in there (ap addrs q ∙ z)),
          ))
      | inr some ↦ rw some (
          Returns-weaken
            (one held (λ i. addrs (ndirect + t + i)) m (print (key ∷ []) r) seen locks free)
            (λ r' m' (looked, adds). (looked, adds)))
    ]

  -- the trees of a dinode
  module _ (d : Block) (inum : ℕ) (held : ℕ → Bool)
      (free1 : Unheld 1 v held (λ i. dinode_addrs d inum (ndirect + 0 + i)) 0 1)
      (free2 : Unheld 2 v held (λ i. dinode_addrs d inum (ndirect + 1 + i)) 0 1)
      (free3 : Unheld 3 v held (λ i. dinode_addrs d inum (ndirect + 2 + i)) 0 1) where
    output_dinode-Adds :
        (m : Machine) (r : Report)
        → view m ≡ v
        → ((b : ℕ) → (m.bufs b).locked ≡ held b)
        → Returns
            (λ r' m'. Looked m m' × Adds (OnFile v (dinode_addrs d inum)) r.used r'.used)
            (output_dinode d inum r m)
    unfolding output_dinode print_indirect1_map print_indirect2_map print_indirect3_map
        print_direct_map
    output_dinode-Adds m r seen locks =
        let addrs = dinode_addrs d inum in
        Returns-then
          (tree-Adds 0 print_indirect1_map
            (λ held page m r s l f.
              pages_loop-Adds v 0 (λ page r. pure (print_direct_map page nindirect1 r))
                (print_direct_map-Collects v) (text "\"map_page\": " ∷ []) (text "}" ∷ []) held page
                1 0 true m r s l f)
            (text ",\"indirect1\": ") addrs 0 held m _ seen locks free1)
          (λ r1 m1 (looked1, adds1).
            Returns-then
              (tree-Adds 1 print_indirect2_map
                (λ held page m r s l f.
                  pages_loop-Adds v 1 (λ page. print_indirect1_map page nindirect1)
                    print_indirect1_map-Collects (text "\"map_pages\": [" ∷ [])
                    (text "]" ∷ text "}" ∷ []) held page 1 0 true m r s l f)
                (text ",\"indirect2\": ") addrs 1 held m1 r1 (looked1.seen ∙ seen)
                (λ b. looked1.locks b ∙ locks b) free2)
              (λ r2 m2 (looked2, adds2).
                Returns-then
                  (tree-Adds 2 print_indirect3_map
                    (λ held page m r s l f.
                      pages_loop-Adds v 2 (λ page. print_indirect2_map page nindirect1)
                        print_indirect2_map-Collects (text "\"map_pages\": [" ∷ [])
                        (text "]" ∷ text "}" ∷ []) held page 1 0 true m r s l f)
                    (text ",\"indirect3\": ") addrs 2 held m2 r2
                    (looked2.seen ∙ looked1.seen ∙ seen)
                    (λ b. looked2.locks b ∙ looked1.locks b ∙ locks b) free3)
                  (λ r3 m3 (looked3, adds3). returns (
                    Looked-trans looked1 (Looked-trans looked2 looked3),
                    Adds-then
                        (Adds-then (Adds-then (direct_loop-Adds v addrs ndirect 0 true _) adds1)
                          adds2)
                        adds3,
                  ))))

module _ (m : Machine) (d : Block) (inum : ℕ)
    (free1 : Unheld 1
      (view m)
      (λ b. (m.bufs b).locked)
      (λ i. dinode_addrs d inum (ndirect + 0 + i))
      0
      1)
    (free2 : Unheld 2
      (view m)
      (λ b. (m.bufs b).locked)
      (λ i. dinode_addrs d inum (ndirect + 1 + i))
      0
      1)
    (free3 : Unheld 3
      (view m)
      (λ b. (m.bufs b).locked)
      (λ i. dinode_addrs d inum (ndirect + 2 + i))
      0
      1) where
  -- `output_dinode` returns when no buffer that its walk is to read is held, by the walk itself or
  -- before; `count_leakblock` after it, on a disk of fewer than 2^31 blocks of which at most all are
  -- data blocks, adds to what was printed the numbers of exactly these blocks: data blocks that the
  -- bitmap has in use, that `block_used` did not have before the two calls, and that are no block of
  -- the dinode's file, at whatever level, the blocks of block numbers included. Nothing on the disk or
  -- in a buffer changes.
  pub count_leakblock-output_dinode :
      (r : Report)
      → m.sb.nblocks ≤ m.sb.size
      → m.sb.size < 2 ^ 31
      → Returns
          (λ (rs : Report × Report) m'.
            Looked m m'
            × (added : List Piece) × (rs.1.printed ≡ rs.0.printed ++ added)
            × ((b : ℕ)
                → Judged
                    (leb (m.sb.size - m.sb.nblocks) b
                      && ltb b m.sb.size
                      && not (bmap_block_statue_get m.bmap b == 0))
                    (is_used b r.used)
                    (OnFile (view m) (dinode_addrs d inum) b)
                    (mentions b added)))
          ((do r1 ← output_dinode d inum r; r2 ← count_leakblock r1; pure (r1, r2)) m)
  count_leakblock-output_dinode r fits word =
      Returns-then
        (output_dinode-Adds (view m) d inum (λ b. (m.bufs b).locked) free1 free2 free3 m r refl
          (λ b. refl))
        (λ r1 m1 (looked, adds).
          let sb : m1.sb ≡ m.sb = ap (λ (x : Machine). x.sb) looked.same in
          let (added, run, lists) = count_leakblock-leaks m1 r1 (rw sb fits) (rw sb word) in
          rw run (
            returns (
              looked,
              added,
              refl,
              λ b.
                  judge (leb (m.sb.size - m.sb.nblocks) b) (ltb b m.sb.size)
                    (bmap_block_statue_get m.bmap b == 0)
                    (lists b
                      ∙ ap
                          (λ (x : Machine).
                            leb (x.sb.size - x.sb.nblocks) b
                            && ltb b x.sb.size
                            && is_leak x.bmap r1.used b)
                          looked.same)
                    (adds.grows b) (adds.adds b) (adds.only b),
            )))
