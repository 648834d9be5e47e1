-- ===== src/Inode/Place.antt =====
-- Where `imap2blockno` (src/inode.c) keeps the number of a block of a file.
use myfuse.Common.{ℕ, ◌+◌, ◌-◌, ◌*◌, ◌≤◌, ◌<◌, ◌≡◌, true, arith, inl, inr, Bool-cases, ltb}
use myfuse.Params.{bsize, ndirect, nindirect1, nindirect2, nindirect3, maxfile_size}
use myfuse.Inode.Map.{Place, direct, indirect1, indirect2, indirect3, too_big, place}

-- the block whose number is kept there
abbrev pub block_at : Place → ℕ
block_at (direct i) = i
block_at (indirect1 i) = ndirect + i
block_at (indirect2 i j) = ndirect + nindirect1 + (i * nindirect1 + j)
block_at (indirect3 i j k) =
    ndirect + nindirect1 + nindirect2 + ((i * nindirect1 + j) * nindirect1 + k)
block_at too_big = ndirect + nindirect1 + nindirect2 + nindirect3

-- Every index is within its array: NDIRECT addresses, and the entries of one block.
abbrev pub InRange : Place → Type 0
InRange (direct i) = i < ndirect
InRange (indirect1 i) = i < nindirect1
InRange (indirect2 i j) = (i < nindirect1) × (j < nindirect1)
InRange (indirect3 i j k) = (i < nindirect1) × (j < nindirect1) × (k < nindirect1)
InRange too_big = ⊥

-- A block number below the limit of a file has a place with all indices in range (so that the
-- asserts of `imap2blockno` hold), and the place determines the number: no two blocks of a file
-- share one.
pub place-InRange :
    (bn : ℕ) → bn * bsize < maxfile_size → InRange (place bn) × (block_at (place bn) ≡ bn)
unfolding place
place-InRange bn h = elim (Bool-cases (ltb bn ndirect)) [
  | inl p0 ↦ rw p0 (ground arith)
  | inr n0 ↦ rw n0 (elim (Bool-cases (ltb (bn - ndirect) nindirect1)) [
    | inl p1 ↦ rw p1 (ground arith)
    | inr n1 ↦ rw n1 (elim (Bool-cases (ltb (bn - ndirect - nindirect1) nindirect2)) [
      | inl p2 ↦ rw p2 (ground arith)
      | inr n2 ↦
          let p3 : ltb (bn - ndirect - nindirect1 - nindirect2) nindirect3 ≡ true = ground arith in
          rw (n2, p3) (ground arith)
    ])
  ])
]

-- Beyond the limit, `place` has none.
pub place-too_big : (bn : ℕ) → maxfile_size ≤ bn * bsize → place bn ≡ too_big
unfolding place
place-too_big bn h = ground arith
