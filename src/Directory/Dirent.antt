-- ===== src/Directory/Dirent.antt =====
-- The entry that `dirlink` writes, as `dirlookup` reads it (src/directory.c).
use native.Mathlib.Decide.{dec_lt}
use myfuse.Common.{
  ℕ, zero, suc, ◌+◌, ◌^◌, ◌≤◌, ◌<◌, ◌≡◌, ◌≢◌, refl, ◌∙◌, true, false, arith, ◌==◌, ltb, inl, inr,
  Bool-cases, some,
}
use myfuse.Params.{dirsize, direntsize}
use myfuse.Machine.{Machine, ok}
use myfuse.Machine.Block.{Block, get32, set32, copy_bytes, get32-set32_self}
use myfuse.Directory.Path.{same_name, dirnamecmp}
use myfuse.Directory.Entries.{name_at, strncpy, dirent_of, find_entry}

-- Up to its first NUL a name is copied as it is.
strncpy-at :
    (name : Block) (k i j : ℕ)
    → i ≤ j
    → j < i + k
    → ((t : ℕ) → i ≤ t → t < j → name t ≢ 0)
    → strncpy name k i j ≡ name j
unfolding strncpy
strncpy-at name zero i j h h' n = absurd (omega arith)
strncpy-at name (suc k) i j h h' n = elim (dec_lt i j) [
  | yes later ↦
      let more : (name i == 0) ≡ false = let q = n i (omega arith) later in ground arith in
      let miss : (j == i) ≡ false = ground arith in
      rw (more, miss)
        (strncpy-at name k (i + 1) j (omega arith) (omega arith) (λ t a b. n t (omega arith) b))
  | no here ↦ let e : j ≡ i = omega arith in rw e (ground arith)
]

-- Two names that agree up to the first NUL are the same to `strncmp`.
same_name-agree :
    (a name : Block) (k i : ℕ)
    → ((t : ℕ) → t < i → name t ≢ 0)
    → ((j : ℕ) → j < i + k → ((t : ℕ) → t < j → name t ≢ 0) → a j ≡ name j)
    → same_name k i a name ≡ true
unfolding same_name
same_name-agree a name zero i before agree = refl
same_name-agree a name (suc k) i before agree =
    let here = agree i (omega arith) before in
    elim (Bool-cases (name i == 0)) [
      | inl stop ↦ rw (here, stop) (ground arith)
      | inr more ↦
          let same : (name i == name i) ≡ true = ground arith in
          rw (here, more, same)
            (same_name-agree a name k (i + 1)
              (λ t h. elim (dec_lt t i) [
                | yes p ↦ before t p
                | no p ↦ let e : t ≡ i = omega arith in rw e (ground arith)
              ])
              (λ j h g. agree j (omega arith) g))
    ]

entry_name :
    (name : Block) (inum j : ℕ)
    → j < dirsize
    → name_at (dirent_of name inum) 0 j ≡ strncpy name dirsize 0 j
unfolding dirent_of set32 copy_bytes
entry_name name inum j h =
    let o1 : (4 + j == 0) ≡ false = ground arith in
    let e : 0 + 4 + j ≡ 4 + j = omega arith in rw e (ground arith)

-- For every name and every inode number, the entry that `dirlink` makes has that number, and its
-- name compares equal to the one given; so `dirlookup`, at a first entry with these bytes whose number
-- is not 0, stops with that number.
pub find_entry-dirent_of :
    (name : Block) (inum size k : ℕ) (m : Machine)
    → inum < 2 ^ 32
    → inum ≢ 0
    → direntsize ≤ size
    → (get32 (dirent_of name inum) 0 ≡ inum)
      × (dirnamecmp (name_at (dirent_of name inum) 0) name ≡ true)
      × (find_entry (dirent_of name inum) size name (suc k) 0 m ≡ ok (some (0, inum)) m)
unfolding dirent_of find_entry dirnamecmp
find_entry-dirent_of name inum size k m word some_inode long =
    let number : get32 (dirent_of name inum) 0 ≡ inum = get32-set32_self _ 0 inum word in
    let cmp : same_name dirsize 0 (name_at (dirent_of name inum) 0) name ≡ true =
      same_name-agree (name_at (dirent_of name inum) 0) name dirsize 0 (λ t h. absurd (omega arith))
        λ j h n.
          entry_name name inum j (omega arith)
          ∙ strncpy-at name dirsize 0 j (omega arith) (omega arith) (λ t a b. n t b) in
    let begun : ltb size (0 + 4) ≡ false = ground arith in
    let whole : ltb size (0 + direntsize) ≡ false = ground arith in
    let real : (inum == 0) ≡ false = ground arith in
    (number, cmp, rw (begun, number, real, whole, cmp))
