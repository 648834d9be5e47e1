-- ===== src/File/Slots.antt =====
-- Which slot of the file table `filealloc` (src/file.c) takes, and how a file is opened.
use myfuse.Common.{
  ℕ, zero, suc, ◌+◌, ◌*◌, ◌/◌, ◌%◌, ◌^◌, ◌≤◌, ◌<◌, ◌≡◌, ◌≢◌, ◌⊎◌, refl, sym, ap, true, false, ◌==◌,
  ◌&&◌, leb, ltb, inl, inr, Bool-cases, Option-cases, some, none, arith, update, if◌then◌else◌,
}
use myfuse.Machine.{Machine, File, ok}
use myfuse.File.Table.{no_file, find_file, take_slot, ftable_grow, filealloc}
use myfuse.File.Errno.{in_mask}
use myfuse.File.Open.{access_of}

find_file-some :
    (files : ℕ → File) (k i f : ℕ)
    → find_file files k i ≡ some f
    → (i ≤ f) × (f < i + k) × ((files f).ref ≡ 0)
unfolding find_file
find_file-some files zero i f e = cc e
find_file-some files (suc k) i f e = elim (Bool-cases ((files i).ref == 0)) [
  | inl free ↦
      let e' = rw free at e in
      let same : i ≡ f = cc e' in
      let at : (files f).ref ≡ (files i).ref = ap (λ j. (files j).ref) (sym same) in
      (omega (arith, same), omega (arith, same), ground arith)
  | inr used ↦
      let e' = rw used at e in
      let (low, high, free) = find_file-some files k (i + 1) f e' in
      (omega (arith, low), omega (arith, high), free)
]

find_file-none :
    (files : ℕ → File) (k i : ℕ)
    → find_file files k i ≡ none
    → (g : ℕ) → i ≤ g
    → g < i + k
    → (files g).ref ≢ 0
unfolding find_file
find_file-none files zero i e g low high = absurd (omega arith)
find_file-none files (suc k) i e g low high = elim (Bool-cases ((files i).ref == 0)) [
  | inl free ↦ let e' = rw free at e in cc e'
  | inr used ↦
      let e' = rw used at e in
      elim (Bool-cases (g == i)) [
        | inl here ↦
            let same : g ≡ i = ground arith in
            let at = ap (λ j. (files j).ref) same in
            let z : (files i).ref ≢ 0 = ground arith in rw at z
        | inr later ↦
            let apart : g ≢ i = ground arith in
            find_file-none files k (i + 1) e' g (omega arith) (omega arith)
      ]
]

-- What `filealloc` gives: a free slot with its other fields as they were, `off` included; or, when
-- every slot has a reference, the first of as many new ones.
pub data IsAllocated (m m' : Machine) (f : ℕ) : Type 0 where
  reused :
      f < m.nfile
      → (m.files f).ref ≡ 0
      → m'.files f ≡ record (m.files f) { ref = 1 }
      → m'.nfile ≡ m.nfile
      → IsAllocated m m' f
  grown :
      ((g : ℕ) → (m.nfile ≤ g) ⊎ ((m.files g).ref ≢ 0))
      → f ≡ m.nfile
      → m'.files f ≡ record no_file { ref = 1 }
      → m'.nfile ≡ m.nfile * 2
      → IsAllocated m m' f

-- A file table that can grow always has a slot for another file, and no open file is changed: the
-- slot taken was free or is new, has one reference, and all other slots of the table are as before.
-- A slot that is taken again keeps the offset of its last file.
pub filealloc-IsAllocated :
    (m : Machine)
    → 0 < m.nfile
    → m.nfile < 2 ^ 31
    → (f : ℕ) × (m' : Machine) × (filealloc m ≡ ok f m')
      × IsAllocated m m' f
      × ((g : ℕ) → (g ≡ f) ⊎ (m.nfile ≤ g) ⊎ (m'.files g ≡ m.files g))
unfolding filealloc take_slot ftable_grow
filealloc-IsAllocated m some_slot few = elim (Option-cases (find_file m.files m.nfile 0)) [
  | inr (f, found) ↦
      let (low, high, free) = find_file-some m.files m.nfile 0 f found in
      let hit : (f == f) ≡ true = ground arith in
      (
        f,
        record m { files = update m.files f (record (m.files f) { ref = 1 }) },
        ap (λ o. take_slot o m) found,
        reused (omega arith) free (rw hit refl) refl,
        λ g. elim (Bool-cases (f == g)) [
          | inl here ↦ let q : g ≡ f = ground arith in inl q
          | inr away ↦ inr (inr (rw away refl))
        ],
      )
  | inl full ↦
      let f = m.nfile * 2 % 2 ^ 32 / 2 in
      let twice : m.nfile * 2 % 2 ^ 32 ≡ m.nfile * 2 = omega arith in
      let at_end : f ≡ m.nfile = omega arith in
      let new : ℕ → File =
        λ i. if leb f i && ltb i (m.nfile * 2 % 2 ^ 32) then no_file else m.files i in
      let hit : (f == f) ≡ true = ground arith in
      let fresh : (leb f f && ltb f (m.nfile * 2 % 2 ^ 32)) ≡ true = ground arith in
      (
        f,
        record m {
          files = update new f (record (new f) { ref = 1 });
          nfile = m.nfile * 2 % 2 ^ 32;
        },
        ap (λ o. take_slot o m) full,
        grown
            (λ g. elim (Bool-cases (leb m.nfile g)) [
              | inl beyond ↦ inl (ground arith)
              | inr below ↦
                  inr (find_file-none m.files m.nfile 0 full g (omega arith) (ground arith))
            ])
            at_end (rw (hit, fresh) refl) twice,
        λ g. elim (Bool-cases (f == g)) [
          | inl here ↦ let q : g ≡ f = ground arith in inl q
          | inr away ↦ elim (Bool-cases (leb m.nfile g)) [
            | inl beyond ↦ inr (inl (ground arith))
            | inr below ↦
                let old : (leb f g && ltb g (m.nfile * 2 % 2 ^ 32)) ≡ false = ground arith in
                inr (inr (rw (away, old) refl))
          ]
        ],
      )
]

-- The access that `myfuse_open` gives is that of no flag: O_RDONLY is 0, so that its test never
-- holds. A file that is opened for reading only can be written, and so can every file that is opened;
-- it can be read unless bit 0 (O_WRONLY) is set.
access_of-writable : (flags : ℕ) → access_of flags ≡ (flags % 2 == 0, true)
unfolding access_of in_mask
access_of-writable flags = elim (Bool-cases (flags / 1 % 2 == 1)) [
  | inl write_only ↦ let odd : (flags % 2 == 0) ≡ false = ground arith in rw (write_only, odd) refl
  | inr other ↦
      let even : (flags % 2 == 0) ≡ true = ground arith in
      elim (Bool-cases (flags / 2 % 2 == 1)) [
        | inl both ↦ rw (other, even, both) refl
        | inr neither ↦ rw (other, even, neither) refl
      ]
]
