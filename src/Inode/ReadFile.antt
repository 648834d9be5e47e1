-- ===== src/Inode/ReadFile.antt =====
-- `inode_read_nbytes_locked` (src/inode.c) as a whole.
use mathlib.Core.Path.{subst}
use myfuse.Common.{
  ℕ, ◌+◌, ◌-◌, ◌/◌, ◌%◌, ◌^◌, ◌≤◌, ◌<◌, ◌≡◌, ◌⊎◌, ◌∙◌, refl, ap, true, false, ◌==◌, ltb, leb, arith,
  inl, inr, Bool-cases, update, fun_ext,
}
use myfuse.Params.{bsize}
use myfuse.Machine.{Machine, Returns, returns, Returns-then, Returns-weaken}
use myfuse.Machine.Block.{Block}
use myfuse.Machine.Buffer.{view}
use myfuse.Log.Write.{HasRoom}
use myfuse.Inode.Update.{iupdate-Logged, Logged-others}
use myfuse.Inode.Table.{iblock, iupdate}
use myfuse.Inode.Content.{read_block, min, clip, inode_read_nbytes_locked}
use myfuse.Inode.Walk.{Looked, Looked-refl}
use myfuse.Inode.Read.{
  byte, filled, IsReadable, read_block-filled, read_loop-IsAt, read_last-filled,
}

clip-min :
    (off nbytes limit : ℕ)
    → off ≤ limit
    → limit < 2 ^ 64
    → off + nbytes < 2 ^ 64
    → clip off nbytes limit ≡ min nbytes (limit - off)
unfolding clip min
clip-min off nbytes limit low word short = elim (Bool-cases (ltb limit (off + nbytes))) [
  | inl over ↦
      let e : (off + nbytes) % 2 ^ 64 ≡ off + nbytes = omega arith in rw (e, over) (ground arith)
  | inr in_file ↦
      let e : (off + nbytes) % 2 ^ 64 ≡ off + nbytes = omega arith in rw (e, in_file) (ground arith)
]

pub min_lem : (a b : ℕ) → (min a b ≤ a) × (min a b ≤ b) × ((min a b ≡ a) ⊎ (min a b ≡ b))
unfolding min
min_lem a b = elim (Bool-cases (ltb a b)) [
  | inl less ↦ rw less (omega arith, ground arith, inl refl)
  | inr more ↦ rw more (ground arith, omega arith, inr refl)
]

filled-zero : (g : ℕ → ℕ) (bytes : Block) → filled g bytes 0 ≡ bytes
filled-zero g bytes = fun_ext (λ i. let no : ltb i 0 ≡ false = ground arith in rw no refl)

-- Nothing but the inode's block shows anything else, and the disk is as it was.
abbrev pub Quiet : ℕ → Machine → Machine → Type 0
Quiet ip m m' =
    ((b : ℕ) → (b ≡ iblock m.sb (m.inodes ip).inum) ⊎ (view m' b ≡ view m b)) × (m'.disk ≡ m.disk)

module _ (m0 : Machine) (ip : ℕ) (ready : IsReadable m0 ip) (room : HasRoom m0) where
  -- `iupdate` after a look, with or without a new access time
  iupdate-Quiet :
      (m m1 : Machine)
      → Looked m0 m
      → m1 ≡ record m { inodes = m1.inodes }
      → (m1.inodes ip).inum ≡ (m.inodes ip).inum
      → Returns (λ _ m'. Quiet ip m0 m') (iupdate ip m1)
  iupdate-Quiet m m1 looked same inum =
      let log : m1.log ≡ m0.log =
        ap (λ (x : Machine). x.log) same ∙ ap (λ (x : Machine). x.log) looked.same in
      let sb : m1.sb ≡ m0.sb =
        ap (λ (x : Machine). x.sb) same ∙ ap (λ (x : Machine). x.sb) looked.same in
      let disk : m1.disk ≡ m0.disk =
        ap (λ (x : Machine). x.disk) same ∙ ap (λ (x : Machine). x.disk) looked.same in
      let number : (m1.inodes ip).inum ≡ (m0.inodes ip).inum =
        inum ∙ ap (λ (x : Machine). (x.inodes ip).inum) looked.same in
      let seen : view m1 ≡ view m0 = ap view same ∙ looked.seen in
      let block : iblock m1.sb (m1.inodes ip).inum ≡ iblock m0.sb (m0.inodes ip).inum =
        ap (λ s. iblock s (m1.inodes ip).inum) sb ∙ ap (iblock m0.sb) number in
      let locks : (b : ℕ) → (m1.bufs b).locked ≡ false =
        λ b. ap (λ (x : Machine). (x.bufs b).locked) same ∙ looked.locks b ∙ ready.free b in
      let room1 : HasRoom m1 = record {
        few = rw log room.few;
        room = rw log room.room;
        small = rw log room.small;
        inside = rw log room.inside;
        sane = rw log room.sane;
      } in
      Returns-weaken (iupdate-Logged ip m1 room1 (locks _)) (λ _ m' up. (
        λ b. elim (Logged-others up b) [
          | inl here ↦ inl (here ∙ block)
          | inr away ↦ inr (away ∙ ap (λ v. v b) seen)
        ],
        up.disk ∙ disk,
      ))

  stamp_inum :
      (m : Machine)
      → (update m.inodes ip (record (m.inodes ip) { atime = m.now }) ip).inum ≡ (m.inodes ip).inum
  stamp_inum m = let hit : (ip == ip) ≡ true = ground arith in rw hit refl

  -- the part of the first block
  read_first-filled :
      (bytes : Block) (n off : ℕ)
      → off < (m0.inodes ip).size
      → n ≤ bsize - off % bsize
      → Returns
          (λ d m'. (d ≡ filled (λ i. byte m0 ip (off + i)) bytes n) × Looked m0 m')
          (read_block ip (off / bsize) bytes 0 (off % bsize) n m0)
  read_first-filled bytes n off low small =
      subst
        (λ x.
          Returns (λ d m'. (d ≡ filled (λ i. byte m0 ip (off + i)) bytes n) × Looked m0 m')
            (read_block ip (off / bsize) x 0 (off % bsize) n m0))
        (filled-zero (λ i. byte m0 ip (off + i)) bytes)
        (Returns-weaken
          (read_block-filled m0 ip ready off 0 (off / bsize) (off % bsize) n bytes m0 (omega arith)
            (omega (arith, small)) (omega (arith, low)) (Looked-refl m0))
          (λ d m' (q, l).
            let e : 0 + n ≡ n = omega arith in
            (q ∙ ap (filled (λ i. byte m0 ip (off + i)) bytes) e, l)))

  -- `inode_read_nbytes_locked` returns, for a file of at most MAXFILE_SIZE bytes whose blocks are all
  -- mapped, at whatever level, when no buffer is held, the log has room for one more block, the
  -- operation has logged fewer than MAXOPBLOCKS - 5 writes, the offset is below the size, and the
  -- offset and the count do not overflow. It returns the count, cut at the end of the file. That many
  -- bytes of the caller's array are then those of the file from the offset on, and the others are as
  -- before; no block but the inode's own shows anything else, and nothing is on the disk yet.
  pub inode_read_nbytes_locked-filled :
      (bytes : Block) (nbytes off : ℕ)
      → off < (m0.inodes ip).size
      → off + nbytes < 2 ^ 64
      → Returns
          (λ r m'.
            (r.0 ≡ min nbytes ((m0.inodes ip).size - off))
            × (r.1 ≡ filled (λ i. byte m0 ip (off + i)) bytes r.0)
            × Quiet ip m0 m')
          (inode_read_nbytes_locked ip bytes nbytes off m0)
  unfolding inode_read_nbytes_locked
  inode_read_nbytes_locked-filled bytes nbytes off low short =
      let size = (m0.inodes ip).size in
      let fits = ready.fits in
      let n = min nbytes (size - off) in
      let inside : ltb size off ≡ false = ground arith in
      let cut : clip off nbytes size ≡ n =
        clip-min off nbytes size (omega (arith, low)) (omega (arith, fits)) short in
      let (n_low, n_high, n_is) = min_lem nbytes (size - off) in
      let word : off / bsize % 2 ^ 32 ≡ off / bsize = omega (arith, low, fits) in
      let n_left = bsize - off % bsize in
      let (f_low, f_high, f_is) = min_lem n_left n in
      rw (inside, cut, word)
        (Returns-then (read_first-filled bytes (min n_left n) off low f_low) (λ d m1 (e, looked).
          elim (Bool-cases (leb n n_left)) [
            | inl one ↦
                let whole : min n_left n ≡ n = ground (arith, f_low, f_high, f_is) in
                rw one (
                  Returns-then
                    (iupdate-Quiet m1
                      (record m1 {
                        inodes = update m1.inodes ip (record (m1.inodes ip) { atime = m1.now });
                      })
                      looked refl (stamp_inum m1))
                    (λ _ m2 quiet.
                      returns
                        (refl, e ∙ ap (filled (λ i. byte m0 ip (off + i)) bytes) whole, quiet)))
            | inr many ↦
                let long : n_left < n = ground arith in
                let part : min n_left n ≡ n_left = ground (arith, f_low, f_high, f_is) in
                let next : (off / bsize + 1) % 2 ^ 32 ≡ off / bsize + 1 =
                  omega (arith, low, fits) in
                rw (many, next)
                  (Returns-then
                    (read_loop-IsAt m0 ip ready off bytes (n / bsize) n n_left (off / bsize + 1)
                      (n - n_left) d m1 (omega arith)
                      (record {
                        buffer = e ∙ ap (filled (λ i. byte m0 ip (off + i)) bytes) part;
                        block = omega arith;
                        total = omega (arith, long);
                        some = omega (arith, long);
                        within = omega (arith, n_high, low);
                      })
                      looked)
                    (λ r m2 (at, small, looked2).
                      Returns-then
                        (read_last-filled m0 ip ready off bytes n r.1 r.2 r.3 r.0 m2 at small
                          looked2)
                        (λ d' m3 (e', looked3).
                          Returns-then (iupdate-Quiet m3 m3 looked3 refl refl)
                            (λ _ m4 quiet. returns (refl, e', quiet)))))
          ]))
