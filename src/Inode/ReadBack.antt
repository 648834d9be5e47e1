-- ===== src/Inode/ReadBack.antt =====
-- What a write to a file (`inode_write_nbytes_locked`, src/inode.c) leaves in it, and what a read
-- then gives.
use myfuse.Common.{
  ℕ, ◌+◌, ◌-◌, ◌/◌, ◌%◌, ◌≤◌, ◌<◌, ◌≡◌, ◌⊎◌, ◌∙◌, refl, ap, ltb, arith, inl, inr, Bool-cases,
  fun_ext,
}
use myfuse.Params.{bsize}
use myfuse.Machine.{Machine, Returns, Returns-then, Returns-weaken, ◌>>=◌}
use myfuse.Machine.Block.{Block}
use myfuse.Machine.Buffer.{view}
use myfuse.Inode.Content.{min, inode_write_nbytes_locked, inode_read_nbytes_locked}
use myfuse.Inode.Walk.{walk}
use myfuse.Inode.Update.{home}
use myfuse.Inode.Read.{byte, filled, IsReadable}
use myfuse.Inode.ReadFile.{min_lem, inode_read_nbytes_locked-filled}
use myfuse.Inode.Overwritten.{overwritten, overwritten-inside}
use myfuse.Inode.Separate.{IsSeparate}
use myfuse.Inode.Writing.{Writing, same_way, has_room}
use myfuse.Inode.Rewrite.{HasRoomFor, grown, inode_write_nbytes_locked-Writing}

filled-agree :
    (g h : ℕ → ℕ) (buffer : Block) (n : ℕ)
    → ((i : ℕ) → i < n → g i ≡ h i)
    → filled g buffer n ≡ filled h buffer n
filled-agree g h buffer n same = fun_ext (λ i. elim (Bool-cases (ltb i n)) [
  | inl less ↦ rw less (same i (ground (arith, less)))
  | inr more ↦ rw more refl
])

module _ (m0 : Machine) (ip lim : ℕ) (separate : IsSeparate m0 ip lim) where
  Writing-byte :
      {g : ℕ → ℕ} {s k : ℕ} {m : Machine}
      → Writing m0 ip lim separate g s k m
      → (pos : ℕ) → pos < lim
      → byte m ip pos ≡ g pos
  Writing-byte {m} w pos low =
      ap (λ b. view m b (pos % bsize)) (same_way m0 ip lim separate w pos low).0 ∙ w.bytes pos low

  -- `inode_write_nbytes_locked` of at least one byte returns the count, for a file whose bytes up to
  -- `lim` are mapped by blocks that are apart (each is one block of the file, no indirect block of it,
  -- and not the block of the inode), when the write ends at `lim` at most, no buffer is held, and the
  -- log and the operation have room for four writes more than there are whole blocks in the count.
  -- Of the bytes up to `lim`, those written are the array's and the others are as before; the size is
  -- the end of the write, if that is larger; only blocks of the file and the inode's block show
  -- anything else.
  pub inode_write_nbytes_locked-overwritten :
      (bytes : Block) (nbytes off : ℕ)
      → 0 < nbytes
      → off + nbytes ≤ lim
      → HasRoomFor (nbytes / bsize + 4) m0
      → Returns
          (λ r m'.
            (r ≡ nbytes)
            × ((m'.inodes ip).size ≡ grown (m0.inodes ip).size (off + nbytes))
            × ((pos : ℕ)
                → (lim ≤ pos) ⊎ (byte m' ip pos ≡ overwritten (byte m0 ip) off bytes nbytes pos))
            × ((b : ℕ)
                → (b ≡ home ip m0)
                  ⊎ ((p : ℕ) × (p < lim) × (b ≡ walk m0 ip (p / bsize)))
                  ⊎ (view m' b ≡ view m0 b)))
          (inode_write_nbytes_locked ip bytes nbytes off m0)
  inode_write_nbytes_locked-overwritten bytes nbytes off some within room =
      let e : nbytes / bsize + 4 ≡ 0 + 1 + 1 + nbytes / bsize + 1 + 1 = omega arith in
      Returns-weaken
        (inode_write_nbytes_locked-Writing m0 ip lim separate bytes nbytes off 0 some within
          (rw e at room))
        (λ r m' (result, w, _). (
          result,
          w.size,
          λ pos. elim (Bool-cases (ltb pos lim)) [
            | inl low ↦ inr (Writing-byte w pos (ground arith))
            | inr beyond ↦ inl (ground arith)
          ],
          w.elsewhere,
        ))

  -- Under the conditions of `inode_write_nbytes_locked-overwritten`, with room for one write more
  -- and a file of at most `lim` bytes, a read of the bytes that were written, in the same
  -- operation, returns their count and puts them into the reader's array, which is otherwise as
  -- before.
  pub inode_read_nbytes_locked-inode_write_nbytes_locked :
      (bytes buffer : Block) (nbytes off : ℕ)
      → 0 < nbytes
      → off + nbytes ≤ lim
      → (m0.inodes ip).size ≤ lim
      → HasRoomFor (nbytes / bsize + 5) m0
      → Returns
          (λ r m'. (r.0 ≡ nbytes) × (r.1 ≡ filled bytes buffer nbytes))
          ((do
            written ← inode_write_nbytes_locked ip bytes nbytes off
            inode_read_nbytes_locked ip buffer nbytes off)
            m0)
  inode_read_nbytes_locked-inode_write_nbytes_locked bytes buffer nbytes off some within in_file
        room =
      let e : nbytes / bsize + 5 ≡ 1 + 1 + 1 + nbytes / bsize + 1 + 1 = omega arith in
      let fits = separate.fits in
      Returns-then
        (inode_write_nbytes_locked-Writing m0 ip lim separate bytes nbytes off 1 some within
          (rw e at room))
        (λ r m (result, w, _).
          let size = w.size in
          let at_most : (m.inodes ip).size ≤ lim = ground (arith, size, within, in_file) in
          let covers : off + nbytes ≤ (m.inodes ip).size = ground (arith, size) in
          let calm = w.calm in
          let ready : IsReadable m ip = record {
            free = w.free;
            calm = omega (arith, calm);
            fits = omega (arith, at_most, fits);
            mapped = λ pos low. (same_way m0 ip lim separate w pos (omega (arith, low, at_most))).1;
          } in
          let (n_low, n_high, n_is) = min_lem nbytes ((m.inodes ip).size - off) in
          let count : min nbytes ((m.inodes ip).size - off) ≡ nbytes =
            ground (arith, n_low, n_high, n_is, covers) in
          Returns-weaken
            (inode_read_nbytes_locked-filled m ip ready
              (has_room m0 ip lim separate w (omega arith)) buffer nbytes off
              (omega (arith, covers, some)) (omega (arith, within, fits)))
            (λ r' m' (n, got, quiet). (
              n ∙ count,
              got
                  ∙ ap (filled (λ i. byte m ip (off + i)) buffer) (n ∙ count)
                  ∙ filled-agree _ bytes buffer nbytes (λ i less.
                    Writing-byte w (off + i) (omega (arith, less, within))
                    ∙ overwritten-inside (byte m0 ip) off bytes nbytes i less),
            )))
