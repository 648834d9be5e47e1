-- ===== src/Inode/WriteBlock.antt =====
-- One block of a file written (`inode_write_nbytes_locked`, src/inode.c).
use myfuse.Common.{
  ℕ, ◌+◌, ◌*◌, ◌/◌, ◌%◌, ◌≤◌, ◌<◌, ◌≡◌, ◌≢◌, ◌∙◌, sym, ap, true, false, ◌&&◌, ◌==◌, ltb, leb, arith,
  inl, inr, Bool-cases, update,
}
use myfuse.Params.{bsize}
use myfuse.Machine.{Machine, Returns, Returns-then, Returns-weaken}
use myfuse.Machine.Block.{Block, copy_bytes}
use myfuse.Machine.Buffer.{view}
use myfuse.Log.Logged.{edit_block-Logged}
use myfuse.Inode.Content.{write_block}
use myfuse.Inode.Walk.{walk, imap2blockno-Looked}
use myfuse.Inode.Overwritten.{overwritten, overwritten-outside, copy_bytes-overwritten}
use myfuse.Inode.Separate.{IsSeparate}
use myfuse.Inode.Writing.{Writing, miss, same_way, has_room, Looked-Writing, Logged-Writing}

module _ (m0 : Machine) (ip lim : ℕ) (separate : IsSeparate m0 ip lim) where
  -- what the blocks of the file show then
  block_bytes :
      {s k : ℕ} {m : Machine} (g : ℕ → ℕ) (off done to n : ℕ) (bytes : Block)
      → Writing m0 ip lim separate (overwritten g off bytes done) s k m
      → (b bn : ℕ) → bn * bsize < lim
      → b ≡ walk m0 ip bn
      → (pos : ℕ) → pos < lim
      → off + done ≡ bn * bsize + to
      → to + n ≤ bsize
      → update
          (view m)
          b
          (copy_bytes (view m b) to bytes done n)
          (walk m0 ip (pos / bsize))
          (pos % bsize)
        ≡ overwritten g off bytes (done + n) pos
  block_bytes {m} g off done to n bytes w b bn low b_is pos low' at fits =
      elim (Bool-cases (pos / bsize == bn)) [
        | inl here ↦
            let q : pos / bsize ≡ bn = ground arith in
            let same : b ≡ walk m0 ip (pos / bsize) = b_is ∙ ap (walk m0 ip) (sym q) in
            let hit : (b == walk m0 ip (pos / bsize)) ≡ true = ground (arith, same) in
            let old = ap (λ c. view m c (pos % bsize)) same ∙ w.bytes pos low' in
            rw hit (
              copy_bytes-overwritten g off done n bytes pos (view m b) (bn * bsize) to (pos % bsize)
                old (omega (arith, q)) at)
        | inr other ↦
            let div : bn * bsize / bsize ≡ bn = omega arith in
            let apart : pos / bsize ≢ bn = ground arith in
            let away : (b == walk m0 ip (pos / bsize)) ≡ false = miss (λ e. apart (
              separate.apart pos (bn * bsize) low' low (sym e ∙ b_is ∙ ap (walk m0 ip) (sym div))
              ∙ div)) in
            let outside : (leb (off + done) pos && ltb pos (off + done + n)) ≡ false =
              ground (arith, at, fits, apart) in
            rw away (w.bytes pos low' ∙ sym (overwritten-outside g off done n bytes pos outside))
      ]

  -- One block is written: the bytes of the file to `off + done`, and `n` more.
  pub write_block-Writing :
      {s k : ℕ} {m : Machine} (g : ℕ → ℕ) (bytes : Block) (off done bn to n : ℕ)
      → Writing m0 ip lim separate (overwritten g off bytes done) s (k + 1) m
      → off + done ≡ bn * bsize + to
      → to + n ≤ bsize
      → bn * bsize < lim
      → Returns
          (λ _ m'. Writing m0 ip lim separate (overwritten g off bytes (done + n)) s k m')
          (write_block ip bn bytes done to n m)
  unfolding write_block
  write_block-Writing {k} {m} g bytes off done bn to n w at fits low =
      let div : bn * bsize / bsize ≡ bn = omega arith in
      let (same, mapped) = same_way m0 ip lim separate w (bn * bsize) low in
      let same' = rw div at same in
      let mapped' = rw div at mapped in
      let calm = w.calm in
      let limit = separate.fits in
      Returns-then
        (imap2blockno-Looked m ip w.free (omega (arith, calm)) bn (omega (arith, low, limit))
          mapped')
        (λ b m1 (e, looked).
          let w1 = Looked-Writing m0 ip lim separate w looked in
          let b_is = e ∙ same' in
          Returns-weaken
            (edit_block-Logged b (λ d. copy_bytes d to bytes done n) m1
              (has_room m0 ip lim separate w1 (omega arith)) (w1.free b))
            (λ _ m' logged.
              Logged-Writing m0 ip lim separate (overwritten g off bytes (done + n)) w1 logged
                (inr (bn * bsize, low, b_is ∙ ap (walk m0 ip) (sym div)))
                (λ pos low'. block_bytes g off done to n bytes w1 b bn low b_is pos low' at fits)))
