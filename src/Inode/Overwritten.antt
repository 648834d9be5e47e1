-- ===== src/Inode/Overwritten.antt =====
-- A stretch of bytes overwritten, as `inode_write_nbytes_locked` (src/inode.c) does block by block.
use myfuse.Common.{
  ℕ, ◌+◌, ◌-◌, ◌<◌, ◌≡◌, ◌∙◌, refl, sym, true, false, ◌&&◌, ltb, leb, if◌then◌else◌, arith, inl,
  inr, Bool-cases, fun_ext,
}
use myfuse.Machine.Block.{Block, copy_bytes}

-- the bytes `g` with `n` of them, from `off` on, replaced by those of `bytes`
abbrev pub overwritten : (ℕ → ℕ) → ℕ → Block → ℕ → ℕ → ℕ
overwritten g off bytes n pos =
    if leb off pos && ltb pos (off + n) then bytes (pos - off) else g pos

module _ (g : ℕ → ℕ) (off done n : ℕ) (bytes : Block) (pos : ℕ) where
  -- Outside of the `n` bytes more.
  pub overwritten-outside :
      (leb (off + done) pos && ltb pos (off + done + n)) ≡ false
      → overwritten g off bytes (done + n) pos ≡ overwritten g off bytes done pos
  overwritten-outside h =
      let e : (leb off pos && ltb pos (off + (done + n))) ≡ (leb off pos && ltb pos (off + done)) =
        ground (arith, h) in
      rw e refl

  -- In the block of those bytes: byte `j` of it.
  pub copy_bytes-overwritten :
      (d : Block) (base to j : ℕ)
      → d j ≡ overwritten g off bytes done pos
      → pos ≡ base + j
      → off + done ≡ base + to
      → copy_bytes d to bytes done n j ≡ overwritten g off bytes (done + n) pos
  unfolding copy_bytes
  copy_bytes-overwritten d base to j old at from = elim (Bool-cases (leb to j && ltb j (to + n))) [
    | inl inside ↦
        let e : (leb off pos && ltb pos (off + (done + n))) ≡ true =
          ground (arith, inside, at, from) in
        let f : done + (j - to) ≡ pos - off = ground (arith, inside, at, from) in
        rw (inside, e, f) refl
    | inr outside ↦
        let h : (leb (off + done) pos && ltb pos (off + done + n)) ≡ false =
          ground (arith, outside, at, from) in
        rw outside (old ∙ sym (overwritten-outside h))
  ]

pub overwritten-zero : (g : ℕ → ℕ) (off : ℕ) (bytes : Block) → overwritten g off bytes 0 ≡ g
overwritten-zero g off bytes =
    fun_ext
      (λ pos. let no : (leb off pos && ltb pos (off + 0)) ≡ false = ground arith in rw no refl)

pub overwritten-inside :
    (g : ℕ → ℕ) (off : ℕ) (bytes : Block) (n i : ℕ)
    → i < n
    → overwritten g off bytes n (off + i) ≡ bytes i
overwritten-inside g off bytes n i less =
    let e : (leb off (off + i) && ltb (off + i) (off + n)) ≡ true = ground (arith, less) in
    let f : off + i - off ≡ i = omega arith in rw (e, f) refl
