-- ===== src/Diagnostic/Leaks.antt =====
-- `count_leakblock` (src/diagnostic/disk-diagnostic.cc): the blocks that are printed as leaked.
use myfuse.Common.{
  ℕ, zero, suc, ◌+◌, ◌-◌, ◌^◌, ◌≤◌, ◌<◌, ◌≡◌, ◌∙◌, refl, sym, ap, Bool, true, false, not, ◌==◌,
  ◌&&◌, ◌||◌, sub32, ltb, leb, List, [], ◌∷◌, ◌++◌, append-nil, append_assoc, arith, inl, inr,
  Bool-cases,
}
use myfuse.Machine.{Machine, BmapCache, ok}
use myfuse.Alloc.{bmap_block_statue_get}
use myfuse.Diagnostic.{
  Piece, text, number, Report, comma, print, is_used, leak_loop, count_leakblock,
}

-- Is the number among the pieces?
abbrev pub mentions : ℕ → List Piece → Bool
mentions b [] = false
mentions b (text s ∷ ps) = mentions b ps
mentions b (number i ∷ ps) = i == b || mentions b ps

pub mentions-append :
    (b : ℕ) (ps qs : List Piece) → mentions b (ps ++ qs) ≡ (mentions b ps || mentions b qs)
mentions-append b [] qs = refl
mentions-append b (text s ∷ ps) qs = mentions-append b ps qs
mentions-append b (number i ∷ ps) qs = ground (arith, mentions-append b ps qs)

-- in use by the bitmap, and in no file that was printed
abbrev pub is_leak : BmapCache → List ℕ → ℕ → Bool
is_leak bmap used b = not (bmap_block_statue_get bmap b == 0) && not (is_used b used)

-- the report with nothing printed
abbrev unprinted : Report → Report
unprinted r = record r { printed = [] }

or-true : (a : Bool) → (a || true) ≡ true
or-true true = refl
or-true false = refl

pub or-false : (a : Bool) → (a || false) ≡ a
or-false true = refl
or-false false = refl

pub and-false : (a : Bool) → (a && false) ≡ false
and-false true = refl
and-false false = refl

module _ (bmap : BmapCache) where
  leak_step :
      (k i : ℕ) (first : Bool) (r : Report)
      → is_leak bmap r.used i ≡ true
      → leak_loop bmap (suc k) i first r
        ≡ leak_loop bmap k (i + 1) false (print (comma first ∷ number i ∷ []) r)
  unfolding leak_loop
  leak_step k i first r leak = rw (leak_loop, leak) refl

  kept_step :
      (k i : ℕ) (first : Bool) (r : Report)
      → is_leak bmap r.used i ≡ false
      → leak_loop bmap (suc k) i first r ≡ leak_loop bmap k (i + 1) first r
  unfolding leak_loop
  kept_step k i first r kept = rw (leak_loop, kept) refl

  module _ (b k i : ℕ) (listed leak_b : Bool) where
    -- A block that is a leak is listed, and the rest of the range follows.
    round-leak :
        (i ≡ b → leak_b ≡ true)
        → ((listed || (i == b || false)) || (leb (i + 1) b && ltb b (i + 1 + k) && leak_b))
          ≡ (listed || (leb i b && ltb b (i + suc k) && leak_b))
    round-leak h = elim (Bool-cases (i == b)) [
      | inl here ↦
          let q : i ≡ b = ground arith in
          let l = h q in
          let low : leb i b ≡ true = ground arith in
          let high : ltb b (i + suc k) ≡ true = ground arith in
          rw (here, l, low, high, or-true listed) refl
      | inr away ↦
          let low : leb (i + 1) b ≡ leb i b = ground arith in
          let high : ltb b (i + 1 + k) ≡ ltb b (i + suc k) = ground arith in
          rw (away, low, high, or-false listed) refl
    ]

    round-kept :
        (i ≡ b → leak_b ≡ false)
        → (listed || (leb (i + 1) b && ltb b (i + 1 + k) && leak_b))
          ≡ (listed || (leb i b && ltb b (i + suc k) && leak_b))
    round-kept h = elim (Bool-cases (i == b)) [
      | inl here ↦ let q : i ≡ b = ground arith in let l = h q in rw (l, and-false, and-false) refl
      | inr away ↦
          let low : leb (i + 1) b ≡ leb i b = ground arith in
          let high : ltb b (i + 1 + k) ≡ ltb b (i + suc k) = ground arith in rw (low, high) refl
    ]

  leak_loop-mentions :
      (b k i : ℕ) (first : Bool) (r : Report)
      → mentions b (leak_loop bmap k i first r).printed
        ≡ (mentions b r.printed || (leb i b && ltb b (i + k) && is_leak bmap r.used b))
  unfolding leak_loop
  leak_loop-mentions b zero i first r =
      let none : (leb i b && ltb b (i + 0)) ≡ false = ground arith in rw none (sym (or-false _))
  leak_loop-mentions b (suc k) i first r = elim (Bool-cases (is_leak bmap r.used i)) [
    | inl leak ↦
        ap (λ (x : Report). mentions b x.printed) (leak_step k i first r leak)
        ∙ leak_loop-mentions b k (i + 1) false (print (comma first ∷ number i ∷ []) r)
        ∙ ap (λ x. x || (leb (i + 1) b && ltb b (i + 1 + k) && is_leak bmap r.used b))
            (mentions-append b r.printed (comma first ∷ number i ∷ []))
        ∙ round-leak b k i (mentions b r.printed) (is_leak bmap r.used b)
            (λ q. sym (ap (is_leak bmap r.used) q) ∙ leak)
    | inr kept ↦
        ap (λ (x : Report). mentions b x.printed) (kept_step k i first r kept)
        ∙ leak_loop-mentions b k (i + 1) first r
        ∙ round-kept b k i (mentions b r.printed) (is_leak bmap r.used b)
            (λ q. sym (ap (is_leak bmap r.used) q) ∙ kept)
  ]

  -- The loop prints the same whatever was printed before.
  leak_loop-printed :
      (k i : ℕ) (first : Bool) (r : Report)
      → leak_loop bmap k i first r ≡ print (leak_loop bmap k i first (unprinted r)).printed r
  unfolding leak_loop
  leak_loop-printed zero i first r =
      ap (λ ps. record { printed = ps; used = r.used }) (sym (append-nil r.printed))
  leak_loop-printed (suc k) i first r = elim (Bool-cases (is_leak bmap r.used i)) [
    | inl leak ↦
        let ps = comma first ∷ number i ∷ [] in
        let rest = (leak_loop bmap k (i + 1) false (unprinted r)).printed in
        leak_step k i first r leak
        ∙ leak_loop-printed k (i + 1) false (print ps r)
        ∙ ap (λ ps. record { printed = ps; used = r.used }) (append_assoc r.printed ps rest)
        ∙ sym (
            ap (λ (x : Report). print x.printed r)
              (leak_step k i first (unprinted r) leak
                ∙ leak_loop-printed k (i + 1) false (print ps (unprinted r))))
    | inr kept ↦
        kept_step k i first r kept
        ∙ leak_loop-printed k (i + 1) first r
        ∙ sym (ap (λ (x : Report). print x.printed r) (kept_step k i first (unprinted r) kept))
  ]

-- What `count_leakblock` adds to the report, for a disk of fewer than 2^31 blocks: it names a block
-- exactly if that is a data block that the bitmap has in use and no file that was printed uses. The
-- state does not change.
pub count_leakblock-leaks :
    (m : Machine) (r : Report)
    → m.sb.nblocks ≤ m.sb.size
    → m.sb.size < 2 ^ 31
    → (added : List Piece) × (count_leakblock r m ≡ ok (print added r) m)
      × ((b : ℕ)
          → mentions b added
            ≡ (leb (m.sb.size - m.sb.nblocks) b && ltb b m.sb.size && is_leak m.bmap r.used b))
unfolding count_leakblock
count_leakblock-leaks m r fits word =
    let start : sub32 m.sb.size m.sb.nblocks ≡ m.sb.size - m.sb.nblocks =
      omega (arith, fits, word) in
    let end : m.sb.size - m.sb.nblocks + (m.sb.size - (m.sb.size - m.sb.nblocks)) ≡ m.sb.size =
      omega (arith, fits) in
    let k = m.sb.size - (m.sb.size - m.sb.nblocks) in
    let i = m.sb.size - m.sb.nblocks in
    let key = text "\"leak\": [" ∷ [] in
    let close = text "]" ∷ [] in
    let named = (leak_loop m.bmap k i true (unprinted r)).printed in
    (
      key ++ (named ++ close),
      rw start (
          ap (λ (x : Report). ok (print close x) m)
            (leak_loop-printed m.bmap k i true (print key r))
          ∙ ap (λ ps. ok (record { printed = ps; used = r.used }) m)
              (append_assoc (r.printed ++ key) named close
                ∙ append_assoc r.printed key (named ++ close))),
      λ b.
          mentions-append b named close
          ∙ or-false _
          ∙ leak_loop-mentions m.bmap b k i true (unprinted r)
          ∙ ap (λ e. leb i b && ltb b e && is_leak m.bmap r.used b) end,
    )
