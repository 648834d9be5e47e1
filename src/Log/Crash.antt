-- ===== src/Log/Crash.antt =====
-- A crash in the middle of a commit: what is on the disk then.
use mathlib.Core.Path.{subst}
use myfuse.Common.{
  ℕ, ◌+◌, ◌≤◌, ◌<◌, ◌≡◌, sym, ap, ◌∙◌, true, false, [], ◌∷◌, ◌++◌, append-nil, arith, ◌==◌,
  if◌then◌else◌, update, inl, inr, append-cases,
}
use myfuse.Machine.{FsLog, Machine}
use myfuse.Machine.Block.{Block, get32}
use myfuse.Machine.Buffer.{view}
use myfuse.Machine.Effect.{
  Writes, apply_writes, apply_writes-append, writes_to, writes_to-append, apply_writes_other,
}
use myfuse.Log.Header.{log_block}
use myfuse.Log.Loops.{Outside, log_writes}
use myfuse.Log.Images.{
  home_writes, named, writes_to-home, not-named, home_writes-apply, log_writes_apart,
  log_writes-apply,
}
use myfuse.Log.Committing.{Ready, IsHeader, commit_writes}

-- The disk after the commit: the logged blocks have what their buffers held, the others stay.
abbrev pub committed : Machine → ℕ → Block
committed m b = if named m.log.block m.log.n 0 b then view m b else m.disk b

-- Nothing is logged, and every block outside the log is as `old` says.
pub record IsClean (log : FsLog) (old d : ℕ → Block) : Type 0 where
  pub count : get32 (d log.start) 0 ≡ 0
  pub same : (b : ℕ) → Outside log b → d b ≡ old b

-- The header lists the logged blocks, the log has their contents, and only they may have changed.
pub record IsLogged (m : Machine) (d : ℕ → Block) : Type 0 where
  pub listed : IsHeader m.log m.log.n (d m.log.start)
  pub blocks : (i : ℕ) → i < m.log.n → d (log_block m.log.start i) ≡ view m (m.log.block i)
  pub rest : (b : ℕ) → Outside m.log b → named m.log.block m.log.n 0 b ≡ false → d b ≡ m.disk b

pub data Image (m : Machine) (d : ℕ → Block) : Type 0 where
  old : IsClean m.log m.disk d → Image m d
  logged : IsLogged m d → Image m d
  new : IsClean m.log (committed m) d → Image m d

prefix-writes_to :
    (p r w : Writes) (b : ℕ) → p ++ r ≡ w → writes_to b w ≡ false → writes_to b p ≡ false
prefix-writes_to p r w b e h = ground (arith, writes_to-append b p r, ap (writes_to b) e)

module _ (m : Machine) (ready : Ready m) (count : get32 (m.disk m.log.start) 0 ≡ 0) where
  open ready use {fits}

  abbrev to_log : Writes
  to_log = log_writes m.log (view m) m.log.n 0

  abbrev to_home : Writes
  to_home = home_writes m.log.block (view m) m.log.n 0

  to_log_spares : (b : ℕ) → Outside m.log b → writes_to b to_log ≡ false
  to_log_spares b o = log_writes_apart m.log (view m) m.log.n 0 b λ i h h'. omega (arith, fits)

  to_log_spares_start : writes_to m.log.start to_log ≡ false
  to_log_spares_start =
      log_writes_apart m.log (view m) m.log.n 0 m.log.start λ i h h'. omega (arith, fits)

  named_outside :
      (b : ℕ)
      → m.log.start ≤ b
      → b < m.log.start + m.log.size
      → named m.log.block m.log.n 0 b ≡ false
  named_outside b h h' =
      not-named m.log.block m.log.n 0 b λ i p q. omega (arith, fits.outside i p q)

  -- The crash comes before the header is written.
  early : (p r : Writes) → p ++ r ≡ to_log → IsClean m.log m.disk (apply_writes p m.disk)
  early p r e = record {
    count =
        ap (λ d. get32 d 0)
          (apply_writes_other p m.disk m.log.start
            (prefix-writes_to p r to_log m.log.start e to_log_spares_start))
        ∙ count;
    same =
        λ b o. apply_writes_other p m.disk b (prefix-writes_to p r to_log b e (to_log_spares b o));
  }

  with_header : Block → ℕ → Block
  with_header first = update (apply_writes to_log m.disk) m.log.start first

  with_header-Outside : (first : Block) (b : ℕ) → Outside m.log b → with_header first b ≡ m.disk b
  unfolding with_header
  with_header-Outside first b o =
      let miss : (m.log.start == b) ≡ false = ground (arith, fits) in
      rw miss (apply_writes_other to_log m.disk b (to_log_spares b o))

  with_header_start : (first : Block) → with_header first m.log.start ≡ first
  unfolding with_header
  with_header_start first = let hit : (m.log.start == m.log.start) ≡ true = ground arith in rw hit

  with_header_log :
      (first : Block) (i : ℕ)
      → i < m.log.n
      → with_header first (log_block m.log.start i) ≡ view m (m.log.block i)
  unfolding with_header
  with_header_log first i h =
      let miss : (m.log.start == log_block m.log.start i) ≡ false = ground (arith, fits) in
      rw miss (
        log_writes-apply m.log (view m) m.log.n 0 i m.disk (omega arith) (omega arith)
          (omega (arith, fits)))

  -- The crash comes after the header, while the blocks are put in place.
  late :
      (first : Block) (p r : Writes)
      → IsHeader m.log m.log.n first
      → p ++ r ≡ to_home
      → IsLogged m (apply_writes (to_log ++ ((m.log.start, first) ∷ p)) m.disk)
  unfolding with_header
  late first p r head e = record {
    listed =
        subst (IsHeader m.log m.log.n)
          (sym (
            at m.log.start (named_outside m.log.start (omega arith) (omega (arith, fits)))
            ∙ with_header_start first))
          head;
    blocks = λ i h.
        at (log_block m.log.start i)
          (named_outside (log_block m.log.start i) (omega (arith, fits)) (omega (arith, fits)))
        ∙ with_header_log first i h;
    rest = λ b o h. at b h ∙ with_header-Outside first b o;
  }
    where
      at :
          (b : ℕ)
          → named m.log.block m.log.n 0 b ≡ false
          → apply_writes (to_log ++ ((m.log.start, first) ∷ p)) m.disk b ≡ with_header first b
      at b h =
          ap (λ f. f b) (apply_writes-append to_log ((m.log.start, first) ∷ p) m.disk)
          ∙ apply_writes_other p (with_header first) b (
              prefix-writes_to p r to_home b e
                (writes_to-home m.log.block (view m) m.log.n 0 b ∙ h))

  -- The crash comes after the last write.
  pub done :
      (first last : Block)
      → IsHeader m.log 0 last
      → IsClean m.log (committed m) (apply_writes (commit_writes m first last) m.disk)
  unfolding with_header
  done first last head = record {
    count = rw (whole m.log.start, hit) head.count;
    same = λ b o.
        let miss : (m.log.start == b) ≡ false = ground (arith, fits) in
        whole b
        ∙ rw miss (
            home_writes-apply m.log.block (view m) m.log.n 0 (with_header first) b
            ∙ ap (λ (d : Block). if named m.log.block m.log.n 0 b then view m b else d)
                (with_header-Outside first b o));
  }
    where
      hit : (m.log.start == m.log.start) ≡ true
      hit = ground arith

      whole :
          (b : ℕ)
          → apply_writes (commit_writes m first last) m.disk b
            ≡ update (apply_writes to_home (with_header first)) m.log.start last b
      whole b =
          ap (λ f. f b)
            (apply_writes-append to_log
                ((m.log.start, first) ∷ (to_home ++ ((m.log.start, last) ∷ []))) m.disk
              ∙ apply_writes-append to_home ((m.log.start, last) ∷ []) (with_header first))

  module _ (first last : Block) (hf : IsHeader m.log m.log.n first)
      (hl : IsHeader m.log 0 last) where
    in_home :
        (p q : Writes)
        → p ++ q ≡ (m.log.start, last) ∷ []
        → Image m (apply_writes (to_log ++ ((m.log.start, first) ∷ (to_home ++ p))) m.disk)
    in_home [] q e = logged (late first (to_home ++ []) [] hf (append-nil _ ∙ append-nil _))
    in_home (x ∷ []) q e =
        let same : x ≡ (m.log.start, last) = cc e in
        subst
          (λ y.
            Image m
              (apply_writes (to_log ++ ((m.log.start, first) ∷ (to_home ++ (y ∷ [])))) m.disk))
          (sym same) (new (done first last hl))
    in_home (x ∷ y ∷ p) q e = cc e

    after_log :
        (p q : Writes)
        → p ++ q ≡ (m.log.start, first) ∷ (to_home ++ ((m.log.start, last) ∷ []))
        → Image m (apply_writes (to_log ++ p) m.disk)
    after_log [] q e = old (early (to_log ++ []) [] (append-nil _ ∙ append-nil _))
    after_log (x ∷ p) q e =
        let same : x ≡ (m.log.start, first) = cc e in
        subst (λ y. Image m (apply_writes (to_log ++ (y ∷ p)) m.disk)) (sym same)
          (elim (append-cases p q to_home ((m.log.start, last) ∷ []) (cc e)) [
            | inl (r, f) ↦ logged (late first p r hf f)
            | inr (p', f, g) ↦
                subst (λ w. Image m (apply_writes (to_log ++ ((m.log.start, first) ∷ w)) m.disk))
                  (sym f) (in_home p' q g)
          ])

    pub crash-Image :
        (p q : Writes) → p ++ q ≡ commit_writes m first last → Image m (apply_writes p m.disk)
    crash-Image p q e = elim (append-cases p q to_log _ e) [
      | inl (r, f) ↦ old (early p r f)
      | inr (p', f, g) ↦ subst (λ w. Image m (apply_writes w m.disk)) (sym f) (after_log p' q g)
    ]
