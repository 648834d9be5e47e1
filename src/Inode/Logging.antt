-- ===== src/Inode/Logging.antt =====
-- What the log lists while `inode_write_nbytes_locked` (src/inode.c) writes to a file.
use mathlib.Core.Path.{subst}
use myfuse.Common.{
  ℕ, ◌/◌, ◌<◌, ◌≡◌, ◌⊎◌, ◌∙◌, refl, sym, ap, Bool, true, false, ◌||◌, ◌==◌, inl, inr, arith,
}
use myfuse.Params.{bsize}
use myfuse.Machine.{Machine, Inode}
use myfuse.Machine.Block.{Block}
use myfuse.Machine.Buffer.{view}
use myfuse.Log.Write.{is_logged}
use myfuse.Log.Logged.{Logged}
use myfuse.Inode.Walk.{walk, Looked}
use myfuse.Inode.Update.{home}

-- The inode's block, or a block of the file.
abbrev pub Touched : Machine → ℕ → ℕ → ℕ → Type 0
Touched m0 ip lim b = (b ≡ home ip m0) ⊎ ((p : ℕ) × (p < lim) × (b ≡ walk m0 ip (p / bsize)))

-- Only such blocks are logged besides those that were at first, the others show what they showed,
-- and nothing has gone to the disk.
pub record Logging (m0 : Machine) (ip lim : ℕ) (m : Machine) : Type 0 where
  pub disk : m.disk ≡ m0.disk
  pub trace : m.trace ≡ m0.trace
  pub start : m.log.start ≡ m0.log.start
  pub size : m.log.size ≡ m0.log.size
  pub outstanding : m.log.outstanding ≡ m0.log.outstanding
  pub committing : m.log.committing ≡ m0.log.committing
  pub logged : (c : ℕ) → is_logged m c ≡ true → (is_logged m0 c ≡ true) ⊎ Touched m0 ip lim c
  pub unlogged : (c : ℕ) → is_logged m c ≡ false → (is_logged m0 c ≡ false) × (view m c ≡ view m0 c)
  pub words : (i : ℕ) → (m.log.block i ≡ m0.log.block i) ⊎ Touched m0 ip lim (m.log.block i)

or-cases : (a b : Bool) → (a || b) ≡ true → (a ≡ true) ⊎ (b ≡ true)
or-cases true b e = inl refl
or-cases false b e = inr e

or-none : (a b : Bool) → (a || b) ≡ false → (a ≡ false) × (b ≡ false)
or-none true b e = cc e
or-none false b e = (refl, e)

module _ {m0 : Machine} {ip lim : ℕ} where
  pub Logging-refl : Logging m0 ip lim m0
  Logging-refl = record {
    disk = refl;
    trace = refl;
    start = refl;
    size = refl;
    outstanding = refl;
    committing = refl;
    logged = λ c h. inl h;
    unlogged = λ c h. (h, refl);
    words = λ i. inl refl;
  }

  pub Logging-edit :
      {m : Machine} (inodes : ℕ → Inode)
      → Logging m0 ip lim m
      → Logging m0 ip lim (record m { inodes = inodes })
  Logging-edit inodes l = record {
    disk = l.disk;
    trace = l.trace;
    start = l.start;
    size = l.size;
    outstanding = l.outstanding;
    committing = l.committing;
    logged = l.logged;
    unlogged = l.unlogged;
    words = l.words;
  }

  pub Logging-Looked : {m m1 : Machine} → Looked m m1 → Logging m0 ip lim m → Logging m0 ip lim m1
  Logging-Looked {m} {m1} looked l =
      let log : m1.log ≡ m.log = ap (λ (x : Machine). x.log) looked.same in
      let disk : m1.disk ≡ m.disk = ap (λ (x : Machine). x.disk) looked.same in
      let listed : (c : ℕ) → is_logged m c ≡ is_logged m1 c =
        λ c. sym (ap (λ (x : Machine). is_logged x c) looked.same) in
      record {
        disk = disk ∙ l.disk;
        trace = ap (λ (x : Machine). x.trace) looked.same ∙ l.trace;
        start = rw log l.start;
        size = rw log l.size;
        outstanding = rw log l.outstanding;
        committing = rw log l.committing;
        logged = λ c h. l.logged c (listed c ∙ h);
        unlogged = λ c h.
            let (old, kept) = l.unlogged c (listed c ∙ h) in
            (old, ap (λ v. v c) looked.seen ∙ kept);
        words = rw log l.words;
      }

  pub Logging-Logged :
      {b : ℕ} {d : Block} {m m' : Machine}
      → Logged b d m m'
      → Touched m0 ip lim b
      → Logging m0 ip lim m
      → Logging m0 ip lim m'
  Logging-Logged {b} {m} {m'} w which l = record {
    disk = w.disk ∙ l.disk;
    trace = w.trace ∙ l.trace;
    start = w.fixed.0 ∙ l.start;
    size = w.rest.0 ∙ l.size;
    outstanding = w.rest.1 ∙ l.outstanding;
    committing = w.fixed.1 ∙ l.committing;
    logged = λ c h. elim (or-cases (is_logged m c) (b == c) (sym (w.entries c) ∙ h)) [
      | inl old ↦ l.logged c old
      | inr here ↦ let q : b ≡ c = ground (arith, here) in inr (subst (Touched m0 ip lim) q which)
    ];
    unlogged = λ c h.
        let (old, away) = or-none (is_logged m c) (b == c) (sym (w.entries c) ∙ h) in
        let (first, kept) = l.unlogged c old in (first, ap (λ v. v c) w.seen ∙ rw away kept);
    words = λ i. elim (w.block i) [
      | inl old ↦ elim (l.words i) [
        | inl first ↦ inl (old ∙ first)
        | inr touched ↦ inr (subst (Touched m0 ip lim) (sym old) touched)
      ]
      | inr new ↦ inr (subst (Touched m0 ip lim) (sym new) which)
    ];
  }
