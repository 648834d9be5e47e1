-- ===== src/Log/Atomic.antt =====
-- A commit is atomic: after a crash at any of its writes, `log_init` finds all of it or none of it.
use mathlib.Core.Path.{subst, fun_ext}
use myfuse.Common.{
  ℕ, zero, suc, ◌+◌, ◌^◌, ◌≤◌, ◌<◌, ◌≡◌, refl, sym, ap, ◌∙◌, false, List, [], ◌∷◌, ◌++◌, arith,
  ◌==◌, rounds, if◌then◌else◌,
}
use myfuse.Params.{nlog}
use myfuse.Machine.{SuperBlock, FsLog, Machine, Returns, Returns-weaken, ok, of_returns}
use myfuse.Machine.Block.{Block, get32}
use myfuse.Machine.Buffer.{view}
use myfuse.Machine.Effect.{Writes, apply_writes, apply_writes-append}
use myfuse.Log.Header.{log_block}
use myfuse.Log.HeaderLaws.{read_entries-get}
use myfuse.Log.Commit.{commit, log_init}
use myfuse.Log.Loops.{Outside, Fits, install_writes}
use myfuse.Log.Images.{home_writes, named, home_writes-apply, install_writes-home}
use myfuse.Log.Committing.{Ready, IsHeader, rounds_small, Committed, commit-Committed}
use myfuse.Log.Recovery.{IsFresh, found, Recovered, recover_from_log-Recovered}
use myfuse.Log.Crash.{committed, IsClean, IsLogged, Image, old, logged, new, crash-Image}

home_writes-agree :
    (block block' : ℕ → ℕ) (v : ℕ → Block) (k t : ℕ)
    → ((i : ℕ) → t ≤ i → i < t + k → block i ≡ block' i)
    → home_writes block v k t ≡ home_writes block' v k t
home_writes-agree block block' v zero t h = refl
home_writes-agree block block' v (suc k) t h = rw (
  h t (omega arith) (omega arith),
  home_writes-agree block block' v k (t + 1) (λ i a b. h i (omega arith) (omega arith)),
)

-- A process that has just started, on a disk whose log is where that of `log` is.
pub record Boots (log : FsLog) (sb : SuperBlock) (m : Machine) : Type 0 where
  pub fresh : IsFresh m
  pub start : sb.logstart ≡ log.start
  pub size : sb.nlog ≡ log.size

fresh-view : {m : Machine} → IsFresh m → view m ≡ m.disk
fresh-view f = fun_ext λ b. rw (f.empty b)

Recovered-disk :
    {l : FsLog} {m m' : Machine} (b : ℕ)
    → Recovered l m m'
    → 0 < l.size
    → Outside l b
    → m'.disk b ≡ apply_writes (install_writes l (view m) l.n 0) m.disk b
Recovered-disk {l} {m} b r some o =
    let miss : (l.start == b) ≡ false = ground arith in
    ap (λ f. f b) r.emitted.disk
    ∙ ap (λ f. f b)
        (apply_writes-append (install_writes l (view m) l.n 0) ((l.start, r.last) ∷ []) m.disk)
    ∙ rw miss

module _ {log : FsLog} {sb : SuperBlock} {m : Machine} (boots : Boots log sb m) where
  open boots use {fresh}

  abbrev at_boot : Machine
  at_boot = record m { log = record m.log { start = sb.logstart; size = sb.nlog } }

  abbrev header_block : Block
  header_block = view m sb.logstart

  log_init-Recovered :
      get32 header_block 0 ≤ nlog
      → (let l = found at_boot.log header_block in Fits l l.n 0)
      → Returns (λ _. Recovered (found at_boot.log header_block) at_boot) (log_init sb m)
  unfolding log_init
  log_init-Recovered few fits = recover_from_log-Recovered at_boot fresh.free few fits

  on_disk : header_block ≡ m.disk log.start
  on_disk = ap (λ f. f sb.logstart) (fresh-view fresh) ∙ ap m.disk boots.start

  -- With no entries in the header, recovery leaves every block outside the log.
  log_init-clean :
      (blocks : ℕ → Block)
      → 0 < log.size
      → log.start + log.size ≤ 2 ^ 32
      → IsClean log blocks m.disk
      → Returns (λ _ m'. (b : ℕ) → Outside log b → m'.disk b ≡ blocks b) (log_init sb m)
  log_init-clean blocks some small clean =
      Returns-weaken (log_init-Recovered few fits) λ _ m' r b o.
        Recovered-disk b r (rw boots.size some) (rw (boots.size, boots.start) o)
        ∙ ap
            (λ k.
              apply_writes (install_writes (found at_boot.log header_block) (view m) k 0) m.disk b)
            none_found
        ∙ clean.same b o
    where
      none_found : get32 header_block 0 ≡ 0
      none_found = ap (λ d. get32 d 0) on_disk ∙ clean.count

      few : get32 header_block 0 ≤ nlog
      few = omega (arith, none_found)

      fits : let l = found at_boot.log header_block in Fits l l.n 0
      fits = record {
        room = omega (arith, none_found, boots.size);
        small = omega (arith, boots.size, boots.start);
        outside = λ i h h'. absurd (omega (arith, none_found));
      }

module _ {m : Machine} {sb : SuperBlock} {m0 : Machine} (boots : Boots m.log sb m0) where
  -- With the header written, recovery puts every logged block in place.
  log_init-logged :
      Ready m
      → IsLogged m m0.disk
      → Returns (λ _ m'. (b : ℕ) → Outside m.log b → m'.disk b ≡ committed m b) (log_init sb m0)
  log_init-logged ready is = Returns-weaken (log_init-Recovered boots few fits) λ _ m' r b o.
      Recovered-disk b r (rw boots.size (omega (arith, ready.fits)))
        (rw (boots.size, boots.start) o)
      ∙ ap (λ w. apply_writes w m0.disk b) home
      ∙ home_writes-apply m.log.block (view m) m.log.n 0 m0.disk b
      ∙ settled b o
    where
      l : FsLog
      l = found (at_boot boots).log (header_block boots)

      head : IsHeader m.log m.log.n (header_block boots)
      head = subst (IsHeader m.log m.log.n) (sym (on_disk boots)) is.listed

      few : get32 (header_block boots) 0 ≤ nlog
      few = rw head.count ready.few

      entry : (i : ℕ) → i < m.log.n → l.block i ≡ m.log.block i
      entry i h =
          read_entries-get (header_block boots) (rounds (get32 (header_block boots) 0)) 0
            m0.log.block i (omega arith) (rw (rounds_small _ few, head.count) (omega arith))
          ∙ head.entries i h

      fits : Fits l l.n 0
      fits = record {
        room = rw (head.count, boots.size) ready.fits.room;
        small = rw (boots.size, boots.start) ready.fits.small;
        outside = λ i h h'.
            let below : i < m.log.n = omega (arith, head.count) in
            omega
              (arith, entry i below, ready.fits.outside i h (omega arith), boots.size, boots.start);
      }

      home :
          install_writes l (view (at_boot boots)) l.n 0 ≡ home_writes m.log.block (view m) m.log.n 0
      home =
          ap (λ k. install_writes l (view (at_boot boots)) k 0) head.count
          ∙ install_writes-home l (view m) (view (at_boot boots)) m.log.n 0 (λ i h h'.
            ap (λ f. f (log_block sb.logstart i)) (fresh-view boots.fresh)
            ∙ ap (λ s. m0.disk (log_block s i)) boots.start
            ∙ is.blocks i (omega arith)
            ∙ ap (view m) (sym (entry i (omega arith))))
          ∙ home_writes-agree l.block m.log.block (view m) m.log.n 0
              (λ i h h'. entry i (omega arith))

      settled :
          (b : ℕ)
          → Outside m.log b
          → (if named m.log.block m.log.n 0 b then view m b else m0.disk b) ≡ committed m b
      settled b o = ground (arith, is.rest b o)

-- What is outside the log is all as before the commit, or all as after it.
pub data AllOrNothing (m : Machine) (d : ℕ → Block) : Type 0 where
  nothing : ((b : ℕ) → Outside m.log b → d b ≡ m.disk b) → AllOrNothing m d
  all : ((b : ℕ) → Outside m.log b → d b ≡ committed m b) → AllOrNothing m d

pub recover-Image :
    {m : Machine} {sb : SuperBlock} {m0 : Machine}
    → Ready m
    → Boots m.log sb m0
    → Image m m0.disk
    → Returns (λ _ m'. AllOrNothing m m'.disk) (log_init sb m0)
recover-Image {m} ready boots (old is) =
    Returns-weaken (log_init-clean boots m.disk (omega (arith, ready.fits)) ready.fits.small is)
      λ _ m' h. nothing h
recover-Image ready boots (logged is) =
    Returns-weaken (log_init-logged boots ready is) λ _ m' h. all h
recover-Image {m} ready boots (new is) =
    Returns-weaken
      (log_init-clean boots (committed m) (omega (arith, ready.fits)) ready.fits.small is)
      λ _ m' h. all h

pub append_cancel {ℓ} : {A : Type ℓ} (xs : List A) {ys zs : List A} → xs ++ ys ≡ xs ++ zs → ys ≡ zs
append_cancel [] e = e
append_cancel (x ∷ xs) e = append_cancel xs (cc e)

-- Crash atomicity. `commit` starts from a ready log (entries within the log, naming blocks outside
-- it, no buffer held) with at least one entry and an empty header on the disk, and returns. The
-- disk is cut off after any prefix `p` of the writes that it made; a new process with an empty
-- cache finds that disk. Then `log_init` returns, and every block outside the log is as it was
-- before the commit, or every one is as the buffers had it.
pub commit-AllOrNothing :
    {m m' : Machine} {sb : SuperBlock} {m0 : Machine} (p q : Writes)
    → Ready m
    → 0 < m.log.n
    → get32 (m.disk m.log.start) 0 ≡ 0
    → commit m ≡ ok tt m'
    → m'.trace ≡ m.trace ++ (p ++ q)
    → Boots m.log sb m0
    → m0.disk ≡ apply_writes p m.disk
    → Returns (λ _ m''. AllOrNothing m m''.disk) (log_init sb m0)
commit-AllOrNothing {m} {m'} {sb} {m0} p q ready some count run cut boots disk =
    recover-Image ready boots (
      rw disk (
        crash-Image m ready count c.first c.last c.first_header c.last_header p q
          (append_cancel m.trace (sym cut ∙ c.emitted.trace))))
  where
    c : Committed m m'
    c = of_returns (subst (Returns (λ _. Committed m)) run (commit-Committed m ready some))
