-- ===== src/Log/Committing.antt =====
-- A commit of src/log.c returns, and what it wrote.
use mathlib.Core.Path.{subst}
use myfuse.Common.{
  ℕ, ◌^◌, ◌≤◌, ◌<◌, ◌≡◌, sym, ap, ◌∙◌, Bool, true, false, [], ◌∷◌, ◌++◌, append_assoc, arith, ◌==◌,
  rounds, lt_int,
}
use myfuse.Params.{nlog}
use myfuse.Machine.{FsLog, Machine, Returns, Returns-then, Returns-weaken}
use myfuse.Machine.Block.{Block, get32, get32-set32_self}
use myfuse.Machine.Buffer.{view}
use myfuse.Machine.Effect.{Writes, Wrote, Wrote-append, Emitted, Wrote-reset-append}
use myfuse.Log.Header.{log_block, entry_off}
use myfuse.Log.HeaderLaws.{write_entries_before, write_entries-get}
use myfuse.Log.Commit.{commit, write_from_cache_to_log, install_transaction, log_loop, install_loop}
use myfuse.Log.Steps.{header, write_log_header_to_disk-Wrote}
use myfuse.Log.Loops.{Fits, AllFree, log_writes, install_writes, log_loop-Wrote, install_loop-Wrote}
use myfuse.Log.Images.{home_writes, log_writes-apply, install_writes-home}

-- The log as the operations leave it: its entries fit, no buffer is held, and the entries are
-- `int`s.
pub record Ready (m : Machine) : Type 0 where
  pub fits : Fits m.log m.log.n 0
  pub few : m.log.n ≤ nlog
  pub free : AllFree m
  pub words : (i : ℕ) → m.log.block i < 2 ^ 32

-- The block `d` is a header that lists the entries of `log`, `n` of them.
pub record IsHeader (log : FsLog) (n : ℕ) (d : Block) : Type 0 where
  pub count : get32 d 0 ≡ n
  pub entries : (i : ℕ) → i < n → get32 d (entry_off i) ≡ log.block i

pub rounds_small : (n : ℕ) → n ≤ nlog → rounds n ≡ n
rounds_small n h = ground arith

header-IsHeader :
    (m : Machine)
    → m.log.n ≤ nlog
    → ((i : ℕ) → m.log.block i < 2 ^ 32)
    → IsHeader m.log m.log.n (header m)
header-IsHeader m few words = record {
  count =
      write_entries_before m.log.block (rounds m.log.n) 0 _ 0 (omega arith)
      ∙ get32-set32_self (view m m.log.start) 0 m.log.n (omega arith);
  entries = λ i h.
      write_entries-get m.log.block (rounds m.log.n) 0 i _ (omega arith)
        (rw (rounds_small _ few) (omega arith)) words;
}

-- The writes of a commit: the blocks to the log, the header, the blocks to their places, the header
-- with no entries.
abbrev pub commit_writes : Machine → Block → Block → Writes
commit_writes m first last =
    log_writes m.log (view m) m.log.n 0
    ++ ((m.log.start, first)
        ∷ (home_writes m.log.block (view m) m.log.n 0 ++ ((m.log.start, last) ∷ [])))

pub record Committed (m m' : Machine) : Type 0 where
  pub first : Block
  pub last : Block
  pub first_header : IsHeader m.log m.log.n first
  pub last_header : IsHeader m.log 0 last
  pub emitted : Emitted (commit_writes m first last) m m'
  pub log : m'.log ≡ record m.log { n = 0 }

write_from_cache_to_log-Wrote :
    (m : Machine)
    → Ready m
    → Returns (λ _. Wrote (log_writes m.log (view m) m.log.n 0) m) (write_from_cache_to_log m)
unfolding write_from_cache_to_log
write_from_cache_to_log-Wrote m r =
    subst (λ k. Returns (λ _. Wrote (log_writes m.log (view m) m.log.n 0) m) (log_loop k 0 m))
      (sym (rounds_small _ r.few)) (log_loop-Wrote m.log.n 0 m r.fits r.free)

pub install_transaction-Wrote :
    (recovering : Bool) (m : Machine)
    → Fits m.log m.log.n 0
    → m.log.n ≤ nlog
    → AllFree m
    → Returns
        (λ _. Wrote (install_writes m.log (view m) m.log.n 0) m)
        (install_transaction recovering m)
unfolding install_transaction
install_transaction-Wrote recovering m f few free =
    subst
      (λ k.
        Returns (λ _. Wrote (install_writes m.log (view m) m.log.n 0) m)
          (install_loop recovering k 0 m))
      (sym (rounds_small _ few)) (install_loop-Wrote recovering m.log.n 0 m f free)

Ready-Wrote : {w : Writes} {m m' : Machine} → Wrote w m m' → Ready m → Ready m'
Ready-Wrote w r = record {
  fits = subst (λ (l : FsLog). Fits l l.n 0) (sym w.log) r.fits;
  few = rw w.log r.few;
  free = λ b. w.locks b ∙ r.free b;
  words = λ i. rw w.log (r.words i);
}

-- After the log and the header are written, `install_transaction` puts the logged blocks in place.
install-home :
    (m : Machine) (first : Block) {m1 m2 : Machine}
    → Ready m
    → Wrote (log_writes m.log (view m) m.log.n 0) m m1
    → Wrote ((m1.log.start, first) ∷ []) m1 m2
    → install_writes m2.log (view m2) m2.log.n 0 ≡ home_writes m.log.block (view m) m.log.n 0
install-home m first {m1} {m2} r w1 w2 =
    ap (λ (l : FsLog). install_writes l (view m2) l.n 0) (w2.log ∙ w1.log)
    ∙ install_writes-home m.log (view m) (view m2) m.log.n 0 λ i h h'.
      let here = log_block m.log.start i in
      let miss : (m1.log.start == here) ≡ false = rw w1.log (ground (arith, r.fits)) in
      ap (λ f. f here) w2.seen
      ∙ rw miss (
          ap (λ f. f here) w1.seen
          ∙ log_writes-apply m.log (view m) m.log.n 0 i (view m) h h' (omega (arith, r.fits)))

-- The four parts of a commit make the whole.
parts-Committed :
    {m m1 m2 m3 m4 : Machine}
    → Ready m
    → Wrote (log_writes m.log (view m) m.log.n 0) m m1
    → Wrote ((m1.log.start, header m1) ∷ []) m1 m2
    → Wrote (install_writes m2.log (view m2) m2.log.n 0) m2 m3
    → let m3' : Machine = record m3 { log = record m3.log { n = 0 } } in
      Wrote ((m3.log.start, header m3') ∷ []) m3' m4 → Committed m m4
parts-Committed {m} {m1} {m2} {m3} {m4} r w1 w2 w3 w4 = record {
  first = header m1;
  last = header m3';
  first_header =
      subst (λ (l : FsLog). IsHeader l l.n (header m1)) w1.log
        (header-IsHeader m1 (Ready-Wrote w1 r).few (Ready-Wrote w1 r).words);
  last_header =
      subst (λ (l : FsLog). IsHeader l 0 (header m3')) log3
        (record {
          count = (header-IsHeader m3' (omega arith) (rw log3 r.words)).count;
          entries = λ i h. absurd (omega arith);
        });
  emitted =
      subst (λ w. Emitted w m m4) order
        (Wrote-reset-append 0 (Wrote-append w1 (Wrote-append w2 w3)) w4);
  log = w4.log ∙ ap {B = FsLog} (λ (l : FsLog). record l { n = 0 }) log3;
}
  where
    m3' : Machine
    m3' = record m3 { log = record m3.log { n = 0 } }

    log3 : m3.log ≡ m.log
    log3 = w3.log ∙ w2.log ∙ w1.log

    order :
        (log_writes m.log (view m) m.log.n 0
            ++ ((m1.log.start, header m1) ∷ install_writes m2.log (view m2) m2.log.n 0))
          ++ ((m3.log.start, header m3') ∷ [])
        ≡ commit_writes m (header m1) (header m3')
    order = cc (
      append_assoc (log_writes m.log (view m) m.log.n 0)
          ((m1.log.start, header m1) ∷ install_writes m2.log (view m2) m2.log.n 0)
          ((m3.log.start, header m3') ∷ []),
      ap (λ (l : FsLog). l.start) w1.log,
      ap (λ (l : FsLog). l.start) log3,
      install-home m (header m1) r w1 w2,
    )

-- From a ready log with at least one entry, `commit` returns. The writes it makes are, in this
-- order: each logged block to its place in the log, a header that lists all entries, each logged
-- block to its home, and a header with none. They are all that changes what is on the disk and what
-- the buffers show, and no lock is left held; the log is then empty.
pub commit-Committed : (m : Machine) → Ready m → 0 < m.log.n → Returns (λ _. Committed m) (commit m)
unfolding commit
commit-Committed m r some_logged =
    let go : lt_int 0 m.log.n ≡ true = ground (arith, r.few) in
    rw go (
      Returns-then (write_from_cache_to_log-Wrote m r) λ _ m1 w1.
        let r1 = Ready-Wrote w1 r in
        Returns-then (write_log_header_to_disk-Wrote m1 (r1.free _)) λ _ m2 w2.
          let r2 = Ready-Wrote w2 r1 in
          Returns-then (install_transaction-Wrote false m2 r2.fits r2.few r2.free) λ _ m3 w3.
            Returns-weaken
              (write_log_header_to_disk-Wrote (record m3 { log = record m3.log { n = 0 } })
                ((Ready-Wrote w3 r2).free _))
              λ _ m4 w4. parts-Committed r w1 w2 w3 w4)
