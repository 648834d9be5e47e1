-- ===== src/Log/Recovery.antt =====
-- Recovery of src/log.c: what `log_init` makes of a disk that it finds.
use mathlib.Core.Path.{subst}
use myfuse.Common.{
  ℕ, ◌≤◌, ◌≡◌, refl, sym, ap, ◌∙◌, true, false, [], ◌∷◌, ◌++◌, append-nil, arith, ltb, ◌==◌, rounds,
  fun_ext,
}
use myfuse.Params.{nlog}
use myfuse.Machine.{FsLog, Machine, Returns, returns, Returns-then, Returns-weaken}
use myfuse.Machine.Block.{Block, get32, get32-set32_self}
use myfuse.Log.HeaderLaws.{write_entries_before}
use myfuse.Machine.Buffer.{view, bread, buf_data, brelse}
use myfuse.Machine.Effect.{Wrote, Emitted, Emitted-nil-append, Wrote-reset-append}
use myfuse.Log.Header.{read_entries, read_log_header_from_disk}
use myfuse.Log.Commit.{recover_from_log}
use myfuse.Log.Steps.{header, write_log_header_to_disk-Wrote}
use myfuse.Log.Loops.{Fits, AllFree, install_writes}
use myfuse.Log.Committing.{install_transaction-Wrote}

-- The process has just started: no block is in the cache.
pub record IsFresh (m : Machine) : Type 0 where
  pub empty : (b : ℕ) → (m.bufs b).valid ≡ false
  pub free : AllFree m

-- The log that `read_log_header_from_disk` finds in the header block `d`.
abbrev pub found : FsLog → Block → FsLog
found log d = record log { n = get32 d 0; block = read_entries d (rounds (get32 d 0)) 0 log.block }

read_log_header_from_disk-found :
    (m : Machine)
    → AllFree m
    → get32 (view m m.log.start) 0 ≤ nlog
    → Returns
        (λ _ m'. Emitted [] m m' × (m'.log ≡ found m.log (view m m.log.start)))
        (read_log_header_from_disk m)
unfolding read_log_header_from_disk bread buf_data brelse
read_log_header_from_disk-found m free few =
    let same : (m.log.start == m.log.start) ≡ true = ground arith in
    let fits : ltb nlog (rounds (get32 (view m m.log.start) 0)) ≡ false = ground arith in
    rw (free _, same, fits)
      (returns (
        record {
          seen = fun_ext λ b. ground arith;
          disk = refl;
          trace = rw append-nil;
          locks = λ b. ground (arith, free m.log.start);
        },
        refl,
      ))

-- What a recovery does to a log `log` with the blocks `v`: it installs the entries found and then
-- writes a header with none.
pub record Recovered (log : FsLog) (m m' : Machine) : Type 0 where
  pub last : Block
  pub last_count : get32 last 0 ≡ 0
  pub emitted : Emitted (install_writes log (view m) log.n 0 ++ ((log.start, last) ∷ [])) m m'
  pub log_lem : m'.log ≡ record log { n = 0 }

header-count : (m : Machine) → m.log.n ≤ nlog → get32 (header m) 0 ≡ m.log.n
header-count m few =
    write_entries_before m.log.block (rounds m.log.n) 0 _ 0 (omega arith)
    ∙ get32-set32_self (view m m.log.start) 0 m.log.n (omega arith)

parts-Recovered :
    {log : FsLog} {m m1 m2 m3 : Machine}
    → Emitted [] m m1
    → m1.log ≡ log
    → Wrote (install_writes m1.log (view m1) m1.log.n 0) m1 m2
    → let m2' : Machine = record m2 { log = record m2.log { n = 0 } } in
      Wrote ((m2.log.start, header m2') ∷ []) m2' m3 → Recovered log m m3
parts-Recovered {log} {m} {m1} {m2} {m3} e l w2 w3 = record {
  last = header m2';
  last_count = header-count m2' (omega arith);
  emitted = subst (λ w. Emitted w m m3) order (Emitted-nil-append e (Wrote-reset-append 0 w2 w3));
  log_lem = w3.log ∙ ap {B = FsLog} (λ (l : FsLog). record l { n = 0 }) (w2.log ∙ l);
}
  where
    m2' : Machine
    m2' = record m2 { log = record m2.log { n = 0 } }

    order :
        install_writes m1.log (view m1) m1.log.n 0 ++ ((m2.log.start, header m2') ∷ [])
        ≡ install_writes log (view m) log.n 0 ++ ((log.start, header m2') ∷ [])
    order = cc (
      ap (λ v. install_writes m1.log v m1.log.n 0) e.seen,
      ap (λ (l : FsLog). install_writes l (view m) l.n 0) l,
      ap (λ (l : FsLog). l.start) (w2.log ∙ l),
    )

-- If no buffer is held and the header that is found has at most NLOG entries, which fit the log and
-- name blocks outside it, `recover_from_log` returns. It copies each block of the log that the
-- header lists to its home, in order, then writes a header with a count of 0, and changes nothing
-- else on the disk; the log in memory is then empty.
pub recover_from_log-Recovered :
    (m : Machine)
    → AllFree m
    → get32 (view m m.log.start) 0 ≤ nlog
    → (let log = found m.log (view m m.log.start) in Fits log log.n 0)
    → Returns (λ _. Recovered (found m.log (view m m.log.start)) m) (recover_from_log m)
unfolding recover_from_log
recover_from_log-Recovered m free few fits =
    Returns-then (read_log_header_from_disk-found m free few) λ _ m1 (e, l).
      let free1 : AllFree m1 = λ b. e.locks b ∙ free b in
      let fits1 : Fits m1.log m1.log.n 0 = subst (λ (l : FsLog). Fits l l.n 0) (sym l) fits in
      let few1 : m1.log.n ≤ nlog = rw l few in
      Returns-then (install_transaction-Wrote true m1 fits1 few1 free1) λ _ m2 w2.
        Returns-weaken
          (write_log_header_to_disk-Wrote (record m2 { log = record m2.log { n = 0 } })
            (w2.locks _ ∙ free1 _))
          λ _ m3 w3. parts-Recovered e l w2 w3
