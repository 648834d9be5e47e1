-- ===== src/Log/Counters.antt =====
-- What each call of src/log.c does to the counters of `fslog`, whenever it returns.
use myfuse.Common.{
  refl, sub32, ◌==◌, ap, rounds, lt_int, Bool-cases, inl, inr, ◌≤◌, arith, ◌<◌, ◌*◌, ℕ, zero, suc,
  ◌≡◌, ◌∙◌, Bool, true, false, ◌+◌,
}
use myfuse.Params.{nlog, maxopblocks}
use myfuse.Machine.{Cmd, Machine, FsLog, ok}
use myfuse.Machine.Keeps.{Keeps, IsAbove, and_then-ok, keeps, keeps_bind, keeps_pure, keeps_state}
use myfuse.Machine.Buffer.{bpin}
use myfuse.Log.Op.{set_committing, begin_op, end_op, logged_write}
use myfuse.Log.Header.{write_log_header_to_disk}
use myfuse.Log.Commit.{
  commit, log_one_block, log_loop, write_from_cache_to_log, install_block, install_loop,
  install_transaction,
}

log_IsAbove : IsAbove (λ m. m.log)
log_IsAbove = record { bufs = λ m b. refl; disk = λ m d t. refl }

abbrev KeepsLog : {A : Type 0} → Cmd A → Type 0
KeepsLog c = Keeps (λ m. m.log) c

ruleset keeps_log = (keeps, log_IsAbove)

keeps_header : KeepsLog write_log_header_to_disk
unfolding write_log_header_to_disk
keeps_header = search keeps_log depth 12

KeepsLog-one : (t : ℕ) → KeepsLog (log_one_block t)
unfolding log_one_block
KeepsLog-one t = search keeps_log depth 20

keeps_install_one : (r : Bool) (t : ℕ) → KeepsLog (install_block r t)
unfolding install_block
keeps_install_one true t = search keeps_log depth 20
keeps_install_one false t = search keeps_log depth 20

KeepsLog-loop : (k t : ℕ) → KeepsLog (log_loop k t)
unfolding log_loop
KeepsLog-loop zero t = keeps_pure tt
KeepsLog-loop (suc k) t = keeps_bind (KeepsLog-one t) (λ _. KeepsLog-loop k (t + 1))

keeps_install_loop : (r : Bool) (k t : ℕ) → KeepsLog (install_loop r k t)
unfolding install_loop
keeps_install_loop r zero t = keeps_pure tt
keeps_install_loop r (suc k) t =
    keeps_bind (keeps_install_one r t) (λ _. keeps_install_loop r k (t + 1))

keeps_write_from_cache : KeepsLog write_from_cache_to_log
unfolding write_from_cache_to_log
keeps_write_from_cache = keeps_bind keeps_state (λ m. KeepsLog-loop (rounds m.log.n) 0)

keeps_install : (r : Bool) → KeepsLog (install_transaction r)
unfolding install_transaction
keeps_install r = keeps_bind keeps_state (λ m. keeps_install_loop r (rounds m.log.n) 0)

-- A commit that returns leaves the log with no entry, and else as it was.
commit-log :
    (m : Machine) {m' : Machine} {a : Unit {0}}
    → m.log.n ≤ nlog
    → commit m ≡ ok a m'
    → m'.log ≡ record m.log { n = 0 }
unfolding commit
commit-log m {m'} few e = elim (Bool-cases (lt_int 0 m.log.n)) [
  | inl some ↦
      let e' = rw some at e in
      let (a1, m1, f1, e1) = and_then-ok _ _ e' in
      let (a2, m2, f2, e2) = and_then-ok _ _ e1 in
      let (a3, m3, f3, e3) = and_then-ok _ _ e2 in
      keeps_header.kept e3
      ∙ ap {B = FsLog} (λ (l : FsLog). record l { n = 0 })
          ((keeps_install false).kept f3 ∙ keeps_header.kept f2 ∙ keeps_write_from_cache.kept f1)
  | inr none_logged ↦
      let z : m.log.n ≡ 0 = ground arith in
      let same : m.log ≡ record m.log { n = 0 } = λ i. record m.log { n = z i } in
      let e' = rw none_logged at e in cc (e', same)
]

-- What an operation does to the log when it starts.
pub begin_op-log :
    (m : Machine) {m' : Machine} {a : Unit {0}}
    → m.log.n ≤ nlog
    → m.log.outstanding ≤ nlog
    → begin_op m ≡ ok a m'
    → (m.log.committing ≡ false)
      × (m.log.n + (m.log.outstanding + 1) * maxopblocks ≤ nlog)
      × (m'.log ≡ record m.log { outstanding = m.log.outstanding + 1 })
unfolding begin_op
begin_op-log m few some e = ground arith

-- When it ends and others are under way.
pub end_op-log :
    (m : Machine) {m' : Machine} {a : Unit {0}}
    → m.log.n ≤ nlog
    → 0 < m.log.outstanding
    → m.log.outstanding ≤ nlog
    → end_op m ≡ ok a m'
    → (m'.log.outstanding + 1 ≡ m.log.outstanding)
      × (m'.log.n ≤ m.log.n)
      × (m'.log.committing ≡ false)
      × (m'.log.size ≡ m.log.size)
unfolding end_op
end_op-log m few some most e = elim (Bool-cases m.log.committing) [
  | inl busy ↦ let e' = rw busy at e in cc e'
  | inr idle ↦ elim (Bool-cases (sub32 m.log.outstanding 1 == 0)) [
    | inl last ↦
        let e' = rw (idle, last) at e in
        let mc : Machine = record m {
          log = record m.log { outstanding = sub32 m.log.outstanding 1; committing = true };
        } in
        let (a1, m1, f1, e1) = and_then-ok (commit mc) (λ _. set_committing false) e' in
        let l = commit-log mc few f1 in
        ground (
          arith,
          ap (λ (l : FsLog). l.outstanding) l,
          ap (λ (l : FsLog). l.n) l,
          ap (λ (l : FsLog). l.size) l,
        )
    | inr others ↦ let e' = rw (idle, others) at e in ground arith
  ]
]

-- When a thread logs a write.
pub logged_write-log :
    (b : ℕ) (m : Machine) {m' : Machine} {a : Unit {0}}
    → m.log.n ≤ nlog
    → logged_write b m ≡ ok a m'
    → (m'.log.n ≤ m.log.n + 1)
      × (m'.log.outstanding ≡ m.log.outstanding)
      × (m'.log.committing ≡ m.log.committing)
      × (m'.log.size ≡ m.log.size)
unfolding logged_write bpin
logged_write-log b m few e = ground arith
