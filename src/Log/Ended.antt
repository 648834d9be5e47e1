-- ===== src/Log/Ended.antt =====
-- The end of the last operation (`end_op`, src/log.c): what is on the disk then.
use mathlib.Core.Path.{subst}
use myfuse.Common.{
  ℕ, suc, zero, ◌+◌, ◌≤◌, ◌<◌, ◌≡◌, refl, sym, ap, Bool, true, false, [], ◌∷◌, ◌++◌, append-nil,
  ◌==◌, inl, inr, Bool-cases, arith, lt_int, sub32,
}
use myfuse.Machine.{
  FsLog, SuperBlock, Machine, Returns, returns, Returns-then, Returns-weaken, ◌>>◌,
}
use myfuse.Machine.Block.{Block, get32}
use myfuse.Machine.Effect.{Writes, apply_writes}
use myfuse.Log.Op.{end_op, set_committing}
use myfuse.Log.Commit.{commit, log_init}
use myfuse.Log.Images.{named}
use myfuse.Log.Committing.{Ready, commit_writes, commit-Committed}
use myfuse.Log.Crash.{committed, IsClean, old, done, crash-Image}
use myfuse.Log.Atomic.{Boots, AllOrNothing, nothing, all, recover-Image}

pub named_self : (block : ℕ → ℕ) (k t i : ℕ) → t ≤ i → i < t + k → named block k t (block i) ≡ true
named_self block zero t i low high = absurd (omega (arith, low, high))
named_self block (suc k) t i low high = elim (Bool-cases (t == i)) [
  | inl here ↦
      let e : t ≡ i = ground arith in
      subst (λ j. named block (suc k) t (block j) ≡ true) e (ground arith)
  | inr away ↦
      ground (arith, named_self block k (t + 1) i (ground (arith, away, low)) (omega (arith, high)))
]

-- What the end of the last operation leaves: the logged blocks are on the disk, the log is empty,
-- and after a crash at any of the writes that were made, `log_init` finds all of them or none.
pub record Ended (m m' : Machine) : Type 0 where
  pub clean : IsClean m.log (committed m) m'.disk
  pub empty : m'.log.n ≡ 0
  pub made : Writes
  pub trace : m'.trace ≡ m.trace ++ made
  pub crash :
      {sb : SuperBlock} {mb : Machine} (p q : Writes)
      → p ++ q ≡ made
      → Boots m.log sb mb
      → mb.disk ≡ apply_writes p m.disk
      → Returns (λ _ m''. AllOrNothing m m''.disk) (log_init sb mb)

none_made : (p q : Writes) → p ++ q ≡ [] → p ≡ []
none_made [] q e = refl
none_made (x ∷ p) q e = cc e

-- With no entry in the log or with some.
commit-Ended :
    (m : Machine) → Ready m → get32 (m.disk m.log.start) 0 ≡ 0 → Returns (λ _. Ended m) (commit m)
unfolding commit
commit-Ended m ready header = elim (Bool-cases (lt_int 0 m.log.n)) [
  | inl some ↦
      Returns-weaken (commit-Committed m ready (ground (arith, some, ready.few))) (λ _ m' c.
        record {
          clean =
              subst (IsClean m.log (committed m)) (sym c.emitted.disk)
                (done m ready header c.first c.last c.last_header);
          empty = ap (λ (l : FsLog). l.n) c.log;
          made = commit_writes m c.first c.last;
          trace = c.emitted.trace;
          crash = λ p q e boots disk. recover-Image ready boots (
              rw disk
                (crash-Image m ready header c.first c.last c.first_header c.last_header p q e));
        })
  | inr none ↦
      let zero : m.log.n ≡ 0 = ground (arith, none, ready.few) in
      rw none (
        returns (record {
          clean = record { count = header; same = λ b o. rw zero refl };
          empty = zero;
          made = [];
          trace = sym (append-nil m.trace);
          crash = λ p q e boots disk.
              let nil = none_made p q e in
              recover-Image ready boots
                (rw (disk, nil) (old (record { count = header; same = λ b o. refl })));
        }))
]

AllOrNothing-rest :
    (m : Machine) {d : ℕ → Block} (k : ℕ) (c : Bool)
    → AllOrNothing (record m { log = record m.log { outstanding = k; committing = c } }) d
    → AllOrNothing m d
AllOrNothing-rest m k c (nothing h) = nothing h
AllOrNothing-rest m k c (all h) = all h

abbrev closing : Machine → Machine
closing m = record m {
  log = record m.log { outstanding = sub32 m.log.outstanding 1; committing = true };
}

end_op_last :
    (m : Machine)
    → m.log.outstanding ≡ 1
    → m.log.committing ≡ false
    → end_op m ≡ (commit >> set_committing false) (closing m)
unfolding end_op
end_op_last m one idle =
    let last : (sub32 m.log.outstanding 1 == 0) ≡ true = rw one refl in rw (idle, last) refl

-- `end_op` of the only operation commits.
pub end_op-Ended :
    (m : Machine)
    → m.log.outstanding ≡ 1
    → m.log.committing ≡ false
    → Ready m
    → get32 (m.disk m.log.start) 0 ≡ 0
    → Returns (λ _. Ended m) (end_op m)
end_op-Ended m one idle ready header =
    let fits = ready.fits in
    subst (Returns (λ _. Ended m)) (sym (end_op_last m one idle)) (
      Returns-then
        (commit-Ended (closing m)
          (record {
            fits = record { room = fits.room; small = fits.small; outside = fits.outside };
            few = ready.few;
            free = ready.free;
            words = ready.words;
          })
          header)
        (λ _ m' r. returns (record {
          clean = record { count = r.clean.count; same = r.clean.same };
          empty = r.empty;
          made = r.made;
          trace = r.trace;
          crash = λ {sb} {mb} p q e boots disk.
              Returns-weaken
                (r.crash p q e
                  (record { fresh = boots.fresh; start = boots.start; size = boots.size }) disk)
                (λ _ m''. AllOrNothing-rest m (sub32 m.log.outstanding 1) true);
        })))
