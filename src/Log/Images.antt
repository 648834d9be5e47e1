-- ===== src/Log/Images.antt =====
-- What the lists of writes of a commit make of a disk.
use myfuse.Common.{
  ℕ, zero, suc, ◌+◌, ◌^◌, ◌≤◌, ◌<◌, ◌≡◌, ◌≢◌, refl, ◌||◌, Bool, true, false, [], ◌∷◌, arith, ◌==◌,
  update, if◌then◌else◌,
}
use native.Mathlib.Decide.{dec_lt}
use myfuse.Machine.{FsLog}
use myfuse.Machine.Block.{Block}
use myfuse.Machine.Effect.{Writes, apply_writes, writes_to, apply_writes_other}
use myfuse.Log.Header.{log_block}
use myfuse.Log.Loops.{log_writes, install_writes}

-- The writes that put each logged block in its place.
abbrev pub home_writes : (ℕ → ℕ) → (ℕ → Block) → ℕ → ℕ → Writes
home_writes block v zero t = []
home_writes block v (suc k) t = (block t, v (block t)) ∷ home_writes block v k (t + 1)

-- Is `b` among the `k` entries from `t` on?
abbrev pub named : (ℕ → ℕ) → ℕ → ℕ → ℕ → Bool
named block zero t b = false
named block (suc k) t b = block t == b || named block k (t + 1) b

pub writes_to-home :
    (block : ℕ → ℕ) (v : ℕ → Block) (k t b : ℕ)
    → writes_to b (home_writes block v k t) ≡ named block k t b
writes_to-home block v zero t b = refl
writes_to-home block v (suc k) t b = ground (arith, writes_to-home block v k (t + 1) b)

pub not-named :
    (block : ℕ → ℕ) (k t b : ℕ)
    → ((i : ℕ) → t ≤ i → i < t + k → block i ≢ b)
    → named block k t b ≡ false
not-named block zero t b h = refl
not-named block (suc k) t b h = ground (
  arith,
  h t (omega arith) (omega arith),
  not-named block k (t + 1) b (λ i p q. h i (omega arith) (omega arith)),
)

pub home_writes-apply :
    (block : ℕ → ℕ) (v : ℕ → Block) (k t : ℕ) (disk : ℕ → Block) (b : ℕ)
    → apply_writes (home_writes block v k t) disk b ≡ (if named block k t b then v b else disk b)
home_writes-apply block v zero t disk b = refl
home_writes-apply block v (suc k) t disk b =
    ground (arith, home_writes-apply block v k (t + 1) (update disk (block t) (v (block t))) b)

pub log_writes_apart :
    (log : FsLog) (v : ℕ → Block) (k t b : ℕ)
    → ((i : ℕ) → t ≤ i → i < t + k → log_block log.start i ≢ b)
    → writes_to b (log_writes log v k t) ≡ false
log_writes_apart log v zero t b h = refl
log_writes_apart log v (suc k) t b h = ground (
  arith,
  h t (omega arith) (omega arith),
  log_writes_apart log v k (t + 1) b (λ i p q. h i (omega arith) (omega arith)),
)

-- After the first loop of a commit the log's `i`-th block is the `i`-th logged block.
pub log_writes-apply :
    (log : FsLog) (v : ℕ → Block) (k t i : ℕ) (disk : ℕ → Block)
    → t ≤ i
    → i < t + k
    → log.start + t + k < 2 ^ 32
    → apply_writes (log_writes log v k t) disk (log_block log.start i) ≡ v (log.block i)
log_writes-apply log v zero t i disk h h' s = absurd (omega arith)
log_writes-apply log v (suc k) t i disk h h' s = elim (dec_lt t i) [
  | yes later ↦
      log_writes-apply log v k (t + 1) i (update disk (log_block log.start t) (v (log.block t)))
        (omega arith) (omega arith) (omega arith)
  | no last ↦
      let e : i ≡ t = omega arith in
      let hit : (log_block log.start t == log_block log.start t) ≡ true = ground arith in
      rw (
        e,
        apply_writes_other (log_writes log v k (t + 1))
            (update disk (log_block log.start t) (v (log.block t))) (log_block log.start t)
            (log_writes_apart log v k (t + 1) _ (λ j p q. omega arith)),
        hit,
      )
]

pub install_writes-home :
    (log : FsLog) (v w : ℕ → Block) (k t : ℕ)
    → ((i : ℕ) → t ≤ i → i < t + k → w (log_block log.start i) ≡ v (log.block i))
    → install_writes log w k t ≡ home_writes log.block v k t
install_writes-home log v w zero t h = refl
install_writes-home log v w (suc k) t h = rw (
  h t (omega arith) (omega arith),
  install_writes-home log v w k (t + 1) (λ i a b. h i (omega arith) (omega arith)),
)
