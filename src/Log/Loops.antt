-- ===== src/Log/Loops.antt =====
-- The two loops of a commit, as lists of writes.
use myfuse.Common.{
  ℕ, zero, suc, ◌+◌, ◌^◌, ◌≤◌, ◌<◌, ◌≡◌, ◌≢◌, refl, ap, ◌∙◌, ◌⊎◌, Bool, false, [], ◌∷◌, arith, ◌==◌,
}
use mathlib.Core.Path.{subst}
use myfuse.Machine.{FsLog, Machine, Returns, returns, Returns-then, Returns-weaken}
use myfuse.Machine.Block.{Block}
use myfuse.Machine.Buffer.{view}
use myfuse.Machine.Effect.{Writes, Wrote, Wrote-nil, Wrote-append}
use myfuse.Log.Header.{log_block}
use myfuse.Log.Commit.{log_loop, install_loop}
use myfuse.Log.Steps.{log_one_block-Wrote, install_block-Wrote}

-- Block `b` is no block of the log.
abbrev pub Outside : FsLog → ℕ → Type 0
Outside log b = (b < log.start) ⊎ (log.start + log.size ≤ b)

-- The entries from `t` on, `k` of them, fit in the log and name blocks outside it.
pub record Fits (log : FsLog) (k t : ℕ) : Type 0 where
  pub room : t + k < log.size
  pub small : log.start + log.size ≤ 2 ^ 32
  pub outside : (i : ℕ) → t ≤ i → i < t + k → Outside log (log.block i)

abbrev pub AllFree : Machine → Type 0
AllFree m = (b : ℕ) → (m.bufs b).locked ≡ false

-- What `write_from_cache_to_log` writes: block `v (block i)` goes to the log.
abbrev pub log_writes : FsLog → (ℕ → Block) → ℕ → ℕ → Writes
log_writes log v zero t = []
log_writes log v (suc k) t = (log_block log.start t, v (log.block t)) ∷ log_writes log v k (t + 1)

-- What `install_transaction` writes: the log's block goes to its place.
abbrev pub install_writes : FsLog → (ℕ → Block) → ℕ → ℕ → Writes
install_writes log v zero t = []
install_writes log v (suc k) t =
    (log.block t, v (log_block log.start t)) ∷ install_writes log v k (t + 1)

Fits-next : {log : FsLog} {k t : ℕ} → Fits log (suc k) t → Fits log k (t + 1)
Fits-next f = record {
  room = omega (arith, f.room);
  small = f.small;
  outside = λ i h h'. f.outside i (omega arith) (omega arith);
}

apart : {log : FsLog} {k t : ℕ} → Fits log (suc k) t → (log.block t ≢ log_block log.start t)
apart {t} f = omega (arith, f.outside t (omega arith) (omega arith), f.room, f.small)

log_writes-agree :
    (log : FsLog) (v w : ℕ → Block) (k t : ℕ)
    → ((i : ℕ) → t ≤ i → i < t + k → v (log.block i) ≡ w (log.block i))
    → log_writes log v k t ≡ log_writes log w k t
log_writes-agree log v w zero t h = refl
log_writes-agree log v w (suc k) t h = rw (
  h t (omega arith) (omega arith),
  log_writes-agree log v w k (t + 1) (λ i a b. h i (omega arith) (omega arith)),
)

install_writes-agree :
    (log : FsLog) (v w : ℕ → Block) (k t : ℕ)
    → ((i : ℕ) → t ≤ i → i < t + k → v (log_block log.start i) ≡ w (log_block log.start i))
    → install_writes log v k t ≡ install_writes log w k t
install_writes-agree log v w zero t h = refl
install_writes-agree log v w (suc k) t h = rw (
  h t (omega arith) (omega arith),
  install_writes-agree log v w k (t + 1) (λ i a b. h i (omega arith) (omega arith)),
)

seen_other :
    {to : ℕ} {d : Block} {m m1 : Machine} (b : ℕ)
    → Wrote ((to, d) ∷ []) m m1
    → b ≢ to
    → view m1 b ≡ view m b
seen_other {to} {d} {m} b w ne =
    let miss : (to == b) ≡ false = ground arith in ap (λ f. f b) w.seen ∙ rw miss

next_log_block :
    {log : FsLog} {k t : ℕ}
    → Fits log (suc k) t
    → (i : ℕ) → t + 1 ≤ i
    → i < t + 1 + k
    → (log.block i ≢ log_block log.start t) × (log_block log.start i ≢ log.block t)
next_log_block {t} f i h h' = omega (
  arith,
  f.outside i (omega arith) (omega arith),
  f.outside t (omega arith) (omega arith),
  f.room,
  f.small,
)

pub log_loop-Wrote :
    (k t : ℕ) (m : Machine)
    → Fits m.log k t
    → AllFree m
    → Returns (λ _. Wrote (log_writes m.log (view m) k t) m) (log_loop k t m)
unfolding log_loop
log_loop-Wrote zero t m f u = returns (Wrote-nil m)
log_loop-Wrote (suc k) t m f u =
    Returns-then (log_one_block-Wrote m t (apart f) (u _) (u _)) λ _ m1 w.
      let same : log_writes m1.log (view m1) k (t + 1) ≡ log_writes m.log (view m) k (t + 1) =
        ap (λ l. log_writes l (view m1) k (t + 1)) w.log
        ∙ log_writes-agree m.log (view m1) (view m) k (t + 1)
            (λ i h h'. seen_other (m.log.block i) w (next_log_block f i h h').0) in
      Returns-weaken (log_loop-Wrote k (t + 1) m1 (rw w.log (Fits-next f)) (λ b. w.locks b ∙ u b))
        λ _ m2 w'. Wrote-append w (subst (λ ws. Wrote ws m1 m2) same w')

pub install_loop-Wrote :
    (recovering : Bool) (k t : ℕ) (m : Machine)
    → Fits m.log k t
    → AllFree m
    → Returns (λ _. Wrote (install_writes m.log (view m) k t) m) (install_loop recovering k t m)
unfolding install_loop
install_loop-Wrote recovering zero t m f u = returns (Wrote-nil m)
install_loop-Wrote recovering (suc k) t m f u =
    Returns-then (install_block-Wrote m t recovering (apart f) (u _) (u _)) λ _ m1 w.
      let same : install_writes m1.log (view m1) k (t + 1)
          ≡ install_writes m.log (view m) k (t + 1) =
        ap (λ l. install_writes l (view m1) k (t + 1)) w.log
        ∙ install_writes-agree m.log (view m1) (view m) k (t + 1)
            (λ i h h'. seen_other (log_block m.log.start i) w (next_log_block f i h h').1) in
      Returns-weaken
        (install_loop-Wrote recovering k (t + 1) m1 (rw w.log (Fits-next f)) (λ b. w.locks b ∙ u b))
        λ _ m2 w'. Wrote-append w (subst (λ ws. Wrote ws m1 m2) same w')
