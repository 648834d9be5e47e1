-- ===== src/Log/Write.antt =====
-- `logged_write` of src/log.c: write absorption, and the pin of a buffer that is logged anew.
use mathlib.Core.Path.{fun_ext}
use myfuse.Common.{
  ℕ, zero, suc, ◌+◌, ◌^◌, ◌≤◌, ◌<◌, ◌≡◌, refl, ap, Bool, true, false, not, ◌||◌, ◌&&◌, arith, ◌==◌,
  lt_int, add32, sub32, if◌then◌else◌, inl, inr, Bool-cases, update,
}
use myfuse.Params.{nlog}
use myfuse.Machine.{Machine, Returns, returns}
use myfuse.Machine.Buffer.{view, bpin}
use myfuse.Log.Images.{named}
use myfuse.Log.Op.{find_block, logged_write}

find_block-new :
    (block : ℕ → ℕ) (b k i : ℕ) → named block k i b ≡ false → find_block block b k i ≡ i + k
unfolding find_block
find_block-new block b zero i h = omega arith
find_block-new block b (suc k) i h = ground (arith, find_block-new block b k (i + 1))

find_block-old :
    (block : ℕ → ℕ) (b k i : ℕ)
    → named block k i b ≡ true
    → (i ≤ find_block block b k i)
      × (find_block block b k i < i + k)
      × (block (find_block block b k i) ≡ b)
unfolding find_block
find_block-old block b zero i h = cc h
find_block-old block b (suc k) i h = ground (arith, find_block-old block b k (i + 1))

named-snoc :
    (block : ℕ → ℕ) (k t c : ℕ)
    → named block (suc k) t c ≡ (named block k t c || block (t + k) == c)
named-snoc block zero t c = let e : t + 0 ≡ t = omega arith in rw e (ground arith)
named-snoc block (suc k) t c =
    let e : t + suc k ≡ t + 1 + k = omega arith in
    rw e (ground (arith, named-snoc block k (t + 1) c))

named-update_beyond :
    (block : ℕ → ℕ) (k t j b c : ℕ) → t + k ≤ j → named (update block j b) k t c ≡ named block k t c
named-update_beyond block zero t j b c h = refl
named-update_beyond block (suc k) t j b c h =
    ground (arith, named-update_beyond block k (t + 1) j b c)

named-append :
    (block : ℕ → ℕ) (n b c : ℕ)
    → named (update block n b) (suc n) 0 c ≡ (named block n 0 c || b == c)
named-append block n b c =
    ground (arith, named-snoc (update block n b) n 0 c, named-update_beyond block n 0 n b c)

-- The log has room for one more block and an operation is under way.
pub record HasRoom (m : Machine) : Type 0 where
  pub few : m.log.n < nlog
  pub room : m.log.n + 1 < m.log.size
  pub small : m.log.size < 2 ^ 31
  pub inside : 0 < m.log.outstanding
  pub sane : m.log.outstanding < 2 ^ 31

abbrev pub is_logged : Machine → ℕ → Bool
is_logged m = named m.log.block m.log.n 0

-- Block `b` is logged now, once; a block that was not logged before has one more reference.
pub record LoggedOnce (b : ℕ) (m m' : Machine) : Type 0 where
  pub entries : (c : ℕ) → is_logged m' c ≡ (is_logged m c || b == c)
  pub count : m'.log.n ≡ (if is_logged m b then m.log.n else m.log.n + 1)
  pub pins :
      (c : ℕ)
      → (m'.bufs c).refcnt
        ≡ (if b == c && not (is_logged m b) then add32 (m.bufs c).refcnt 1 else (m.bufs c).refcnt)
  pub seen : view m' ≡ view m
  pub disk : m'.disk ≡ m.disk
  pub trace : m'.trace ≡ m.trace
  pub counted : m'.n_log_wrote ≡ add32 m.n_log_wrote 1
  pub locks : (c : ℕ) → (m'.bufs c).locked ≡ (m.bufs c).locked
  pub rest : (m'.log.size ≡ m.log.size) × (m'.log.outstanding ≡ m.log.outstanding)

room-tests :
    {m : Machine}
    → HasRoom m
    → ((not (lt_int m.log.n nlog) || not (lt_int m.log.n (sub32 m.log.size 1))) ≡ false)
      × (lt_int m.log.outstanding 1 ≡ false)
room-tests h = ground arith

update-same : (block : ℕ → ℕ) (i b : ℕ) → block i ≡ b → update block i b ≡ block
update-same block i b h = fun_ext λ j. ground (arith, ap block)

-- With room for one more block in the log and an operation under way, `logged_write` returns. The
-- log then lists block `b` and what it listed before; a block that was listed already costs no
-- further entry, and a new one is pinned once. No buffer's contents or lock and no block on the disk
-- change.
pub logged_write-LoggedOnce :
    (b : ℕ) (m : Machine) → HasRoom m → Returns (λ _. LoggedOnce b m) (logged_write b m)
unfolding logged_write bpin
logged_write-LoggedOnce b m h = elim (Bool-cases (is_logged m b)) [
  | inl is ↦
      let at = find_block-old m.log.block b m.log.n 0 is in
      let miss : (find_block m.log.block b m.log.n 0 == m.log.n) ≡ false = ground (arith, at) in
      rw
        (
          (room-tests h).0,
          (room-tests h).1,
          miss,
          update-same m.log.block (find_block m.log.block b m.log.n 0) b at.2,
        )
        (returns (record {
          entries = λ c. ground arith;
          count = rw is;
          pins = λ c. rw is (ground arith);
          seen = refl;
          disk = refl;
          trace = refl;
          counted = refl;
          locks = λ c. refl;
          rest = (refl, refl);
        }))
  | inr new ↦
      let at : find_block m.log.block b m.log.n 0 ≡ m.log.n =
        omega (arith, find_block-new m.log.block b m.log.n 0 new) in
      let hit : (m.log.n == m.log.n) ≡ true = ground arith in
      rw ((room-tests h).0, (room-tests h).1, at, hit)
        (returns (record {
          entries = λ c.
              let e : add32 m.log.n 1 ≡ suc m.log.n = omega (arith, h.few) in
              rw e (named-append m.log.block m.log.n b c);
          count = rw new (omega (arith, h.few));
          pins = λ c. rw new (ground arith);
          seen = fun_ext λ c. ground arith;
          disk = refl;
          trace = refl;
          counted = refl;
          locks = λ c. ground arith;
          rest = (refl, refl);
        }))
]
