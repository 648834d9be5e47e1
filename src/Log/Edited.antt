-- ===== src/Log/Edited.antt =====
-- A block that is read, changed in its buffer, logged and released: the shape of every change that
-- the upper layers make to a block.
use myfuse.Common.{ℕ, ◌+◌, ◌^◌, ◌≤◌, ◌<◌, ◌≡◌, true, false, arith, add32}
use myfuse.Params.{nlog}
use myfuse.Machine.{Machine, Cmd, Returns, returns, Returns-then, ◌>>=◌, ◌>>◌}
use myfuse.Machine.Block.{Block}
use myfuse.Machine.Buffer.{bread, buf_data, set_data, brelse, set_buf, view}
use myfuse.Log.Op.{logged_read, logged_write, logged_relse}
use myfuse.Log.Write.{logged_write-LoggedOnce}

abbrev pub edit_block : ℕ → (Block → Block) → Cmd (Unit {0})
edit_block b f = do logged_read b; d ← buf_data b; set_data b (f d); logged_write b; logged_relse b

-- Room in the log for `k` more blocks, in an operation.
pub record HasRoomFor (k : ℕ) (m : Machine) : Type 0 where
  pub few : m.log.n + k ≤ nlog
  pub room : m.log.n + k < m.log.size
  pub small : m.log.size < 2 ^ 31
  pub inside : 0 < m.log.outstanding
  pub sane : m.log.outstanding < 2 ^ 31

-- No lock is left changed, and at most one more block is logged.
pub record Edited (m m' : Machine) : Type 0 where
  pub locks : (c : ℕ) → (m'.bufs c).locked ≡ (m.bufs c).locked
  pub more : m'.log.n ≤ m.log.n + 1
  pub size : m'.log.size ≡ m.log.size
  pub ops : m'.log.outstanding ≡ m.log.outstanding

pub HasRoomFor-Edited :
    (k : ℕ) {m m' : Machine} → Edited m m' → HasRoomFor (k + 1) m → HasRoomFor k m'
HasRoomFor-Edited k e h = record {
  few = omega (arith, e.more, h.few);
  room = omega (arith, e.more, e.size, h.room);
  small = omega (arith, e.size, h.small);
  inside = omega (arith, e.ops, h.inside);
  sane = omega (arith, e.ops, h.sane);
}

pub edit_block-Edited :
    (k b : ℕ) (f : Block → Block) (m : Machine)
    → HasRoomFor (k + 1) m
    → (m.bufs b).locked ≡ false
    → Returns (λ _. Edited m) (edit_block b f m)
unfolding logged_read logged_relse bread buf_data set_data brelse
edit_block-Edited k b f m h unlocked = rw unlocked (
    Returns-then
      (logged_write-LoggedOnce b m1 (record {
        few = omega (arith, h.few);
        room = omega (arith, h.room);
        small = h.small;
        inside = h.inside;
        sane = h.sane;
      }))
      λ _ m2 w. returns (record {
        locks = λ c. ground (arith, w.locks c, unlocked);
        more = ground (arith, w.count);
        size = w.rest.0;
        ops = w.rest.1;
      }))
  where
    m0 : Machine
    m0 = set_buf m b (record {
      contents = view m b;
      valid = true;
      locked = true;
      refcnt = add32 (m.bufs b).refcnt 1;
    })

    m1 : Machine
    m1 = set_buf m0 b (record (m0.bufs b) { contents = f (m0.bufs b).contents })
