-- ===== src/Machine/Buffer.antt =====
-- The buffer cache as the other layers see it: src/buf_cache.c less the choice of the buffer that
-- is recycled. A block is read from the disk once, and then its buffer is its contents.
use myfuse.Common.{ℕ, true, false, [], ◌∷◌, ◌++◌, if◌then◌else◌, add32, sub32, update}
use myfuse.Machine.Block.{Block}
use myfuse.Machine.State.{Machine, Buf}
use myfuse.Machine.Command.{Cmd, ok, wait}

-- What `bread` of block `b` would show.
abbrev pub view : Machine → ℕ → Block
view m b = if (m.bufs b).valid then (m.bufs b).contents else m.disk b

abbrev pub set_buf : Machine → ℕ → Buf → Machine
set_buf m b buf = record m { bufs = update m.bufs b buf }

-- `bread`, which locks the buffer: a second call before `brelse` waits for ever.
unfoldable pub bread : ℕ → Cmd (Unit {0})
bread b m =
    if (m.bufs b).locked
    then wait m
    else ok tt (
        set_buf m b (record {
          contents = view m b;
          valid = true;
          locked = true;
          refcnt = add32 (m.bufs b).refcnt 1;
        }))

-- `b->data`
unfoldable pub buf_data : ℕ → Cmd Block
buf_data b m = ok (m.bufs b).contents m

-- `b->data = d`
unfoldable pub set_data : ℕ → Block → Cmd (Unit {0})
set_data b d m = ok tt (set_buf m b (record (m.bufs b) { contents = d }))

-- `bwrite`: the whole block is written, at once.
unfoldable pub bwrite : ℕ → Cmd (Unit {0})
bwrite b m = ok tt (record m {
  disk = update m.disk b (m.bufs b).contents;
  trace = m.trace ++ ((b, (m.bufs b).contents) ∷ []);
})

unfoldable pub brelse : ℕ → Cmd (Unit {0})
brelse b m =
    ok tt (set_buf m b (record (m.bufs b) { locked = false; refcnt = sub32 (m.bufs b).refcnt 1 }))

unfoldable pub bpin : ℕ → Cmd (Unit {0})
bpin b m = ok tt (set_buf m b (record (m.bufs b) { refcnt = add32 (m.bufs b).refcnt 1 }))

unfoldable pub bunpin : ℕ → Cmd (Unit {0})
bunpin b m = ok tt (set_buf m b (record (m.bufs b) { refcnt = sub32 (m.bufs b).refcnt 1 }))
