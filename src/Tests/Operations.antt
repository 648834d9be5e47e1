-- ===== src/Tests/Operations.antt =====
-- Logged writes and their interleavings.
use myfuse.Common.{refl, arith, [], ◌∷◌}
use myfuse.Machine.{Returns}
use myfuse.Log.Op.{begin_op, logged_write}
use myfuse.Log.Write.{HasRoom, LoggedOnce, logged_write-LoggedOnce}
use myfuse.Log.Reserve.{
  System, begins, Reach, here, next, IsModest, IsReserved, Reach-IsReserved, Reach-logged_write,
}
use myfuse.Tests.Fixture.{idle, busy, after}

busy-HasRoom : HasRoom busy
busy-HasRoom = record {
  few = omega arith;
  room = omega arith;
  small = omega arith;
  inside = omega arith;
  sane = omega arith;
}

logged_write-LoggedOnce_example : Returns (λ _. LoggedOnce 2000 busy) (logged_write 2000 busy)
logged_write-LoggedOnce_example = logged_write-LoggedOnce 2000 busy busy-HasRoom

abbrev start : System
start = record { machine = idle; ops = [] }

-- one operation has begun
abbrev begun : System
begun = record { machine = after (begin_op idle) idle; ops = 0 ∷ [] }

start-IsReserved : IsReserved start
start-IsReserved = record {
  idle = refl;
  count = refl;
  room = omega arith;
  modest = tt;
  size = omega arith;
  small = omega arith;
}

unfoldable begun-Reach : Reach start begun
unfolding begin_op
begun-Reach = next here (begins refl refl)

begun-IsModest : IsModest begun-Reach
unfolding IsModest begun-Reach
begun-IsModest = (tt, (omega arith, tt))

Reach-IsReserved_example : IsReserved begun
Reach-IsReserved_example = Reach-IsReserved begun-Reach begun-IsModest start-IsReserved

Reach-logged_write_example :
    Returns (λ _. LoggedOnce 2000 begun.machine) (logged_write 2000 begun.machine)
Reach-logged_write_example =
    Reach-logged_write 2000 0 [] [] start-IsReserved begun-Reach begun-IsModest refl (omega arith)
