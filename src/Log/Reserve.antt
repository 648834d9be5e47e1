-- ===== src/Log/Reserve.antt =====
-- Threads that interleave the operations of src/log.c. A thread is inside `begin_op` … `end_op` or
-- outside; inside, its thread-local `n_log_wrote` says how many writes it has logged.
use mathlib.Core.Path.{subst}
use myfuse.Common.{
  ℕ, ◌+◌, ◌-◌, ◌*◌, ◌^◌, ◌≤◌, ◌<◌, ◌≡◌, ap, ◌∙◌, false, List, [], ◌∷◌, ◌++◌, arith, length,
}
use myfuse.Params.{nlog, maxopblocks}
use myfuse.Machine.{Machine, Returns, ok}
use myfuse.Log.Op.{begin_op, end_op, logged_write}
use myfuse.Log.Counters.{begin_op-log, end_op-log, logged_write-log}
use myfuse.Log.Write.{LoggedOnce, logged_write-LoggedOnce}

-- The shared state, and `n_log_wrote` of each operation under way.
pub record System : Type 0 where
  pub machine : Machine
  pub ops : List ℕ

-- A step of one thread. `edits` is all that it does between calls of the log.
pub data Step (s t : System) : Type 0 where
  begins : begin_op s.machine ≡ ok tt t.machine → t.ops ≡ 0 ∷ s.ops → Step s t
  writes :
      (b u : ℕ) (xs ys : List ℕ)
      → s.ops ≡ xs ++ (u ∷ ys)
      → logged_write b s.machine ≡ ok tt t.machine
      → t.ops ≡ xs ++ ((u + 1) ∷ ys)
      → Step s t
  ends :
      (u : ℕ) (xs ys : List ℕ)
      → s.ops ≡ xs ++ (u ∷ ys)
      → end_op s.machine ≡ ok tt t.machine
      → t.ops ≡ xs ++ ys
      → Step s t
  edits : t.machine.log ≡ s.machine.log → t.ops ≡ s.ops → Step s t

pub data Reach (s : System) : System → Type 0 where
  here : Reach s s
  next : {t u : System} → Reach s t → Step t u → Reach s u

abbrev pub AllModest : List ℕ → Type 0
AllModest [] = Unit
AllModest (u ∷ us) = (u < maxopblocks) × AllModest us

-- In no state on the way has an operation under way logged MAXOPBLOCKS writes or more.
unfoldable pub IsModest : {s t : System} → Reach s t → Type 0
IsModest here = Unit
IsModest (next {u = u} r st) = IsModest r × AllModest u.ops

-- the writes that the operations under way may still log
abbrev pub budget : List ℕ → ℕ
budget [] = 0
budget (u ∷ us) = (maxopblocks - u) + budget us

-- The log has room for what the operations under way may still log.
pub record IsReserved (s : System) : Type 0 where
  pub idle : s.machine.log.committing ≡ false
  pub count : s.machine.log.outstanding ≡ length s.ops
  pub room : s.machine.log.n + budget s.ops ≤ nlog
  pub modest : AllModest s.ops
  pub size : nlog ≤ s.machine.log.size
  pub small : s.machine.log.size < 2 ^ 31

budget_bounds :
    (us : List ℕ) → AllModest us → (length us ≤ budget us) × (budget us ≤ maxopblocks * length us)
budget_bounds [] h = omega arith
budget_bounds (u ∷ us) h = omega (arith, budget_bounds us h.1)

-- One operation among the others.
record Among (xs ys : List ℕ) (u : ℕ) : Type 0 where
  with_budget : budget (xs ++ (u ∷ ys)) ≡ budget (xs ++ ys) + (maxopblocks - u)
  with_length : length (xs ++ (u ∷ ys)) ≡ length (xs ++ ys) + 1

among : (xs ys : List ℕ) (u : ℕ) → Among xs ys u
among [] ys u = omega arith
among (x ∷ xs) ys u = omega (arith, among xs ys u)

AllModest-drop :
    (xs ys : List ℕ) (u : ℕ) → AllModest (xs ++ (u ∷ ys)) → (u < maxopblocks) × AllModest (xs ++ ys)
AllModest-drop [] ys u h = h
AllModest-drop (x ∷ xs) ys u h = let r = AllModest-drop xs ys u h.1 in (r.0, (h.0, r.1))

fewer : {s : System} → IsReserved s → (s.machine.log.n ≤ nlog) × (s.machine.log.outstanding ≤ nlog)
fewer {s} i = omega (arith, i.room, i.count, budget_bounds s.ops i.modest)

begins-IsReserved :
    {s t : System}
    → begin_op s.machine ≡ ok tt t.machine
    → t.ops ≡ 0 ∷ s.ops
    → IsReserved s
    → IsReserved t
begins-IsReserved {s} {t} run ops i = record {
  idle = omegas.0;
  count = omegas.1;
  room = omegas.2;
  modest = rw ops (omega arith, i.modest);
  size = omegas.3;
  small = omegas.4;
}
  where
    l :
        (s.machine.log.committing ≡ false)
        × (s.machine.log.n + (s.machine.log.outstanding + 1) * maxopblocks ≤ nlog)
        × (t.machine.log ≡ record s.machine.log { outstanding = s.machine.log.outstanding + 1 })
    l = begin_op-log s.machine (fewer i).0 (fewer i).1 run

    omegas :
        (t.machine.log.committing ≡ false)
        × (t.machine.log.outstanding ≡ length t.ops)
        × (t.machine.log.n + budget t.ops ≤ nlog)
        × (nlog ≤ t.machine.log.size)
        × (t.machine.log.size < 2 ^ 31)
    omegas =
        rw (l.2, ops)
          (
            l.0,
            omega (arith, i.count),
            omega (arith, l.1, i.count, budget_bounds s.ops i.modest),
            i.size,
            i.small,
          )

writes-IsReserved :
    {s t : System} (b u : ℕ) (xs ys : List ℕ)
    → s.ops ≡ xs ++ (u ∷ ys)
    → logged_write b s.machine ≡ ok tt t.machine
    → t.ops ≡ xs ++ ((u + 1) ∷ ys)
    → AllModest t.ops
    → IsReserved s
    → IsReserved t
writes-IsReserved {s} {t} b u xs ys ops run ops' modest i = record {
  idle = l.2 ∙ i.idle;
  count =
      omega
        (arith, l.1, i.count, ap length ops, ap length ops', among xs ys u, among xs ys (u + 1));
  room = omega (
    arith,
    l.0,
    i.room,
    ap budget ops,
    ap budget ops',
    among xs ys u,
    among xs ys (u + 1),
    (AllModest-drop xs ys (u + 1) (subst AllModest ops' modest)).0,
  );
  modest = modest;
  size = omega (arith, l.3, i.size);
  small = omega (arith, l.3, i.small);
}
  where
    l :
        (t.machine.log.n ≤ s.machine.log.n + 1)
        × (t.machine.log.outstanding ≡ s.machine.log.outstanding)
        × (t.machine.log.committing ≡ s.machine.log.committing)
        × (t.machine.log.size ≡ s.machine.log.size)
    l = logged_write-log b s.machine (fewer i).0 run

ends-IsReserved :
    {s t : System} (u : ℕ) (xs ys : List ℕ)
    → s.ops ≡ xs ++ (u ∷ ys)
    → end_op s.machine ≡ ok tt t.machine
    → t.ops ≡ xs ++ ys
    → IsReserved s
    → IsReserved t
ends-IsReserved {s} {t} u xs ys ops run ops' i = record {
  idle = l.2;
  count = omega (arith, l.0, i.count, ap length ops, ap length ops', among xs ys u);
  room = omega (arith, l.1, i.room, ap budget ops, ap budget ops', among xs ys u);
  modest = rw ops' (AllModest-drop xs ys u (subst AllModest ops i.modest)).1;
  size = omega (arith, l.3, i.size);
  small = omega (arith, l.3, i.small);
}
  where
    l :
        (t.machine.log.outstanding + 1 ≡ s.machine.log.outstanding)
        × (t.machine.log.n ≤ s.machine.log.n)
        × (t.machine.log.committing ≡ false)
        × (t.machine.log.size ≡ s.machine.log.size)
    l =
        end_op-log s.machine (fewer i).0 (omega (arith, i.count, ap length ops, among xs ys u))
          (fewer i).1 run

Step-IsReserved : {s t : System} → Step s t → AllModest t.ops → IsReserved s → IsReserved t
Step-IsReserved (begins run ops) modest i = begins-IsReserved run ops i
Step-IsReserved (writes b u xs ys ops run ops') modest i =
    writes-IsReserved b u xs ys ops run ops' modest i
Step-IsReserved (ends u xs ys ops run ops') modest i = ends-IsReserved u xs ys ops run ops' i
Step-IsReserved {s} {t} (edits l ops) modest i = record {
  idle = rw l i.idle;
  count = rw (l, ops) i.count;
  room = rw (l, ops) i.room;
  modest = modest;
  size = rw l i.size;
  small = rw l i.small;
}

-- Whatever steps of the log threads take, in any order, as long as no operation logs MAXOPBLOCKS
-- writes or more before its end (which the log does not check, and `itrunc` does not see to), these
-- stay true if they were at first: no commit is left unfinished, `outstanding` counts the operations
-- under way, what the log holds, with what each of them may still log (MAXOPBLOCKS less its writes so
-- far), is at most NLOG, and the log has at least NLOG blocks and fewer than 2^31.
pub Reach-IsReserved : {s t : System} (r : Reach s t) → IsModest r → IsReserved s → IsReserved t
unfolding IsModest
Reach-IsReserved here modest i = i
Reach-IsReserved (next r st) modest i = Step-IsReserved st modest.1 (Reach-IsReserved r modest.0 i)

-- Take a state in which no commit is left unfinished, `outstanding` counts the operations under
-- way, each of them has logged fewer than MAXOPBLOCKS writes, the log has at least NLOG blocks
-- (fewer than 2^31), and what it holds, with what each operation may still log (MAXOPBLOCKS less
-- its writes so far), is at most NLOG; an empty log with no operation under way is such a state.
-- Let threads take steps of the log from there, in any order, in which no operation logs
-- MAXOPBLOCKS writes or more before its end (which the log does not check, and `itrunc` does not
-- see to). Then an operation that has logged fewer than MAXOPBLOCKS - 1 writes can log one more:
-- the call returns, and the process does not end with "too big a transaction".
pub Reach-logged_write :
    {s t : System} (b u : ℕ) (xs ys : List ℕ)
    → IsReserved s
    → (r : Reach s t) → IsModest r
    → t.ops ≡ xs ++ (u ∷ ys)
    → u + 1 < maxopblocks
    → Returns (λ _. LoggedOnce b t.machine) (logged_write b t.machine)
Reach-logged_write {s} {t} b u xs ys start reach modest ops left =
    logged_write-LoggedOnce b t.machine (record {
      few = omega (arith, i.room, ap budget ops, among xs ys u);
      room = omega (arith, i.room, i.size, ap budget ops, among xs ys u);
      small = i.small;
      inside = omega (arith, i.count, ap length ops, among xs ys u);
      sane = omega (arith, fewer i);
    })
  where
    i : IsReserved t
    i = Reach-IsReserved reach modest start
