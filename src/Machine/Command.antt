-- ===== src/Machine/Command.antt =====
-- Commands: state passing with the ways in which a call does not return.
use mathlib.Core.Path.{◌≡◌, refl}
use myfuse.Machine.State.{Machine}

-- `exit`: the process ended by `err_exit`. `wait`: it waits for a lock or for space that no one
-- gives back. `fault`: an access out of an array's bounds.
pub data Run (A : Type 0) : Type 0 where
  ok : A → Machine → Run A
  exit : Machine → Run A
  wait : Machine → Run A
  fault : Run A

abbrev pub Cmd : Type 0 → Type 0
Cmd A = Machine → Run A

abbrev pub pure : {A : Type 0} → A → Cmd A
pure = ok

module _ {A B : Type 0} where
  abbrev pub and_then : Run A → (A → Cmd B) → Run B
  and_then (ok a m) k = k a m
  and_then (exit m) k = exit m
  and_then (wait m) k = wait m
  and_then fault k = fault

  infixl 5 ◌>>=◌ ◌>>◌
  abbrev pub ◌>>=◌ : Cmd A → (A → Cmd B) → Cmd B
  c >>= k = λ m. and_then (c m) k

  abbrev pub ◌>>◌ : Cmd A → Cmd B → Cmd B
  c >> d = c >>= λ _. d

abbrev pub state : Cmd Machine
state m = ok m m

abbrev pub modify : (Machine → Machine) → Cmd (Unit {0})
modify f m = ok tt (f m)

abbrev pub err_exit : {A : Type 0} → Cmd A
err_exit m = exit m

-- The call returns, and what it returns satisfies `P`.
pub data Returns {A : Type 0} (P : A → Machine → Type 0) : Run A → Type 0 where
  returns : {a : A} {m : Machine} → P a m → Returns P (ok a m)

module _ {A : Type 0} {P : A → Machine → Type 0} where
  pub Returns-then :
      {B : Type 0} {Q : B → Machine → Type 0} {r : Run A} {k : A → Cmd B}
      → Returns P r
      → ((a : A) (m : Machine) → P a m → Returns Q (k a m))
      → Returns Q (and_then r k)
  Returns-then (returns p) next = next _ _ p

  pub Returns-weaken :
      {Q : A → Machine → Type 0} {r : Run A}
      → Returns P r
      → ((a : A) (m : Machine) → P a m → Q a m)
      → Returns Q r
  Returns-weaken (returns p) weaken = returns (weaken _ _ p)

  pub of_returns : {a : A} {m : Machine} → Returns P (ok a m) → P a m
  of_returns (returns p) = p

  pub Returns-run : {r : Run A} → Returns P r → Returns (λ a m. P a m × (r ≡ ok a m)) r
  Returns-run (returns p) = returns (p, refl)
