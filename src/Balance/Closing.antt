-- ===== src/Balance/Closing.antt =====
-- Commands that end the operation they run in, and operations that are begun and ended.
use mathlib.Core.Path.{subst}
use myfuse.Common.{
  ℕ, ◌^◌, ◌<◌, List, ◌≤◌, ◌-◌, ◌≡◌, ap, ◌∙◌, Bool, true, false, if◌then◌else◌, arith, add32, sub32,
  Option, none, some,
}
use myfuse.Machine.{Machine, Cmd, ok, fault, pure, ◌>>=◌, ◌>>◌, err_exit, wait}
use myfuse.Machine.Keeps.{Keeps, and_then-ok, ok-state}
use myfuse.Log.Op.{begin_op, end_op}
use myfuse.File.Table.{deref}
use myfuse.Machine.Block.{Block}
use myfuse.Balance.Log.{ops, Shared, held, held_lem, begin_op-ops, end_op-ops}

-- What holds of two states when an operation has ended between them.
abbrev pub Ended : Machine → Machine → Type 0
Ended m m' = (ops m' ≡ sub32 (ops m) 1) × (Shared m → (m'.disk ≡ m.disk) × (m'.trace ≡ m.trace))

-- Whenever the command returns, the operation that it runs in has ended.
pub record Closes {A : Type 0} (c : Cmd A) : Type 0 where
  pub closed : {m m' : Machine} {a : A} → c m ≡ ok a m' → Ended m m'

pub end_op-Closes : Closes end_op
end_op-Closes = record { closed = λ {m} e. end_op-ops m e }

-- The operation ends after what leaves it alone.
pub Ended-after : (m m1 m2 : Machine) → held m1 ≡ held m → Ended m1 m2 → Ended m m2
Ended-after m m1 m2 same (down, quiet) =
    let (same_ops, still) = held_lem m m1 same in
    (
      down ∙ ap (λ x. sub32 x 1) same_ops,
      λ more.
          let (d, t) = quiet (omega (arith, same_ops, more)) in
          let (d', t') = still more in (d ∙ d', t ∙ t'),
    )

module _ {A : Type 0} where
  pub Closes-bind :
      {B : Type 0} {c : Cmd B} {k : B → Cmd A}
      → Keeps held c
      → ((b : B) → Closes (k b))
      → Closes (c >>= k)
  Closes-bind {c} {k} hc hk = record {
    closed = λ {m} {m'} e.
        let (b, m1, e1, e2) = and_then-ok (c m) k e in
        Ended-after m m1 m' (hc.kept e1) ((hk b).closed e2);
  }

  -- The operation ends, and then a result is given.
  pub Closes-then : {B : Type 0} {c : Cmd B} (k : B → A) → Closes c → Closes (c >>= λ b. pure (k b))
  Closes-then {c} k hc = record {
    closed = λ {m} e.
        let (b, m1, e1, e2) = and_then-ok (c m) (λ b. pure (k b)) e in
        subst (λ x. Ended m x) (ok-state e2) (hc.closed e1);
  }

  pub Closes-exit : Closes (err_exit {A = A})
  Closes-exit = record { closed = λ e. cc e }

  pub Closes-wait : Closes {A = A} wait
  Closes-wait = record { closed = λ e. cc e }

  pub Closes-fault : Closes {A = A} (λ _. fault)
  Closes-fault = record { closed = λ e. cc e }

  pub Closes-if : {c d : Cmd A} (b : Bool) → Closes c → Closes d → Closes (if b then c else d)
  Closes-if true hc hd = hc
  Closes-if false hc hd = hd

  pub Closes-option :
      {X : Type 0} (x : Option X) {c : Cmd A} {d : X → Cmd A}
      → Closes c
      → ((y : X) → Closes (d y))
      → Closes (elim x [ none ↦ c | some y ↦ d y ])
  Closes-option none hc hd = hc
  Closes-option (some y) hc hd = hd y

-- What holds of the states before and after a request that ends the operation it begins: the count
-- is the same, and nothing is written while another operation is under way.
abbrev pub Served : Machine → Machine → Type 0
Served m m' =
    (ops m' ≡ ops m) × (1 ≤ ops m → ops m < 2 ^ 32 - 1 → (m'.disk ≡ m.disk) × (m'.trace ≡ m.trace))

pub begin_Ended :
    (m m1 m2 : Machine) {a : Unit {0}} → begin_op m ≡ ok a m1 → Ended m1 m2 → Served m m2
begin_Ended m m1 m2 e (down, quiet) =
    let (up, d, t) = begin_op-ops m e in
    (
      down ∙ ap (λ x. sub32 x 1) up ∙ up_down (ops m) (omega arith),
      λ one few. let (d', t') = quiet (omega (arith, up, one, few)) in (d' ∙ d, t' ∙ t),
    )
  where
    up_down : (n : ℕ) → n < 2 ^ 32 → sub32 (add32 n 1) 1 ≡ n
    up_down n h = omega arith

-- What is on the disk, with the count.
abbrev pub whole : Machine → ℕ × (ℕ → Block) × List (ℕ × Block)
whole m = (ops m, m.disk, m.trace)

-- Whenever the request returns, it has ended the operation it began, if it began one.
pub record Serves {A : Type 0} (c : Cmd A) : Type 0 where
  pub served : (m : Machine) {m' : Machine} {a : A} → c m ≡ ok a m' → Served m m'

still : (m m' : Machine) → whole m' ≡ whole m → Served m m'
still m m' e = (ap (λ x. x.0) e, λ _ _. (ap (λ x. x.1) e, ap (λ x. x.2) e))

module _ {A : Type 0} where
  pub Serves-balanced : {c : Cmd A} → Closes c → Serves (begin_op >> c)
  Serves-balanced {c} h = record {
    served = λ m {m'} e.
        let (b, m1, e1, e2) = and_then-ok (begin_op m) (λ _. c) e in
        begin_Ended m m1 m' e1 (h.closed e2);
  }

  pub Serves-kept : {c : Cmd A} → Keeps whole c → Serves c
  Serves-kept h = record { served = λ m {m'} e. still m m' (h.kept e) }

  pub Serves-exit : Serves (err_exit {A = A})
  Serves-exit = record { served = λ m e. cc e }

  pub Serves-fault : Serves {A = A} (λ _. fault)
  Serves-fault = record { served = λ m e. cc e }

  pub Serves-if : {c d : Cmd A} (b : Bool) → Serves c → Serves d → Serves (if b then c else d)
  Serves-if true hc hd = hc
  Serves-if false hc hd = hd

  -- a request after what leaves the disk alone, and before a result is given
  pub Serves-bind :
      {B : Type 0} {c : Cmd B} {k : B → Cmd A}
      → Keeps whole c
      → ((b : B) → Serves (k b))
      → Serves (c >>= k)
  Serves-bind {c} {k} hc hk = record {
    served = λ m {m'} e.
        let (b, m1, e1, e2) = and_then-ok (c m) k e in
        served_after m m1 m' (hc.kept e1) ((hk b).served m1 e2);
  }
    where
      served_after : (m m1 m2 : Machine) → whole m1 ≡ whole m → Served m1 m2 → Served m m2
      served_after m m1 m2 e (count, quiet) =
          let same : ops m1 ≡ ops m = ap (λ x. x.0) e in
          (
            count ∙ same,
            λ one few.
                let (d, t) = quiet (omega (arith, one, same)) (omega (arith, few, same)) in
                (d ∙ ap (λ x. x.1) e, t ∙ ap (λ x. x.2) e),
          )

  pub Serves-then : {B : Type 0} {c : Cmd B} (k : B → A) → Serves c → Serves (c >>= λ b. pure (k b))
  Serves-then {c} k hc = record {
    served = λ m e.
        let (b, m1, e1, e2) = and_then-ok (c m) (λ b. pure (k b)) e in
        subst (Served m) (ok-state e2) (hc.served m e1);
  }

  pub Serves-deref :
      (x : Option ℕ) (k : ℕ → Cmd A) → ((ip : ℕ) → Serves (k ip)) → Serves (deref x k)
  Serves-deref none k h = Serves-fault
  Serves-deref (some ip) k h = h ip

pub ruleset closing =
    (Closes-bind, Closes-then, Closes-exit, Closes-wait, Closes-fault, Closes-if, end_op-Closes)
