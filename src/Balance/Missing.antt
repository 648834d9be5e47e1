-- ===== src/Balance/Missing.antt =====
-- Rules for handlers of src/file.c with a return that no `end_op` comes before.
use mathlib.Core.Path.{subst}
use myfuse.Common.{
  ℕ, refl, ◌-◌, ◌^◌, ◌≡◌, ◌≤◌, ◌<◌, ◌⊎◌, ◌∙◌, sym, Bool, true, false, if◌then◌else◌, Option, none,
  some, add32, arith, inl, inr,
}
use myfuse.Machine.{Machine, Cmd, ok, pure, ◌>>=◌, ◌>>◌}
use myfuse.Machine.Keeps.{Keeps, and_then-ok, ok-value, ok-state}
use myfuse.Log.Op.{begin_op}
use myfuse.File.Errno.{enoent}
use myfuse.Balance.Log.{ops, held, held_lem, begin_op-ops}
use myfuse.Balance.Closing.{Ended, begin_Ended, Ended-after, Closes, Served}
use myfuse.Balance.Handlers.{quiet}

-- The operation is left open, and nothing is written if another was under way.
abbrev pub LeftOpen : Machine → Machine → Type 0
LeftOpen m m' =
    (ops m' ≡ add32 (ops m) 1)
    × (1 ≤ ops m → ops m < 2 ^ 32 - 1 → (m'.disk ≡ m.disk) × (m'.trace ≡ m.trace))

-- Whenever the command returns, its operation has ended, or else it is as it was and the result is
-- -ENOENT. `code` is the number that the result has.
pub record MayClose {A : Type 0} (code : A → ℕ) (c : Cmd A) : Type 0 where
  pub outcome :
      (m : Machine) {m' : Machine} {a : A}
      → c m ≡ ok a m'
      → Ended m m' ⊎ ((code a ≡ enoent) × (held m' ≡ held m))

begin_LeftOpen :
    (m m1 m2 : Machine) {a : Unit {0}} → begin_op m ≡ ok a m1 → held m2 ≡ held m1 → LeftOpen m m2
begin_LeftOpen m m1 m2 e same =
    let (up, d, t) = begin_op-ops m e in
    let (count, quiet) = held_lem m1 m2 same in
    (count ∙ up, λ one few. let (d', t') = quiet (omega (arith, up, one, few)) in (d' ∙ d, t' ∙ t))

module _ {A : Type 0} (code : A → ℕ) where
  pub may_bind :
      {B : Type 0} {c : Cmd B} {k : B → Cmd A}
      → Keeps held c
      → ((b : B) → MayClose code (k b))
      → MayClose code (c >>= k)
  may_bind {c} {k} hc hk = record {
    outcome = λ m {m'} e.
        let (b, m1, e1, e2) = and_then-ok (c m) k e in
        elim ((hk b).outcome m1 e2) [
          | inl ended ↦ inl (Ended-after m m1 m' (hc.kept e1) ended)
          | inr (result, same) ↦ inr (result, same ∙ hc.kept e1)
        ];
  }

  pub may_close : {c : Cmd A} → Closes c → MayClose code c
  may_close h = record { outcome = λ m e. inl (h.closed e) }

  pub may_miss : (a : A) → code a ≡ enoent → MayClose code (pure a)
  may_miss a missing = record {
    outcome = λ m e. inr (
      subst (λ b. code b ≡ enoent) (ok-value e) missing,
      subst (λ s. held s ≡ held m) (ok-state e) refl,
    );
  }

  pub may_option :
      {X : Type 0} (x : Option X) {c : Cmd A} {d : X → Cmd A}
      → MayClose code c
      → ((y : X) → MayClose code (d y))
      → MayClose code (elim x [ none ↦ c | some y ↦ d y ])
  may_option none hc hd = hc
  may_option (some y) hc hd = hd y

  pub may_if :
      {c d : Cmd A} (b : Bool)
      → MayClose code c
      → MayClose code d
      → MayClose code (if b then c else d)
  may_if true hc hd = hc
  may_if false hc hd = hd

  -- what a request does whose body may leave its operation open
  pub opened :
      {c : Cmd A} (m : Machine) {m' : Machine} {a : A}
      → (begin_op >> c) m ≡ ok a m'
      → MayClose code c
      → Served m m' ⊎ ((code a ≡ enoent) × LeftOpen m m')
  opened {c} m {m'} e h =
      let (b, m1, e1, e2) = and_then-ok (begin_op m) (λ _. c) e in
      elim (h.outcome m1 e2) [
        | inl ended ↦ inl (begin_Ended m m1 m' e1 ended)
        | inr (result, same) ↦ inr (result, begin_LeftOpen m m1 m' e1 same)
      ]

-- how a request ends
abbrev pub Outcome : Machine → Machine → ℕ → Type 0
Outcome m m' a = Served m m' ⊎ ((a ≡ enoent) × LeftOpen m m')

abbrev pub self : ℕ → ℕ
self a = a

-- `open_new` ends the operation exactly where it finds no directory.
pub record EndsIfNone {X : Type 0} (c : Cmd (Option X)) : Type 0 where
  pub ends :
      (m : Machine) {m' : Machine} {a : Option X}
      → c m ≡ ok a m'
      → ((a ≡ none) × Ended m m') ⊎ (held m' ≡ held m)

module _ {X : Type 0} where
  pub ends_bind :
      {B : Type 0} {c : Cmd B} {k : B → Cmd (Option X)}
      → Keeps held c
      → ((b : B) → EndsIfNone (k b))
      → EndsIfNone (c >>= k)
  ends_bind {c} {k} hc hk = record {
    ends = λ m {m'} e.
        let (b, m1, e1, e2) = and_then-ok (c m) k e in
        elim ((hk b).ends m1 e2) [
          | inl (result, ended) ↦ inl (result, Ended-after m m1 m' (hc.kept e1) ended)
          | inr same ↦ inr (same ∙ hc.kept e1)
        ];
  }

  pub ends_option :
      {Y : Type 0} (x : Option Y) {c : Cmd (Option X)} {d : Y → Cmd (Option X)}
      → EndsIfNone c
      → ((y : Y) → EndsIfNone (d y))
      → EndsIfNone (elim x [ none ↦ c | some y ↦ d y ])
  ends_option none hc hd = hc
  ends_option (some y) hc hd = hd y

  pub ends_none : {c : Cmd (Unit {0})} → Closes c → EndsIfNone {X = X} (c >>= λ _. pure none)
  ends_none {c} h = record {
    ends = λ m e.
        let (b, m1, e1, e2) = and_then-ok (c m) (λ _. pure none) e in
        inl (sym (ok-value e2), subst (λ x. Ended m x) (ok-state e2) (h.closed e1));
  }

  pub ends_kept : {c : Cmd (Option X)} → Keeps held c → EndsIfNone c
  ends_kept h = record { ends = λ m e. inr (h.kept e) }

  -- what a result `none` is answered with, and what is done with another
  pub may_after :
      {A : Type 0} (code : A → ℕ) {c : Cmd (Option X)} (a : A) {k : X → Cmd A}
      → EndsIfNone c
      → code a ≡ enoent
      → ((x : X) → Closes (k x))
      → MayClose code (c >>= λ made. elim made [ none ↦ pure a | some x ↦ k x ])
  may_after {A} code {c} a {k} hc missing hk = record {
    outcome = λ m {m'} e.
        let after : Option X → Cmd A = λ made. elim made [ none ↦ pure a | some x ↦ k x ] in
        let (made, m1, e1, e2) = and_then-ok (c m) after e in
        elim (hc.ends m e1) [
          | inl (result, ended) ↦
              let e3 = rw result at e2 in inl (subst (λ x. Ended m x) (ok-state e3) ended)
          | inr same ↦
              elim ((may_option code made (may_miss code a missing)
                  (λ x. may_close code (hk x))).outcome
                m1 e2) [
                  | inl ended ↦ inl (Ended-after m m1 m' same ended)
                  | inr (result, same') ↦ inr (result, same' ∙ same)
                ]
        ];
  }
