-- ===== src/Machine/Keeps.antt =====
-- Commands that leave a part of the state alone whenever they return.
use mathlib.Core.Path.{subst}
use myfuse.Common.{ℕ, ◌≡◌, refl, ◌∙◌, Bool, true, false, inl, inr, Bool-cases, if◌then◌else◌, List}
use myfuse.Machine.State.{Machine, Buf}
use myfuse.Machine.Block.{Block}
use myfuse.Machine.Command.{
  Run, Cmd, ok, exit, wait, fault, and_then, ◌>>=◌, pure, state, modify, err_exit,
}
use myfuse.Machine.Buffer.{bread, buf_data, set_data, bwrite, brelse, bpin, bunpin}

module _ {A B : Type 0} where
  pub and_then-ok :
      (r : Run A) (k : A → Cmd B) {b : B} {m' : Machine}
      → and_then r k ≡ ok b m'
      → (a : A) × (m : Machine) × (r ≡ ok a m) × (k a m ≡ ok b m')
  and_then-ok (ok a m) k e = (a, m, refl, e)
  and_then-ok (exit m) k e = cc
  and_then-ok (wait m) k e = cc
  and_then-ok fault k e = cc

pub ok-state : {A : Type 0} {a b : A} {m m' : Machine} → ok a m ≡ ok b m' → m ≡ m'
ok-state e = cc e

pub ok-value : {A : Type 0} {a b : A} {m m' : Machine} → ok a m ≡ ok b m' → a ≡ b
ok-value e = cc e

pub record Keeps {X A : Type 0} (part : Machine → X) (c : Cmd A) : Type 0 where
  pub kept : {m m' : Machine} {a : A} → c m ≡ ok a m' → part m' ≡ part m

-- The part does not look at the buffers, the disk and its trace.
pub record IsAbove {X : Type 0} (part : Machine → X) : Type 0 where
  pub bufs : (m : Machine) (bs : ℕ → Buf) → part (record m { bufs = bs }) ≡ part m
  pub disk :
      (m : Machine) (d : ℕ → Block) (t : List (ℕ × Block))
      → part (record m { disk = d; trace = t }) ≡ part m

-- The part does not look at the buffers.
pub record IsOffBufs {X : Type 0} (part : Machine → X) : Type 0 where
  pub bufs : (m : Machine) (bs : ℕ → Buf) → part (record m { bufs = bs }) ≡ part m

module _ {X : Type 0} {part : Machine → X} where
  pub off_bufs : IsAbove part → IsOffBufs part
  off_bufs above = record { bufs = above.bufs }

  pub keeps_bind :
      {A B : Type 0} {c : Cmd A} {k : A → Cmd B}
      → Keeps part c
      → ((a : A) → Keeps part (k a))
      → Keeps part (c >>= k)
  keeps_bind {c} {k} hc hk = record {
    kept = λ {m} {m'} {a} e.
        let (b, m1, e1, e2) = and_then-ok (c m) k e in (hk b).kept e2 ∙ hc.kept e1;
  }

  pub keeps_pure : {A : Type 0} (a : A) → Keeps part (pure a)
  keeps_pure a = record { kept = λ {m} e. subst (λ x. part x ≡ part m) (ok-state e) refl }

  pub keeps_state : Keeps part state
  keeps_state = record { kept = λ {m} e. subst (λ x. part x ≡ part m) (ok-state e) refl }

  pub keeps_exit : {A : Type 0} → Keeps part (err_exit {A = A})
  keeps_exit = record { kept = λ e. cc e }

  pub keeps_wait : {A : Type 0} → Keeps {A = A} part wait
  keeps_wait = record { kept = λ e. cc e }

  pub keeps_fault : {A : Type 0} → Keeps {A = A} part (λ _. fault)
  keeps_fault = record { kept = λ e. cc e }

  pub keeps_modify :
      (f : Machine → Machine) → ((m : Machine) → part (f m) ≡ part m) → Keeps part (modify f)
  keeps_modify f h = record { kept = λ {m} e. subst (λ x. part x ≡ part m) (ok-state e) (h m) }

  pub keeps_if :
      {A : Type 0} {c d : Cmd A} (b : Bool)
      → Keeps part c
      → Keeps part d
      → Keeps part (if b then c else d)
  keeps_if true hc hd = hc
  keeps_if false hc hd = hd

  pub keeps_bwrite : IsAbove part → (b : ℕ) → Keeps part (bwrite b)
  unfolding bwrite
  keeps_bwrite above b = record {
    kept = λ {m} e. subst (λ x. part x ≡ part m) (ok-state e) (above.disk m _ _);
  }

  module _ (off : IsOffBufs part) (b : ℕ) where
    pub keeps_bread : Keeps part (bread b)
    unfolding bread
    keeps_bread = record {
      kept = λ {m} {m'} {a} e. elim (Bool-cases (m.bufs b).locked) [
        | inl held ↦ let e' = rw held at e in cc e'
        | inr free ↦
            let e' = rw free at e in subst (λ x. part x ≡ part m) (ok-state e') (off.bufs m _)
      ];
    }

    pub keeps_buf_data : Keeps part (buf_data b)
    unfolding buf_data
    keeps_buf_data = record { kept = λ {m} e. subst (λ x. part x ≡ part m) (ok-state e) refl }

    pub keeps_set_data : (d : Block) → Keeps part (set_data b d)
    unfolding set_data
    keeps_set_data d = record {
      kept = λ {m} e. subst (λ x. part x ≡ part m) (ok-state e) (off.bufs m _);
    }

    pub keeps_brelse : Keeps part (brelse b)
    unfolding brelse
    keeps_brelse = record {
      kept = λ {m} e. subst (λ x. part x ≡ part m) (ok-state e) (off.bufs m _);
    }

    pub keeps_bpin : Keeps part (bpin b)
    unfolding bpin
    keeps_bpin = record { kept = λ {m} e. subst (λ x. part x ≡ part m) (ok-state e) (off.bufs m _) }

    pub keeps_bunpin : Keeps part (bunpin b)
    unfolding bunpin
    keeps_bunpin = record {
      kept = λ {m} e. subst (λ x. part x ≡ part m) (ok-state e) (off.bufs m _);
    }

pub ruleset keeps = (
  off_bufs, keeps_bind, keeps_pure, keeps_state, keeps_exit, keeps_wait, keeps_fault, keeps_if,
  keeps_bread, keeps_buf_data, keeps_set_data, keeps_bwrite, keeps_brelse, keeps_bpin, keeps_bunpin,
)
