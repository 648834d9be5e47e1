-- ===== src/Balance/Rules.antt =====
-- Rules for the commands that the layers above the log are made of.
use myfuse.Common.{ℕ, refl, Option, none, some}
use myfuse.Machine.{Inode, Cmd}
use myfuse.Machine.Keeps.{Keeps, keeps_modify}
use myfuse.Inode.Table.{Slot, same, empty, neither, edit, inode_of}
use myfuse.Inode.Map.{Place, direct, indirect1, indirect2, indirect3, too_big}
use myfuse.Balance.Log.{held}

pub inode_of_kept : (ip : ℕ) → Keeps held (inode_of ip)
inode_of_kept ip = record { kept = λ {m} e. cc e }

pub edit_kept : (ip : ℕ) (f : Inode → Inode) → Keeps held (edit ip f)
edit_kept ip f = keeps_modify _ (λ m. refl)

module _ {A : Type 0} where
  pub option_kept :
      {X : Type 0} (x : Option X) {c : Cmd A} {d : X → Cmd A}
      → Keeps held c
      → ((y : X) → Keeps held (d y))
      → Keeps held (elim x [ none ↦ c | some y ↦ d y ])
  option_kept none hc hd = hc
  option_kept (some y) hc hd = hd y

  pub slot_kept :
      (s : Slot) {c d : ℕ → Cmd A} {e : Cmd A}
      → ((i : ℕ) → Keeps held (c i))
      → ((i : ℕ) → Keeps held (d i))
      → Keeps held e
      → Keeps held (elim s [ same i ↦ c i | empty i ↦ d i | neither ↦ e ])
  slot_kept (same i) hc hd he = hc i
  slot_kept (empty i) hc hd he = hd i
  slot_kept neither hc hd he = he

  pub place_kept :
      (p : Place) {c d : ℕ → Cmd A} {e : ℕ → ℕ → Cmd A} {f : ℕ → ℕ → ℕ → Cmd A} {g : Cmd A}
      → ((i : ℕ) → Keeps held (c i))
      → ((i : ℕ) → Keeps held (d i))
      → ((i j : ℕ) → Keeps held (e i j))
      → ((i j k : ℕ) → Keeps held (f i j k))
      → Keeps held g
      → Keeps held (elim p [
        | direct i ↦ c i
        | indirect1 i ↦ d i
        | indirect2 i j ↦ e i j
        | indirect3 i j k ↦ f i j k
        | too_big ↦ g
      ])
  place_kept (direct i) hc hd he hf hg = hc i
  place_kept (indirect1 i) hc hd he hf hg = hd i
  place_kept (indirect2 i j) hc hd he hf hg = he i j
  place_kept (indirect3 i j k) hc hd he hf hg = hf i j k
  place_kept too_big hc hd he hf hg = hg

pub ruleset parts = (inode_of_kept, edit_kept, option_kept, slot_kept, place_kept)
