-- ===== src/Directory/Fuel.antt =====
-- The fuel of `namex_loop` (`namex` of src/directory.c).
use mathlib.Core.Path.{fun_ext}
use myfuse.Common.{
  ℕ, zero, suc, ◌<◌, ◌≡◌, refl, sym, ◌∙◌, ap, Bool, arith, Option, none, some, List, length,
  if◌then◌else◌, inl, inr, Option-cases,
}
use myfuse.Machine.{Cmd, pure, ◌>>◌}
use myfuse.Machine.Block.{Block}
use myfuse.Inode.Trunc.{iput}
use myfuse.Directory.Path.{skipelem}
use myfuse.Directory.Elements.{Parsed, only_slashes, element, IsNext-shorter, skipelem-Parsed}
use myfuse.Directory.Entries.{namex_round, namex_loop}

-- A call with fuel, by what `skipelem` returns.
resume : ℕ → ℕ → Bool → Block → Option (List ℕ × Block) → Cmd (Option ℕ × Block)
resume fuel ip nameiparent name none =
    if nameiparent then iput ip >> pure (none, name) else pure (some ip, name)
resume fuel ip nameiparent name (some (path, name')) =
    namex_round ip path nameiparent name' (λ next. namex_loop fuel next path nameiparent name')

namex_loop-resume :
    (fuel ip : ℕ) (path : List ℕ) (nameiparent : Bool) (name : Block)
    → namex_loop (suc fuel) ip path nameiparent name
      ≡ resume fuel ip nameiparent name (skipelem path name)
unfolding namex_loop resume
namex_loop-resume fuel ip path nameiparent name = elim (Option-cases (skipelem path name)) [
  | inl nothing ↦ rw (namex_loop, nothing)
  | inr (r, e) ↦ rw (namex_loop, e)
]

same-round :
    (f f' ip : ℕ) {path : List ℕ} (nameiparent : Bool) (name : Block) {r : Option (List ℕ × Block)}
    → Parsed path name r
    → ((next : ℕ) (rest : List ℕ) (name' : Block)
        → length rest < length path
        → namex_loop f next rest nameiparent name' ≡ namex_loop f' next rest nameiparent name')
    → resume f ip nameiparent name r ≡ resume f' ip nameiparent name r
unfolding resume
same-round f f' ip nameiparent name (only_slashes all) next = refl
same-round f f' ip nameiparent name (element elem rest name' n is) next =
    ap (namex_round ip rest nameiparent _) (fun_ext λ i. next i rest _ (IsNext-shorter n))

-- Any two amounts of fuel above the length of the path make the loop of `namex` the same command:
-- with the length and one more, as `namex` gives it, the walk is never cut short.
pub namex_loop-fuel :
    (f f' ip : ℕ) (path : List ℕ) (nameiparent : Bool) (name : Block)
    → length path < f
    → length path < f'
    → namex_loop f ip path nameiparent name ≡ namex_loop f' ip path nameiparent name
namex_loop-fuel zero f' ip path nameiparent name h h' = absurd (omega arith)
namex_loop-fuel (suc f) zero ip path nameiparent name h h' = absurd (omega arith)
namex_loop-fuel (suc f) (suc f') ip path nameiparent name h h' =
    namex_loop-resume f ip path nameiparent name
    ∙ same-round f f' ip nameiparent name (skipelem-Parsed path name) (λ next rest name' less.
      namex_loop-fuel f f' next rest nameiparent name' (omega arith) (omega arith))
    ∙ sym (namex_loop-resume f' ip path nameiparent name)
