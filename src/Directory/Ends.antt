-- ===== src/Directory/Ends.antt =====
-- What `skiptoend` (src/directory.c) makes of a path.
use myfuse.Common.{
  ℕ, Bool, zero, suc, ◌<◌, ◌≡◌, refl, ap, ◌∙◌, true, false, arith, Option, none, some, List, [],
  ◌∷◌, ◌++◌, length, ◌==◌, if◌then◌else◌,
}
use myfuse.Machine.Block.{Block}
use myfuse.Directory.Path.{slash, skiptoend_loop, skiptoend}
use myfuse.Directory.Elements.{
  AllSlashes, NoSlash, Bare, IsNext, IsNext-shorter, Parsed, only_slashes, element, skipelem-Parsed,
}

abbrev pub only_slashes? : List ℕ → Bool
only_slashes? [] = true
only_slashes? (c ∷ path) = if c == slash then only_slashes? path else false

all-only_slashes : (path : List ℕ) → AllSlashes path → only_slashes? path ≡ true
all-only_slashes [] h = refl
all-only_slashes (c ∷ path) h = ground (arith, h.0, all-only_slashes path h.1)

append-only_slashes :
    (before path : List ℕ) → AllSlashes before → only_slashes? (before ++ path) ≡ only_slashes? path
append-only_slashes [] path h = refl
append-only_slashes (c ∷ before) path h = ground (arith, h.0, append-only_slashes before path h.1)

elem-only_slashes :
    (elem path : List ℕ) → NoSlash elem → 0 < length elem → only_slashes? (elem ++ path) ≡ false
elem-only_slashes [] path h p = absurd (omega arith)
elem-only_slashes (c ∷ elem) path h p = ground (arith, h.0)

IsNext-only_slashes : {path elem rest : List ℕ} → IsNext path elem rest → only_slashes? path ≡ false
IsNext-only_slashes {path} {elem} {rest} n =
    ap only_slashes? n.whole
    ∙ append-only_slashes n.before (elem ++ (n.after ++ rest)) n.before_all
    ∙ elem-only_slashes elem (n.after ++ rest) n.none_in n.some_in

Bare-end :
    (path : List ℕ) → Bare path → (if only_slashes? path then some path else some []) ≡ some []
Bare-end [] b = refl
Bare-end (c ∷ path) b = ground arith

-- A round of the loop of `skiptoend`, given what the rounds after it come to.
abbrev round : ℕ → Option (List ℕ) → Option (List ℕ × Block) → Option (List ℕ)
round fuel last_elem none = last_elem
round fuel last_elem (some (elem, name')) = skiptoend_loop fuel elem name' (some elem)

skiptoend_round :
    (fuel : ℕ) {path : List ℕ} {name : Block} {r : Option (List ℕ × Block)}
    (last_elem : Option (List ℕ))
    → Parsed path name r
    → ((rest : List ℕ) (name' : Block)
        → length rest < length path
        → Bare rest
        → skiptoend_loop fuel rest name' (some rest) ≡ some [])
    → round fuel last_elem r ≡ (if only_slashes? path then last_elem else some [])
skiptoend_round fuel {path} last_elem (only_slashes all) next = rw (all-only_slashes path all)
skiptoend_round fuel last_elem (element elem rest name' n is) next =
    rw (IsNext-only_slashes n) (next rest _ (IsNext-shorter n) n.bare)

-- The loop of `skiptoend` from a path without leading slashes.
skiptoend_loop-Bare :
    (fuel : ℕ) (path : List ℕ) (name : Block)
    → length path < fuel
    → Bare path
    → skiptoend_loop fuel path name (some path) ≡ some []
unfolding skiptoend_loop
skiptoend_loop-Bare zero path name h b = absurd (omega arith)
skiptoend_loop-Bare (suc fuel) path name h b =
    skiptoend_round fuel (some path) (skipelem-Parsed path name)
      (λ rest name' shorter bare. skiptoend_loop-Bare fuel rest name' (omega arith) bare)
    ∙ Bare-end path b

-- For every path with an element, `skiptoend` returns the empty string at the end of the path, not
-- its last element; for a path of slashes alone, its result is a pointer that was never set.
pub skiptoend-end :
    (path : List ℕ) (name : Block)
    → skiptoend path name ≡ (if only_slashes? path then none else some [])
unfolding skiptoend skiptoend_loop
skiptoend-end path name =
    skiptoend_round (length path) none (skipelem-Parsed path name)
      (λ rest name' shorter bare. skiptoend_loop-Bare (length path) rest name' shorter bare)
