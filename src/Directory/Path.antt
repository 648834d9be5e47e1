-- ===== src/Directory/Path.antt =====
-- Paths, src/directory.c. A string is its bytes, without the NUL that ends it; a `char[DIRSIZE]` is
-- a function of the index, and a name that fills it has no NUL.
use myfuse.Common.{
  ℕ, zero, suc, ◌+◌, Bool, true, false, Option, none, some, List, [], ◌∷◌, ◌==◌, ltb, leb,
  if◌then◌else◌, length,
}
use myfuse.Params.{dirsize}
use myfuse.Machine.Block.{Block}

-- '/'
abbrev pub slash : ℕ
slash = 47

-- `while (*path == '/') path++`
unfoldable pub skip_slashes : List ℕ → List ℕ
skip_slashes [] = []
skip_slashes (c ∷ path) = if c == slash then skip_slashes path else c ∷ path

-- `while (*path != '/' && *path != 0) path++`: what it passes, and what is left
unfoldable pub take_elem : List ℕ → List ℕ × List ℕ
take_elem [] = ([], [])
take_elem (c ∷ path) =
    let (elem, rest) = take_elem path in if c == slash then ([], c ∷ path) else (c ∷ elem, rest)

-- the byte at `i` of a string, NUL from its end on
unfoldable pub char_at : List ℕ → ℕ → ℕ
char_at [] i = 0
char_at (c ∷ s) zero = c
char_at (c ∷ s) (suc i) = char_at s i

-- `name` after the `memmove` of `len` bytes of `s`, and `name[len] = 0` if they leave room
unfoldable pub set_name : Block → List ℕ → Block
unfolding char_at
set_name name s j =
    if leb dirsize (length s)
    then (if ltb j dirsize then char_at s j else name j)
    else if leb j (length s)
    then char_at s j
    else name j

unfoldable pub skipelem : List ℕ → Block → Option (List ℕ × Block)
unfolding skip_slashes take_elem set_name
skipelem path name = elim (skip_slashes path) [
  | [] ↦ none
  | c ∷ path' ↦ let (s, rest) = take_elem (c ∷ path') in some (skip_slashes rest, set_name name s)
]

-- The loop of `skiptoend`, with the number of rounds as fuel; `last_elem` starts undefined.
unfoldable pub skiptoend_loop : ℕ → List ℕ → Block → Option (List ℕ) → Option (List ℕ)
skiptoend_loop zero path name last_elem = last_elem
skiptoend_loop (suc fuel) path name last_elem = elim (skipelem path name) [
  | none ↦ last_elem
  | some (elem, name') ↦ skiptoend_loop fuel elem name' (some elem)
]

-- `none`: an indeterminate pointer.
unfoldable pub skiptoend : List ℕ → Block → Option (List ℕ)
unfolding skiptoend_loop
skiptoend path name = skiptoend_loop (suc (length path)) path name none

-- `strncmp(a, b, DIRSIZE) == 0`, for `k` more bytes from `i` on
unfoldable pub same_name : ℕ → ℕ → Block → Block → Bool
same_name zero i a b = true
same_name (suc k) i a b =
    let rest = same_name k (i + 1) a b in
    if a i == b i then (if a i == 0 then true else rest) else false

unfoldable pub dirnamecmp : Block → Block → Bool
dirnamecmp a b = same_name dirsize 0 a b
