-- ===== src/Directory/Elements.antt =====
-- What `skipelem` (src/directory.c) make of a path.
use myfuse.Common.{
  ℕ, ◌+◌, ◌<◌, ◌≡◌, ◌≢◌, refl, ap, ◌∙◌, arith, Option, none, some, List, [], ◌∷◌, ◌++◌, append-nil,
  length, ◌==◌, ◌≤◌, ◌⊎◌, sym, true, false, ltb, leb, inl, inr, Bool-cases,
}
use myfuse.Params.{dirsize}
use myfuse.Machine.Block.{Block}
use myfuse.Directory.Path.{slash, char_at, skip_slashes, take_elem, set_name, skipelem}

abbrev pub AllSlashes : List ℕ → Type 0
AllSlashes [] = Unit
AllSlashes (c ∷ s) = (c ≡ slash) × AllSlashes s

abbrev pub NoSlash : List ℕ → Type 0
NoSlash [] = Unit
NoSlash (c ∷ s) = (c ≢ slash) × NoSlash s

-- the string does not begin with a slash
abbrev pub Bare : List ℕ → Type 0
Bare [] = Unit
Bare (c ∷ s) = c ≢ slash

record Skipped (path rest : List ℕ) : Type 0 where
  slashes : List ℕ
  all : AllSlashes slashes
  whole : path ≡ slashes ++ rest
  bare : Bare rest

skip_slashes-Skipped : (path : List ℕ) → Skipped path (skip_slashes path)
unfolding skip_slashes
skip_slashes-Skipped [] = record { slashes = []; all = tt; whole = refl; bare = tt }
skip_slashes-Skipped (c ∷ path) = elim (Bool-cases (c == slash)) [
  | inl is ↦
      let s = skip_slashes-Skipped path in
      rw is (record {
        slashes = c ∷ s.slashes;
        all = (ground arith, s.all);
        whole = ap (λ p. c ∷ p) s.whole;
        bare = s.bare;
      })
  | inr not_is ↦ rw not_is (record { slashes = []; all = tt; whole = refl; bare = ground arith })
]

record Taken (path s rest : List ℕ) : Type 0 where
  none_in : NoSlash s
  whole : path ≡ s ++ rest
  longest : (rest ≢ []) → (c : ℕ) × (r : List ℕ) × (rest ≡ c ∷ r) × (c ≡ slash)

take_elem-Taken : (path : List ℕ) → Taken path (take_elem path).0 (take_elem path).1
unfolding take_elem
take_elem-Taken [] = record { none_in = tt; whole = refl; longest = λ n. absurd (n refl) }
take_elem-Taken (c ∷ path) = elim (Bool-cases (c == slash)) [
  | inl is ↦
      rw is (record { none_in = tt; whole = refl; longest = λ n. (c, path, refl, ground arith) })
  | inr not_is ↦
      let t = take_elem-Taken path in
      rw not_is (record {
        none_in = (ground arith, t.none_in);
        whole = ap (λ p. c ∷ p) t.whole;
        longest = t.longest;
      })
]

-- `elem` is the next element of the path, up to a slash or to the end, and the path goes on with
-- `rest`.
pub record IsNext (path elem rest : List ℕ) : Type 0 where
  pub before : List ℕ
  pub after : List ℕ
  pub before_all : AllSlashes before
  pub after_all : AllSlashes after
  pub whole : path ≡ before ++ (elem ++ (after ++ rest))
  pub none_in : NoSlash elem
  pub some_in : 0 < length elem
  pub bare : Bare rest
  pub whole_elem : (after ≡ []) → rest ≡ []

-- `name'` is `name` with the first DIRSIZE bytes of `elem` over its own, and a NUL after them if
-- `elem` is shorter.
pub record IsNamed (name : Block) (elem : List ℕ) (name' : Block) : Type 0 where
  pub copied :
      (xs ys : List ℕ) (c : ℕ) → elem ≡ xs ++ (c ∷ ys) → length xs < dirsize → name' (length xs) ≡ c
  pub closed : length elem < dirsize → name' (length elem) ≡ 0
  pub kept : (j : ℕ) → (dirsize ≤ j) ⊎ (length elem < j) → name' j ≡ name j

-- What `skipelem` returns.
pub data Parsed (path : List ℕ) (name : Block) : Option (List ℕ × Block) → Type 0 where
  only_slashes : AllSlashes path → Parsed path name none
  element :
      (elem rest : List ℕ) (name' : Block)
      → IsNext path elem rest
      → IsNamed name elem name'
      → Parsed path name (some (rest, name'))

all-nil : {path : List ℕ} → Skipped path [] → AllSlashes path
all-nil s = rw (s.whole, append-nil) s.all

cons≢nil : {c : ℕ} {r : List ℕ} → c ∷ r ≢ []
cons≢nil e = cc e

head_eq : {c d : ℕ} {r s : List ℕ} → c ∷ r ≡ d ∷ s → c ≡ d
head_eq e = cc e

nonempty : {c : ℕ} {path s rest : List ℕ} → c ≢ slash → Taken (c ∷ path) s rest → 0 < length s
nonempty {c} {path} {s = []} {rest} ne t =
    let given : rest ≢ [] = λ e. cons≢nil (t.whole ∙ e) in
    let (c', r, e, is) = t.longest given in absurd (ne (head_eq (t.whole ∙ e) ∙ is))
nonempty {s = c ∷ s} ne t = omega arith

length-append : (xs ys : List ℕ) → length (xs ++ ys) ≡ length xs + length ys
length-append [] ys = omega arith
length-append (x ∷ xs) ys = omega (arith, length-append xs ys)

-- An element that no slash ends is the last.
last_elem :
    {path elem taken_rest rest : List ℕ}
    → Taken path elem taken_rest
    → taken_rest ≡ rest
    → Bare rest
    → rest ≡ []
last_elem {rest = []} t same bare = refl
last_elem {rest = c ∷ r} t same bare =
    let (c', r', e, is) = t.longest (λ none. cons≢nil (sym same ∙ none)) in
    absurd (bare (head_eq (sym same ∙ e) ∙ is))

char_at-append : (xs ys : List ℕ) (c : ℕ) → char_at (xs ++ (c ∷ ys)) (length xs) ≡ c
unfolding char_at
char_at-append [] ys c = refl
char_at-append (x ∷ xs) ys c = char_at-append xs ys c

char_at-end : (s : List ℕ) → char_at s (length s) ≡ 0
unfolding char_at
char_at-end [] = refl
char_at-end (c ∷ s) = char_at-end s

set_name-IsNamed : (name : Block) (elem : List ℕ) → IsNamed name elem (set_name name elem)
unfolding set_name
set_name-IsNamed name elem = record {
  copied = λ xs ys c e low.
      let n = ap length e ∙ length-append xs (c ∷ ys) in
      let here = ap (λ s. char_at s (length xs)) e ∙ char_at-append xs ys c in
      let inside : ltb (length xs) dirsize ≡ true = ground (arith, low) in
      let within : leb (length xs) (length elem) ≡ true = ground (arith, n) in
      elim (Bool-cases (leb dirsize (length elem))) [
        | inl long ↦ rw (long, inside) here
        | inr short ↦ rw (short, within) here
      ];
  closed = λ less.
      let short : leb dirsize (length elem) ≡ false = ground (arith, less) in
      let within : leb (length elem) (length elem) ≡ true = ground arith in
      rw (short, within) (char_at-end elem);
  kept = λ j out. elim (Bool-cases (leb dirsize (length elem))) [
    | inl long ↦ let far : ltb j dirsize ≡ false = ground (arith, out, long) in rw (long, far) refl
    | inr short ↦
        let far : leb j (length elem) ≡ false = ground (arith, out, short) in rw (short, far) refl
  ];
}

skipelem_from :
    (path name_path : List ℕ) (name : Block)
    → Skipped path name_path
    → Parsed path name (elim name_path [
      | [] ↦ none
      | c ∷ path' ↦
          let (s, rest) = take_elem (c ∷ path') in some (skip_slashes rest, set_name name s)
    ])
skipelem_from path [] name s = only_slashes (all-nil s)
skipelem_from path (c ∷ path') name s =
    let t = take_elem-Taken (c ∷ path') in
    let u = skip_slashes-Skipped (take_elem (c ∷ path')).1 in
    let elem = (take_elem (c ∷ path')).0 in
    element elem (skip_slashes (take_elem (c ∷ path')).1) (set_name name elem)
      (record {
        before = s.slashes;
        after = u.slashes;
        before_all = s.all;
        after_all = u.all;
        whole =
            s.whole
            ∙ ap (λ r. s.slashes ++ r) (t.whole ∙ ap (λ r. (take_elem (c ∷ path')).0 ++ r) u.whole);
        none_in = t.none_in;
        some_in = nonempty s.bare t;
        bare = u.bare;
        whole_elem = λ none.
            last_elem t
              (u.whole ∙ ap (λ (xs : List ℕ). xs ++ skip_slashes (take_elem (c ∷ path')).1) none)
              u.bare;
      })
      (set_name-IsNamed name elem)

-- For any path, `skipelem` returns null exactly when the path has slashes alone; otherwise it skips
-- the slashes before the first element, which goes up to the next slash or to the end, and returns the
-- rest of the path without the slashes before it. It puts the element's bytes over those of `name`, at
-- most DIRSIZE of them, and a NUL after them if there are fewer; the other bytes of `name` stay.
pub skipelem-Parsed : (path : List ℕ) (name : Block) → Parsed path name (skipelem path name)
unfolding skipelem
skipelem-Parsed path name = skipelem_from path (skip_slashes path) name (skip_slashes-Skipped path)

-- What `skipelem` leaves is shorter than the path.
pub IsNext-shorter : {path elem rest : List ℕ} → IsNext path elem rest → length rest < length path
IsNext-shorter {path} {elem} {rest} n = omega (
  arith,
  ap length n.whole,
  length-append n.before (elem ++ (n.after ++ rest)),
  length-append elem (n.after ++ rest),
  length-append n.after rest,
  n.some_in,
)
