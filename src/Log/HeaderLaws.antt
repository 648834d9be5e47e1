-- ===== src/Log/HeaderLaws.antt =====
-- What is read back from the header block is what was written to it.
use myfuse.Common.{ℕ, zero, suc, ◌+◌, ◌^◌, ◌≤◌, ◌<◌, ◌≡◌, refl, ◌∙◌, inr, arith, true, ◌==◌, update}
use native.Mathlib.Decide.{dec_lt}
use myfuse.Machine.Block.{Block, get32, set32, get32-set32_self, get32-set32_apart}
use myfuse.Log.Header.{entry_off, read_entries, write_entries}

-- Bytes before the first entry written stay.
pub write_entries_before :
    (block : ℕ → ℕ) (k i : ℕ) (d : Block) (p : ℕ)
    → p + 4 ≤ entry_off i
    → get32 (write_entries block k i d) p ≡ get32 d p
unfolding write_entries
write_entries_before block zero i d p h = refl
write_entries_before block (suc k) i d p h =
    write_entries_before block k (i + 1) (set32 d (entry_off i) (block i)) p (omega arith)
    ∙ get32-set32_apart d (entry_off i) p (block i) (inr h)

pub write_entries-get :
    (block : ℕ → ℕ) (k i j : ℕ) (d : Block)
    → i ≤ j
    → j < i + k
    → ((l : ℕ) → block l < 2 ^ 32)
    → get32 (write_entries block k i d) (entry_off j) ≡ block j
unfolding write_entries
write_entries-get block zero i j d h h' s = absurd (omega arith)
write_entries-get block (suc k) i j d h h' s = elim (dec_lt i j) [
  | yes later ↦
      write_entries-get block k (i + 1) j (set32 d (entry_off i) (block i)) (omega arith)
        (omega arith) s
  | no last ↦
      let e : j ≡ i = omega arith in
      rw e (
        write_entries_before block k (i + 1) (set32 d (entry_off i) (block i)) (entry_off i)
          (omega arith)
        ∙ get32-set32_self d (entry_off i) (block i) (s i))
]

read_entries_before :
    (d : Block) (k i : ℕ) (block : ℕ → ℕ) (j : ℕ) → j < i → read_entries d k i block j ≡ block j
unfolding read_entries
read_entries_before d zero i block j h = refl
read_entries_before d (suc k) i block j h = ground (
  arith,
  read_entries_before d k (i + 1) (update block i (get32 d (entry_off i))) j (omega arith),
)

pub read_entries-get :
    (d : Block) (k i : ℕ) (block : ℕ → ℕ) (j : ℕ)
    → i ≤ j
    → j < i + k
    → read_entries d k i block j ≡ get32 d (entry_off j)
unfolding read_entries
read_entries-get d zero i block j h h' = absurd (omega arith)
read_entries-get d (suc k) i block j h h' = elim (dec_lt i j) [
  | yes later ↦
      read_entries-get d k (i + 1) (update block i (get32 d (entry_off i))) j (omega arith)
        (omega arith)
  | no last ↦
      let e : j ≡ i = omega arith in
      let hit : (i == i) ≡ true = ground arith in
      rw e (
        read_entries_before d k (i + 1) (update block i (get32 d (entry_off i))) i (omega arith)
        ∙ rw hit)
]
