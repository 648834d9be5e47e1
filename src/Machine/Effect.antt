-- ===== src/Machine/Effect.antt =====
-- What the steps of the log leave behind: some blocks written, in order, and nothing else.
use myfuse.Common.{
  ℕ, ◌≡◌, refl, ◌∙◌, ap, List, [], ◌∷◌, ◌++◌, append_assoc, append-nil, update, Bool, false, ◌||◌,
  ◌==◌, arith,
}
use myfuse.Machine.State.{Machine}
use myfuse.Machine.Block.{Block}
use myfuse.Machine.Buffer.{view}

abbrev pub Writes : Type 0
Writes = List (ℕ × Block)

-- The blocks of a disk after the writes of a list.
abbrev pub apply_writes : Writes → (ℕ → Block) → ℕ → Block
apply_writes [] disk = disk
apply_writes ((b, d) ∷ w) disk = apply_writes w (update disk b d)

pub apply_writes-append :
    (w w' : Writes) (disk : ℕ → Block)
    → apply_writes (w ++ w') disk ≡ apply_writes w' (apply_writes w disk)
apply_writes-append [] w' disk = refl
apply_writes-append ((b, d) ∷ w) w' disk = apply_writes-append w w' (update disk b d)

-- The writes `w` went to the disk and to the buffers; every lock is as before.
pub record Wrote (w : Writes) (m m' : Machine) : Type 0 where
  pub seen : view m' ≡ apply_writes w (view m)
  pub disk : m'.disk ≡ apply_writes w m.disk
  pub trace : m'.trace ≡ m.trace ++ w
  pub locks : (b : ℕ) → (m'.bufs b).locked ≡ (m.bufs b).locked
  pub log : m'.log ≡ m.log

pub Wrote-nil : (m : Machine) → Wrote [] m m
Wrote-nil m = record {
  seen = refl;
  disk = refl;
  trace = rw append-nil;
  locks = λ b. refl;
  log = refl;
}

pub Wrote-append :
    {w w' : Writes} {m m' m'' : Machine} → Wrote w m m' → Wrote w' m' m'' → Wrote (w ++ w') m m''
Wrote-append {w} {w'} {m} f g = record {
  seen = rw (g.seen, f.seen, apply_writes-append w w' (view m));
  disk = rw (g.disk, f.disk, apply_writes-append w w' m.disk);
  trace = rw (g.trace, f.trace) (append_assoc m.trace w w');
  locks = λ b. g.locks b ∙ f.locks b;
  log = g.log ∙ f.log;
}

-- The same with the log left out, for the steps between which the count of the log changes.
pub record Emitted (w : Writes) (m m' : Machine) : Type 0 where
  pub seen : view m' ≡ apply_writes w (view m)
  pub disk : m'.disk ≡ apply_writes w m.disk
  pub trace : m'.trace ≡ m.trace ++ w
  pub locks : (b : ℕ) → (m'.bufs b).locked ≡ (m.bufs b).locked

pub Emitted-nil-append :
    {w : Writes} {m m' m'' : Machine} → Emitted [] m m' → Emitted w m' m'' → Emitted w m m''
Emitted-nil-append {w} {m} e f = record {
  seen = f.seen ∙ ap (apply_writes w) e.seen;
  disk = f.disk ∙ ap (apply_writes w) e.disk;
  trace = rw (f.trace, e.trace, append-nil);
  locks = λ b. f.locks b ∙ e.locks b;
}

-- The count of the log is set to `n` between the two.
pub Wrote-reset-append :
    {w w' : Writes} {m m' m'' : Machine} (n : ℕ)
    → Wrote w m m'
    → Wrote w' (record m' { log = record m'.log { n = n } }) m''
    → Emitted (w ++ w') m m''
Wrote-reset-append {w} {w'} {m} n f g = record {
  seen = rw (g.seen, f.seen, apply_writes-append w w' (view m));
  disk = rw (g.disk, f.disk, apply_writes-append w w' m.disk);
  trace = rw (g.trace, f.trace) (append_assoc m.trace w w');
  locks = λ b. g.locks b ∙ f.locks b;
}

-- Does some write of the list go to block `b`?
abbrev pub writes_to : ℕ → Writes → Bool
writes_to b [] = false
writes_to b ((c, d) ∷ w) = c == b || writes_to b w

pub writes_to-append :
    (b : ℕ) (w w' : Writes) → writes_to b (w ++ w') ≡ (writes_to b w || writes_to b w')
writes_to-append b [] w' = refl
writes_to-append b ((c, d) ∷ w) w' = ground (arith, writes_to-append b w w')

pub apply_writes_other :
    (w : Writes) (disk : ℕ → Block) (b : ℕ) → writes_to b w ≡ false → apply_writes w disk b ≡ disk b
apply_writes_other [] disk b h = refl
apply_writes_other ((c, d) ∷ w) disk b h = ground (arith, apply_writes_other w (update disk c d) b)
