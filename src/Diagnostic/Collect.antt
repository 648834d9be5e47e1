-- ===== src/Diagnostic/Collect.antt =====
-- What the maps of src/diagnostic/disk-diagnostic.cc put into `block_used`: the block numbers in a
-- page, and those in the pages below it.
use mathlib.Core.Path.{subst}
use myfuse.Common.{
  ℕ, zero, suc, ◌+◌, ◌≤◌, ◌<◌, ◌≡◌, ◌≢◌, ◌∙◌, refl, sym, ap, Bool, true, false, ◌==◌, arith, inl,
  inr, Bool-cases, fun_ext, update, List, [], ◌∷◌, add32, sub32,
}
use myfuse.Params.{nindirect1}
use myfuse.Machine.{Machine, ok, Returns, returns, Returns-then, Returns-weaken}
use myfuse.Machine.Block.{Block}
use myfuse.Machine.Buffer.{view, bread, brelse, buf_data}
use myfuse.Log.Op.{logged_read, logged_relse}
use myfuse.Log.Logged.{set_buf-view}
use myfuse.Inode.Walk.{Looked, Looked-refl, Looked-trans}
use myfuse.Diagnostic.{
  Piece, text, Report, Reporter, print, entries_of, page_head, direct_loop, print_direct_map,
  pages_loop,
}
use myfuse.Diagnostic.Below.{
  Subtree, Below, Below-none, Below-next, Below-first, Below-cases, Adds, Adds-same, Adds-then,
  Adds-weaken, Adds-one,
}

-- None of the pages to be read is held, by this walk either.
abbrev pub Unheld : ℕ → (ℕ → Block) → (ℕ → Bool) → (ℕ → ℕ) → ℕ → ℕ → Type 0
Unheld zero v held page i k = Unit {0}
Unheld (suc l) v held page i k =
    (j : ℕ)
    → i ≤ j
    → j < i + k
    → page j ≢ 0
    → (held (page j) ≡ false)
      × Unheld l v (update held (page j) true) (entries_of (v (page j))) 0 nindirect1

-- A page with a block number 0 at `i` has what it has after `i`.
Adds-skip :
    (l : ℕ) (v : ℕ → Block) (page : ℕ → ℕ) (i k : ℕ) {u u' : List ℕ}
    → (page i == 0) ≡ true
    → Adds (Below l v page (i + 1) k) u u'
    → Adds (Below l v page i (suc k)) u u'
Adds-skip l v page i k none a =
    Adds-weaken a
      (λ b h. elim (Below-cases l v page i k b h) [
        | inl (there, tree) ↦ absurd (there (ground (arith, none)))
        | inr later ↦ later
      ])
      (λ b h. Below-next l v page i k b h)

-- A page with a block at `i` has what is below that, and what it has after `i`.
Adds-step :
    (l : ℕ) (v : ℕ → Block) (page : ℕ → ℕ) (i k : ℕ) {u u1 u' : List ℕ}
    → (page i == 0) ≡ false
    → Adds (Subtree l v (page i)) u u1
    → Adds (Below l v page (i + 1) k) u1 u'
    → Adds (Below l v page i (suc k)) u u'
Adds-step l v page i k some a rest =
    Adds-weaken (Adds-then a rest)
      (λ b h. elim (Below-cases l v page i k b h) [
        | inl (there, tree) ↦ inl tree
        | inr later ↦ inr later
      ])
      (λ b h. elim h [
        | inl tree ↦ Below-first l v page i k b (ground (arith, some)) tree
        | inr later ↦ Below-next l v page i k b later
      ])

pub direct_loop-Adds :
    (v : ℕ → Block) (page : ℕ → ℕ) (k i : ℕ) (first : Bool) (r : Report)
    → Adds (Below 0 v page i k) r.used (direct_loop page k i first r).used
unfolding direct_loop
direct_loop-Adds v page zero i first r = Adds-same (Below-none 0 v page i)
direct_loop-Adds v page (suc k) i first r = elim (Bool-cases (page i == 0)) [
  | inl none ↦
      rw (direct_loop, none)
        (Adds-skip 0 v page i k none (direct_loop-Adds v page k (i + 1) first r))
  | inr some ↦
      rw (direct_loop, some)
        (Adds-step 0 v page i k some (Adds-one (page i) r.used)
          (direct_loop-Adds v page k (i + 1) false _))
]

-- What a map of level `l` does with a page, in a state that shows `v` and holds the buffers of `held`.
abbrev pub Collects : ℕ → (ℕ → Block) → ((ℕ → ℕ) → Reporter) → Type 0
Collects l v sub =
    (held : ℕ → Bool) (page : ℕ → ℕ) (m : Machine) (r : Report)
    → view m ≡ v
    → ((b : ℕ) → (m.bufs b).locked ≡ held b)
    → Unheld l v held page 0 nindirect1
    → Returns (λ r' m'. Looked m m' × Adds (Below l v page 0 nindirect1) r.used r'.used)
        (sub page r m)

pub print_direct_map-Collects :
    (v : ℕ → Block) → Collects 0 v (λ page r. ok (print_direct_map page nindirect1 r))
unfolding print_direct_map
print_direct_map-Collects v held page m r seen locks free =
    returns (Looked-refl m, direct_loop-Adds v page nindirect1 0 true (print (text "[" ∷ []) r))

-- block `b` read and held
abbrev reading : ℕ → Machine → Machine
reading b m = record m {
  bufs = update m.bufs b (record {
    contents = view m b;
    valid = true;
    locked = true;
    refcnt = add32 (m.bufs b).refcnt 1;
  });
}

reading-view : (b : ℕ) (m : Machine) → view (reading b m) ≡ view m
reading-view b m = fun_ext (λ c. elim (Bool-cases (b == c)) [
  | inl here ↦ let q : b ≡ c = ground (arith, here) in rw here (ap (view m) q)
  | inr away ↦ rw away refl
])

-- It is given back after more blocks have been looked at.
release-Looked :
    (b : ℕ) (m m2 : Machine)
    → (m.bufs b).locked ≡ false
    → Looked (reading b m) m2
    → Looked m (record m2 {
      bufs =
          update m2.bufs b
            (record (m2.bufs b) { locked = false; refcnt = sub32 (m2.bufs b).refcnt 1 });
    })
release-Looked b m m2 free looked = record {
  same =
      ap {A = Machine}
        (λ x. record x {
          bufs =
              update m2.bufs b
                (record (m2.bufs b) { locked = false; refcnt = sub32 (m2.bufs b).refcnt 1 });
        })
        looked.same;
  seen = set_buf-view b m2 _ refl refl ∙ looked.seen ∙ reading-view b m;
  locks = λ c. elim (Bool-cases (b == c)) [
    | inl here ↦
        let q : b ≡ c = ground (arith, here) in let free' = rw q at free in rw here (sym free')
    | inr away ↦ rw away (looked.locks c ∙ rw away refl)
  ];
}

module _ (v : ℕ → Block) (l : ℕ) (sub : (ℕ → ℕ) → Reporter) (collects : Collects l v sub)
    (head tail : List Piece) where
  pub pages_loop-Adds :
      (held : ℕ → Bool) (page : ℕ → ℕ) (k i : ℕ) (first : Bool) (m : Machine) (r : Report)
      → view m ≡ v
      → ((b : ℕ) → (m.bufs b).locked ≡ held b)
      → Unheld (suc l) v held page i k
      → Returns
          (λ r' m'. Looked m m' × Adds (Below (suc l) v page i k) r.used r'.used)
          (pages_loop head tail sub page k i first r m)
  unfolding pages_loop logged_read logged_relse bread brelse buf_data
  pages_loop-Adds held page zero i first m r seen locks free =
      returns (Looked-refl m, Adds-same (Below-none (suc l) v page i))
  pages_loop-Adds held page (suc k) i first m r seen locks free =
      let free' : Unheld (suc l) v held page (i + 1) k =
        λ j low high there. free j (omega (arith, low)) (omega (arith, high)) there in
      elim (Bool-cases (page i == 0)) [
        | inl none ↦
            rw (pages_loop, none)
              (Returns-weaken (pages_loop-Adds held page k (i + 1) first m r seen locks free')
                (λ r' m' (looked, below). (looked, Adds-skip (suc l) v page i k none below)))
        | inr some ↦
            let there : page i ≢ 0 = ground (arith, some) in
            let (open_page, below) = free i (omega arith) (omega arith) there in
            let b = page i in
            let r1 = page_head head first b r in
            let unlocked = locks b ∙ open_page in
            let hit : (b == b) ≡ true = ground arith in
            let locks1 : (c : ℕ) → ((reading b m).bufs c).locked ≡ update held b true c = λ c.
              elim (Bool-cases (b == c)) [
                | inl here ↦ rw here refl
                | inr away ↦ rw away (locks c)
              ] in
            rw (pages_loop, some, unlocked, hit)
              (Returns-then
                (subst
                  (λ d.
                    Returns
                      (λ r' m'.
                        Looked (reading b m) m'
                        × Adds (Below l v (entries_of (v b)) 0 nindirect1) r1.used r'.used)
                      (sub (entries_of d) r1 (reading b m)))
                  (sym (ap (λ f. f b) seen))
                  (collects (update held b true) (entries_of (v b)) (reading b m) r1
                    (reading-view b m ∙ seen) locks1 below))
                (λ r2 m2 (looked, adds).
                  let back = release-Looked b m m2 unlocked looked in
                  Returns-weaken
                    (pages_loop-Adds held page k (i + 1) false _ (print tail r2) (back.seen ∙ seen)
                      (λ c. back.locks c ∙ locks c) free')
                    (λ r' m' (looked', rest). (
                      Looked-trans back looked',
                      Adds-step (suc l) v page i k some (Adds-then (Adds-one b r.used) adds) rest,
                    ))))
      ]
