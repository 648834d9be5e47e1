-- ===== src/Log/Logged.antt =====
-- A block changed through the log (src/log.c): it is read, its buffer written to, logged and given
-- back, as the layers above do.

use myfuse.Common.{
  ℕ, ◌+◌, ◌≤◌, ◌≡◌, ◌⊎◌, ◌∙◌, refl, sym, ap, Bool, not, ◌||◌, lt_int, true, false, ◌==◌, inl, inr,
  Bool-cases, arith, update, add32, sub32, fun_ext,
}
use myfuse.Machine.{
  ok, Machine, SuperBlock, Inode, Buf, Returns, returns, Returns-then, Returns-run, ◌>>=◌, ◌>>◌,
}
use myfuse.Machine.Block.{Block}
use myfuse.Machine.Buffer.{view, bread, brelse, bpin, buf_data, set_data}
use myfuse.Machine.Keeps.{Keeps, IsAbove, keeps, keeps_modify, ok-state}
use myfuse.Params.{nlog}
use myfuse.Log.Op.{find_block, logged_read, logged_write, logged_relse}
use myfuse.Log.Write.{HasRoom, is_logged, logged_write-LoggedOnce}

-- Block `b` shows `d` now, the log has one more entry at most, and the rest is as before.
pub record Logged (b : ℕ) (d : Block) (m m' : Machine) : Type 0 where
  pub seen : view m' ≡ update (view m) b d
  pub entries : (c : ℕ) → is_logged m' c ≡ (is_logged m c || b == c)
  pub block : (i : ℕ) → (m'.log.block i ≡ m.log.block i) ⊎ (m'.log.block i ≡ b)
  pub fixed : (m'.log.start ≡ m.log.start) × (m'.log.committing ≡ m.log.committing)
  pub disk : m'.disk ≡ m.disk
  pub trace : m'.trace ≡ m.trace
  pub locks : (c : ℕ) → (m'.bufs c).locked ≡ (m.bufs c).locked
  pub inodes : m'.inodes ≡ m.inodes
  pub sb : m'.sb ≡ m.sb
  pub count : m'.log.n ≤ m.log.n + 1
  pub rest : (m'.log.size ≡ m.log.size) × (m'.log.outstanding ≡ m.log.outstanding)
  pub counted : m'.n_log_wrote ≡ add32 m.n_log_wrote 1

-- what a write to the log does not touch
abbrev upper : Machine → (ℕ → Inode) × SuperBlock × ℕ × Bool
upper m = (m.inodes, m.sb, m.log.start, m.log.committing)

upper-IsAbove : IsAbove upper
upper-IsAbove = record { bufs = λ m b. refl; disk = λ m d t. refl }

logged_write_upper : (b : ℕ) → Keeps upper (logged_write b)
unfolding logged_write
logged_write_upper b = search (keeps, keeps_modify, upper-IsAbove) depth 20

update-cases :
    (block : ℕ → ℕ) (idx b i : ℕ) → (update block idx b i ≡ block i) ⊎ (update block idx b i ≡ b)
update-cases block idx b i = elim (Bool-cases (idx == i)) [
  | inl here ↦ inr (rw here refl)
  | inr away ↦ inl (rw away refl)
]

logged_write_block :
    (b : ℕ) (m : Machine) {m' : Machine} {a : Unit {0}}
    → logged_write b m ≡ ok a m'
    → (i : ℕ) → (m'.log.block i ≡ m.log.block i) ⊎ (m'.log.block i ≡ b)
unfolding logged_write bpin
logged_write_block b m {m'} e i =
    let idx = find_block m.log.block b m.log.n 0 in
    let done : m'.log.block ≡ update m.log.block idx b
        → (m'.log.block i ≡ m.log.block i) ⊎ (m'.log.block i ≡ b) =
      λ q. elim (update-cases m.log.block idx b i) [
        | inl old ↦ inl (ap (λ f. f i) q ∙ old)
        | inr new ↦ inr (ap (λ f. f i) q ∙ new)
      ] in
    elim (Bool-cases (not (lt_int m.log.n nlog) || not (lt_int m.log.n (sub32 m.log.size 1)))) [
      | inl full ↦ let e' = rw full at e in cc e'
      | inr room ↦
          let e1 = rw room at e in
          elim (Bool-cases (lt_int m.log.outstanding 1)) [
            | inl outside ↦ let e' = rw outside at e1 in cc e'
            | inr inside ↦
                let e2 = rw inside at e1 in
                elim (Bool-cases (idx == m.log.n)) [
                  | inl new ↦
                      let e3 = rw new at e2 in
                      done (sym (ap (λ (x : Machine). x.log.block) (ok-state e3)))
                  | inr old ↦
                      let e3 = rw old at e2 in
                      done (sym (ap (λ (x : Machine). x.log.block) (ok-state e3)))
                ]
          ]
    ]

-- the state before `logged_write`
abbrev pub edited : ℕ → Block → Machine → Machine
edited b d m = record m {
  bufs =
      update
        (update m.bufs b (record {
          contents = view m b;
          valid = true;
          locked = true;
          refcnt = add32 (m.bufs b).refcnt 1;
        }))
        b
        (record { contents = d; valid = true; locked = true; refcnt = add32 (m.bufs b).refcnt 1 });
}

-- A buffer with the same contents shows the same.
pub set_buf-view :
    (b : ℕ) (m : Machine) (buf : Buf)
    → buf.contents ≡ (m.bufs b).contents
    → buf.valid ≡ (m.bufs b).valid
    → view (record m { bufs = update m.bufs b buf }) ≡ view m
set_buf-view b m buf c v = fun_ext (λ i. elim (Bool-cases (b == i)) [
  | inl here ↦ let q : b ≡ i = ground arith in rw (here, c, v, q) refl
  | inr away ↦ rw away refl
])

edited-view : (b : ℕ) (d : Block) (m : Machine) → view (edited b d m) ≡ update (view m) b d
edited-view b d m =
    fun_ext (λ i. elim (Bool-cases (b == i)) [ inl here ↦ rw here refl | inr away ↦ rw away refl ])

pub edited-Logged :
    (b : ℕ) (d : Block) (m : Machine)
    → HasRoom m
    → (m.bufs b).locked ≡ false
    → Returns (λ _ m'. Logged b d m m') ((logged_write b >> logged_relse b) (edited b d m))
unfolding logged_relse brelse
edited-Logged b d m room free =
    Returns-then
      (Returns-run (
        logged_write-LoggedOnce b (edited b d m) (record {
          few = room.few;
          room = room.room;
          small = room.small;
          inside = room.inside;
          sane = room.sane;
        })))
      (λ _ m2 (once, run).
        let same = (logged_write_upper b).kept run in
        returns (record {
          seen = set_buf-view b m2 _ refl refl ∙ once.seen ∙ edited-view b d m;
          disk = once.disk;
          trace = once.trace;
          locks = λ c. elim (Bool-cases (b == c)) [
            | inl here ↦
                let q : b ≡ c = ground arith in let free' = rw q at free in rw here (sym free')
            | inr away ↦ rw away (once.locks c ∙ rw away refl)
          ];
          entries = once.entries;
          block = logged_write_block b (edited b d m) run;
          fixed = (
            ap (λ (x : (ℕ → Inode) × SuperBlock × ℕ × Bool). x.2) same,
            ap (λ (x : (ℕ → Inode) × SuperBlock × ℕ × Bool). x.3) same,
          );
          inodes = ap (λ (x : (ℕ → Inode) × SuperBlock × ℕ × Bool). x.0) same;
          sb = ap (λ (x : (ℕ → Inode) × SuperBlock × ℕ × Bool). x.1) same;
          count = elim (Bool-cases (is_logged (edited b d m) b)) [
            | inl old ↦ let e = once.count in let e' = rw old at e in omega (arith, e')
            | inr new ↦ let e = once.count in let e' = rw new at e in omega (arith, e')
          ];
          rest = once.rest;
          counted = once.counted;
        }))

-- The five calls together.
pub edit_block-Logged :
    (b : ℕ) (f : Block → Block) (m : Machine)
    → HasRoom m
    → (m.bufs b).locked ≡ false
    → Returns
        (λ _ m'. Logged b (f (view m b)) m m')
        ((do logged_read b; d ← buf_data b; set_data b (f d); logged_write b; logged_relse b) m)
unfolding logged_read bread buf_data set_data
edit_block-Logged b f m room free =
    let hit : (b == b) ≡ true = ground arith in
    rw (free, hit) (edited-Logged b (f (view m b)) m room free)
