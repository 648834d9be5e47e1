-- ===== src/Inode/Writing.antt =====
-- What stays true of a file while `inode_write_nbytes_locked` (src/inode.c) writes to it.

use myfuse.Common.{
  ℕ, ◌+◌, ◌-◌, ◌/◌, ◌%◌, ◌^◌, ◌≤◌, ◌<◌, ◌≡◌, ◌≢◌, ◌⊎◌, ◌∙◌, ap, Bool, true, false, ◌==◌, arith, inl,
  inr, update,
}
use myfuse.Params.{bsize, nlog, maxopblocks}
use myfuse.Machine.{Machine, Inode}
use myfuse.Machine.Block.{Block}
use myfuse.Machine.Buffer.{view}
use myfuse.Log.Write.{HasRoom}
use myfuse.Log.Logged.{Logged}
use myfuse.Inode.Map.{place}
use myfuse.Inode.Walk.{at_place, is_mapped, walk, Looked}
use myfuse.Inode.Paths.{passes, at_place-agree}
use myfuse.Inode.Update.{home, Logged-others}
use myfuse.Inode.Separate.{IsSeparate}
use myfuse.Inode.Logging.{Touched, Logging, Logging-edit, Logging-Looked, Logging-Logged}

pub miss : {a b : ℕ} → a ≢ b → (a == b) ≡ false
miss apart = ground arith

clash : {a b : Bool} → a ≡ b → a ≡ true → b ≡ false → ⊥
clash e t f = cc (e, t, f)

module _ (m0 : Machine) (ip lim : ℕ) (separate : IsSeparate m0 ip lim) where
  -- The file has the bytes `g`, no buffer is held, only data blocks and the inode's block differ
  -- from those at first, and the log and the operation have room for `k` more writes.
  pub record Writing (g : ℕ → ℕ) (s k : ℕ) (m : Machine) : Type 0 where
    pub addrs : (m.inodes ip).addrs ≡ (m0.inodes ip).addrs
    pub inum : (m.inodes ip).inum ≡ (m0.inodes ip).inum
    pub sb : m.sb ≡ m0.sb
    pub size : (m.inodes ip).size ≡ s
    pub free : (b : ℕ) → (m.bufs b).locked ≡ false
    pub elsewhere :
        (b : ℕ)
        → (b ≡ home ip m0)
          ⊎ ((p : ℕ) × (p < lim) × (b ≡ walk m0 ip (p / bsize)))
          ⊎ (view m b ≡ view m0 b)
    pub bytes : (pos : ℕ) → pos < lim → view m (walk m0 ip (pos / bsize)) (pos % bsize) ≡ g pos
    pub entries : m.log.n + k ≤ nlog
    pub room : m.log.n + k < m.log.size
    pub small : m.log.size < 2 ^ 31
    pub inside : 0 < m.log.outstanding
    pub sane : m.log.outstanding < 2 ^ 31
    pub calm : m.n_log_wrote + k < maxopblocks - 5
    pub logging : Logging m0 ip lim m

  module _ {g : ℕ → ℕ} {s k : ℕ} {m : Machine} (w : Writing g s k m) where
    -- The way to a block of the file is still the same.
    pub same_way :
        (p : ℕ)
        → p < lim
        → (walk m ip (p / bsize) ≡ walk m0 ip (p / bsize))
          × (is_mapped (view m) (m.inodes ip).addrs (place (p / bsize)) ≡ true)
    same_way p low =
        let agree : (b : ℕ)
            → passes (view m0) (m0.inodes ip).addrs (place (p / bsize)) b ≡ true
            → view m b ≡ view m0 b =
          λ b h. elim (w.elsewhere b) [
            | inl at_home ↦ absurd (
                clash (ap (passes (view m0) (m0.inodes ip).addrs (place (p / bsize))) at_home) h
                  (separate.no_home p low))
            | inr (inl (q, low', hit)) ↦ absurd (
                clash (ap (passes (view m0) (m0.inodes ip).addrs (place (p / bsize))) hit) h
                  (separate.no_data q p low' low))
            | inr (inr same) ↦ same
          ] in
        let (e, f) =
          at_place-agree (view m0) (view m) (m0.inodes ip).addrs (place (p / bsize)) agree in
        (
          ap (λ a. at_place (view m) a (place (p / bsize))) w.addrs ∙ e,
          ap (λ a. is_mapped (view m) a (place (p / bsize))) w.addrs ∙ f ∙ separate.mapped p low,
        )

    -- room for the next write
    pub has_room : 0 < k → HasRoom m
    has_room some =
        let entries = w.entries in
        let room = w.room in
        record {
          few = omega (arith, entries, some);
          room = omega (arith, room, some);
          small = w.small;
          inside = w.inside;
          sane = w.sane;
        }

    pub Looked-Writing : {m1 : Machine} → Looked m m1 → Writing g s k m1
    Looked-Writing {m1} looked =
        let same = looked.same in
        let log : m1.log ≡ m.log = ap (λ (x : Machine). x.log) same in
        let inodes : m1.inodes ≡ m.inodes = ap (λ (x : Machine). x.inodes) same in
        record {
          addrs = ap (λ (f : ℕ → Inode). (f ip).addrs) inodes ∙ w.addrs;
          inum = ap (λ (f : ℕ → Inode). (f ip).inum) inodes ∙ w.inum;
          sb = ap (λ (x : Machine). x.sb) same ∙ w.sb;
          size = ap (λ (f : ℕ → Inode). (f ip).size) inodes ∙ w.size;
          free = λ b. looked.locks b ∙ w.free b;
          elsewhere = λ b. elim (w.elsewhere b) [
            | inl at_home ↦ inl at_home
            | inr (inl hit) ↦ inr (inl hit)
            | inr (inr kept) ↦ inr (inr (ap (λ v. v b) looked.seen ∙ kept))
          ];
          bytes = λ pos low.
              ap (λ v. v (walk m0 ip (pos / bsize)) (pos % bsize)) looked.seen ∙ w.bytes pos low;
          entries = rw log w.entries;
          room = rw log w.room;
          small = rw log w.small;
          inside = rw log w.inside;
          sane = rw log w.sane;
          logging = Logging-Looked looked w.logging;
          calm =
              let e : m1.n_log_wrote ≡ m.n_log_wrote = ap (λ (x : Machine). x.n_log_wrote) same in
              rw e w.calm;
        }

  -- One block is logged: a data block of the file, or the inode's.
  pub Logged-Writing :
      {g : ℕ → ℕ} {s k b : ℕ} {d : Block} {m m' : Machine} (g' : ℕ → ℕ)
      → Writing g s (k + 1) m
      → Logged b d m m'
      → Touched m0 ip lim b
      → ((pos : ℕ)
          → pos < lim
          → update (view m) b d (walk m0 ip (pos / bsize)) (pos % bsize) ≡ g' pos)
      → Writing g' s k m'
  Logged-Writing {g} {s} {k} {b} {d} {m} {m'} g' w logged which bytes' =
      let log_size = logged.rest.0 in
      let inside = logged.rest.1 in
      let entries = w.entries in
      let room = w.room in
      let calm = w.calm in
      let count = logged.count in
      let wrote = logged.counted in
      record {
        addrs = ap (λ (f : ℕ → Inode). (f ip).addrs) logged.inodes ∙ w.addrs;
        inum = ap (λ (f : ℕ → Inode). (f ip).inum) logged.inodes ∙ w.inum;
        sb = logged.sb ∙ w.sb;
        size = ap (λ (f : ℕ → Inode). (f ip).size) logged.inodes ∙ w.size;
        free = λ c. logged.locks c ∙ w.free c;
        elsewhere = λ c. elim (Logged-others logged c) [
          | inl here ↦ elim which [
            | inl at_home ↦ inl (here ∙ at_home)
            | inr (p, low, hit) ↦ inr (inl (p, low, here ∙ hit))
          ]
          | inr away ↦ elim (w.elsewhere c) [
            | inl at_home ↦ inl at_home
            | inr (inl hit) ↦ inr (inl hit)
            | inr (inr kept) ↦ inr (inr (away ∙ kept))
          ]
        ];
        bytes = λ pos low.
            ap (λ v. v (walk m0 ip (pos / bsize)) (pos % bsize)) logged.seen ∙ bytes' pos low;
        entries = omega (arith, entries, count);
        room = omega (arith, room, count, log_size);
        small = rw log_size w.small;
        inside = rw inside w.inside;
        sane = rw inside w.sane;
        calm = omega (arith, calm, wrote);
        logging = Logging-Logged logged which w.logging;
      }

  -- Fields of the inode are set that are neither its number nor its addresses.
  pub edit-Writing :
      {g : ℕ → ℕ} {s k : ℕ} {m : Machine} (f : Inode → Inode) (s' : ℕ)
      → ((n : Inode) → ((f n).addrs ≡ n.addrs) × ((f n).inum ≡ n.inum))
      → (f (m.inodes ip)).size ≡ s'
      → Writing g s k m
      → Writing g s' k (record m { inodes = update m.inodes ip (f (m.inodes ip)) })
  edit-Writing {m} f s' same sized w =
      let hit : (ip == ip) ≡ true = ground arith in
      record {
        addrs = rw hit ((same (m.inodes ip)).0 ∙ w.addrs);
        inum = rw hit ((same (m.inodes ip)).1 ∙ w.inum);
        sb = w.sb;
        size = rw hit sized;
        free = w.free;
        elsewhere = w.elsewhere;
        bytes = w.bytes;
        entries = w.entries;
        room = w.room;
        small = w.small;
        inside = w.inside;
        sane = w.sane;
        calm = w.calm;
        logging = Logging-edit _ w.logging;
      }

  -- Less room will do.
  pub Writing-weaken :
      {g : ℕ → ℕ} {s : ℕ} {m : Machine} (k k' : ℕ) → k' ≤ k → Writing g s k m → Writing g s k' m
  Writing-weaken k k' less w =
      let entries = w.entries in
      let room = w.room in
      let calm = w.calm in
      record {
        addrs = w.addrs;
        inum = w.inum;
        sb = w.sb;
        size = w.size;
        free = w.free;
        elsewhere = w.elsewhere;
        bytes = w.bytes;
        entries = omega (arith, entries, less);
        room = omega (arith, room, less);
        small = w.small;
        inside = w.inside;
        sane = w.sane;
        calm = omega (arith, calm, less);
        logging = w.logging;
      }
