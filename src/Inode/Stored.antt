-- ===== src/Inode/Stored.antt =====
-- The size and the addresses that `iupdate` stores in a dinode (src/inode.c).
use myfuse.Common.{ℕ, ◌+◌, ◌≤◌, ◌<◌, ◌≡◌, sym, ap, ◌∙◌, fun_ext, true, false, arith, ltb}
use native.Mathlib.Decide.{dec_lt}
use myfuse.Machine.{Inode}
use myfuse.Machine.Block.{Block}
use myfuse.Inode.Layout.{get_le, get_addrs, nblockaddr, set_time, store}
use myfuse.Inode.Bytes.{
  limit, get_le-set_le-Apart, get_le-set_le, get_le-set_addrs-Apart, get_le-set_addrs,
}

pub size-store :
    (ip : Inode) (o : ℕ) (d : Block) → ip.size < limit 8 → get_le 8 (store ip o d) (o + 8) ≡ ip.size
unfolding store set_time
size-store ip o d fits =
    get_le-set_addrs-Apart 8 (o + 8) nblockaddr _ (o + 68) ip.addrs 0 (omega arith)
    ∙ get_le-set_le-Apart 8 (o + 8) 8 _ (o + 48 + 8) ip.ctime.nsec (omega arith)
    ∙ get_le-set_le-Apart 8 (o + 8) 8 _ (o + 48) ip.ctime.sec (omega arith)
    ∙ get_le-set_le-Apart 8 (o + 8) 8 _ (o + 32 + 8) ip.mtime.nsec (omega arith)
    ∙ get_le-set_le-Apart 8 (o + 8) 8 _ (o + 32) ip.mtime.sec (omega arith)
    ∙ get_le-set_le-Apart 8 (o + 8) 8 _ (o + 16 + 8) ip.atime.nsec (omega arith)
    ∙ get_le-set_le-Apart 8 (o + 8) 8 _ (o + 16) ip.atime.sec (omega arith)
    ∙ get_le-set_le-Apart 8 (o + 8) 4 _ (o + 64) ip.perm (omega arith)
    ∙ get_le-set_le 8 _ (o + 8) ip.size fits

pub addrs-store :
    (ip : Inode) (o : ℕ) (d : Block)
    → ((j : ℕ) → ip.addrs j < limit 4)
    → ((j : ℕ) → nblockaddr ≤ j → ip.addrs j ≡ 0)
    → get_addrs nblockaddr (store ip o d) (o + 68) ≡ ip.addrs
unfolding get_addrs store
addrs-store ip o d fits beyond = fun_ext λ t. elim (dec_lt t nblockaddr) [
  | yes h ↦
      let lt : ltb t nblockaddr ≡ true = ground arith in
      rw lt (
        get_le-set_addrs nblockaddr _ (o + 68) ip.addrs 0 fits t h
        ∙ ap ip.addrs (let e : 0 + t ≡ t = omega arith in e))
  | no h ↦ let lt : ltb t nblockaddr ≡ false = ground arith in rw lt (sym (beyond t (omega arith)))
]
