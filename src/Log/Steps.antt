-- ===== src/Log/Steps.antt =====
-- One round of each loop of the log, when no lock is in the way.
use myfuse.Common.{
  ℕ, ◌≡◌, ◌≢◌, refl, Bool, true, false, arith, [], ◌∷◌, ◌==◌, rounds, fun_ext, ap, update,
}
use myfuse.Machine.{Machine, Returns, returns}
use myfuse.Machine.Block.{Block, set32}
use myfuse.Machine.Buffer.{view, bread, buf_data, set_data, bwrite, brelse, bunpin}
use myfuse.Machine.Effect.{Wrote}
use myfuse.Log.Header.{log_block, write_entries, write_log_header_to_disk}
use myfuse.Log.Commit.{log_one_block, install_block}

module _ (m : Machine) (tail : ℕ) where
  abbrev to : ℕ
  to = log_block m.log.start tail

  abbrev from : ℕ
  from = m.log.block tail

  pub log_one_block-Wrote :
      from ≢ to
      → (m.bufs from).locked ≡ false
      → (m.bufs to).locked ≡ false
      → Returns (λ _ m'. Wrote ((to, view m from) ∷ []) m m') (log_one_block tail m)
  unfolding log_one_block bread buf_data set_data bwrite brelse
  log_one_block-Wrote ne uf ut =
      let apart : (to == from) ≡ false = ground arith in
      rw (ut, apart, uf)
        (returns (record {
          seen = fun_ext λ b. ground arith;
          disk = fun_ext λ b. ground arith;
          trace = ground arith;
          locks = λ b. ground arith;
          log = refl;
        }))

  pub install_block-Wrote :
      (recovering : Bool)
      → from ≢ to
      → (m.bufs from).locked ≡ false
      → (m.bufs to).locked ≡ false
      → Returns (λ _ m'. Wrote ((from, view m to) ∷ []) m m') (install_block recovering tail m)
  unfolding install_block bread buf_data set_data bwrite brelse bunpin
  install_block-Wrote true ne uf ut =
      let apart : (to == from) ≡ false = ground arith in
      rw (ut, apart, uf)
        (returns (record {
          seen = fun_ext λ b. ground arith;
          disk = ap (update m.disk from) (ground arith);
          trace = ground arith;
          locks = λ b. ground arith;
          log = refl;
        }))
  install_block-Wrote false ne uf ut =
      let apart : (to == from) ≡ false = ground arith in
      rw (ut, apart, uf)
        (returns (record {
          seen = fun_ext λ b. ground arith;
          disk = ap (update m.disk from) (ground arith);
          trace = ground arith;
          locks = λ b. ground arith;
          log = refl;
        }))

-- the header block after `write_log_header_to_disk`
abbrev pub header : Machine → Block
header m = write_entries m.log.block (rounds m.log.n) 0 (set32 (view m m.log.start) 0 m.log.n)

pub write_log_header_to_disk-Wrote :
    (m : Machine)
    → (m.bufs m.log.start).locked ≡ false
    → Returns (λ _ m'. Wrote ((m.log.start, header m) ∷ []) m m') (write_log_header_to_disk m)
unfolding write_log_header_to_disk bread buf_data set_data bwrite brelse
write_log_header_to_disk-Wrote m u =
    let same : (m.log.start == m.log.start) ≡ true = ground arith in
    rw (u, same)
      (returns (record {
        seen = fun_ext λ b. ground arith;
        disk = fun_ext λ b. ground arith;
        trace = ground arith;
        locks = λ b. ground arith;
        log = refl;
      }))
