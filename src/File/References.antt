-- ===== src/File/References.antt =====
-- The references to a file: `filedup` and `fileclose` of src/file.c.
use myfuse.Common.{
  ℕ, ◌+◌, ◌-◌, ◌^◌, ◌≤◌, ◌<◌, ◌≡◌, ◌∙◌, refl, ap, true, false, ◌==◌, inl, inr, Bool-cases, arith,
  update, lt_int, fun_ext, add32, sub32,
}
use myfuse.Machine.{Machine, File, ok, ◌>>◌}
use myfuse.Common.{update-update}
use myfuse.File.Table.{filedup, fileclose}

update_self : (files : ℕ → File) (f : ℕ) → update files f (files f) ≡ files
update_self files f = fun_ext (λ g. elim (Bool-cases (f == g)) [
  | inl same ↦ let q : f ≡ g = ground arith in rw same (ap files q)
  | inr away ↦ rw away refl
])

-- A file that has a reference, and fewer than 2^31 - 1, is as it was once it has been duplicated and
-- closed again, and so is the rest of the state: nothing is written, and the inode keeps its reference.
pub fileclose-filedup :
    (m : Machine) (f : ℕ)
    → 1 ≤ (m.files f).ref
    → (m.files f).ref < 2 ^ 31 - 1
    → (filedup f >> fileclose f) m ≡ ok tt m
unfolding filedup fileclose
fileclose-filedup m f one few =
    let r = (m.files f).ref in
    let here : (f == f) ≡ true = ground arith in
    let used : lt_int r 1 ≡ false = ground arith in
    let up : add32 r 1 ≡ r + 1 = omega arith in
    let used' : lt_int (r + 1) 1 ≡ false = ground arith in
    let down : sub32 (r + 1) 1 ≡ r = omega arith in
    let more : lt_int 0 r ≡ true = ground arith in
    rw (used, here, up, used', here, down, more)
      (ap (λ fs. ok tt (record m { files = fs }))
        (update-update m.files f _ (m.files f) ∙ update_self m.files f))
