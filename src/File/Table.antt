-- ===== src/File/Table.antt =====
-- The table of open files, src/file.c. An open file is named by its slot in `ftable.files`.
-- `ftable.lock` is taken and given back within each function, and is left out.
use myfuse.Common.{
  ℕ, zero, suc, ◌+◌, ◌*◌, ◌/◌, ◌%◌, ◌^◌, false, ◌&&◌, ◌==◌, ltb, leb, lt_int, add32, sub32,
  if◌then◌else◌, update, Option, none, some,
}
use myfuse.Machine.{File, Cmd, fault, pure, ◌>>=◌, ◌>>◌, state, modify, err_exit}
use myfuse.Log.Op.{begin_op, end_op}
use myfuse.Inode.Table.{ilock}
use myfuse.Inode.Trunc.{iput}

-- `calloc(1, sizeof(struct file))`
abbrev pub no_file : File
no_file = record { kind = 0; ref = 0; readable = false; writable = false; ip = none; off = 0 }

-- `FD_INODE`
abbrev pub fd_inode : ℕ
fd_inode = 1

-- `f->… = …`
abbrev pub edit_file : ℕ → (File → File) → Cmd (Unit {0})
edit_file f g = modify (λ m. record m { files = update m.files f (g (m.files f)) })

abbrev pub file_of : ℕ → Cmd File
file_of f m = pure (m.files f) m

-- a pointer that is followed
abbrev pub deref : {A : Type 0} → Option ℕ → (ℕ → Cmd A) → Cmd A
deref none k m = fault
deref (some ip) k m = k ip m

-- `ilock` of a pointer that may be null
unfoldable pub ilock? : Option ℕ → Cmd (Unit {0})
ilock? none = err_exit
ilock? (some ip) = ilock ip

unfoldable pub ftable_grow : Cmd (Unit {0})
ftable_grow = modify (λ m.
    let nfile' = m.nfile * 2 % 2 ^ 32 in
    record m {
      files = λ i. if leb (nfile' / 2) i && ltb i nfile' then no_file else m.files i;
      nfile = nfile';
    })

unfoldable pub file_init : Cmd (Unit {0})
file_init = modify (λ m. record m { files = λ i. no_file; nfile = 50 })

-- the first slot without a reference, among `k` from `i` on
unfoldable pub find_file : (ℕ → File) → ℕ → ℕ → Option ℕ
find_file files zero i = none
find_file files (suc k) i =
    let rest = find_file files k (i + 1) in if (files i).ref == 0 then some i else rest

-- What `filealloc` does with what the search finds. The other fields of the slot stay as the last
-- user left them.
unfoldable pub take_slot : Option ℕ → Cmd ℕ
take_slot (some f) = do edit_file f (λ x. record x { ref = 1 }); pure f
take_slot none = do
  ftable_grow
  m ← state
  let f = m.nfile / 2
  edit_file f (λ x. record x { ref = 1 })
  pure f

unfoldable pub filealloc : Cmd ℕ
unfolding find_file take_slot
filealloc = do m ← state; take_slot (find_file m.files m.nfile 0)

unfoldable pub filedup : ℕ → Cmd ℕ
filedup f = do
  x ← file_of f
  if lt_int x.ref 1 then err_exit else pure tt
  edit_file f (λ x. record x { ref = add32 x.ref 1 })
  pure f

unfoldable pub fileclose : ℕ → Cmd (Unit {0})
fileclose f = do
  x ← file_of f
  if lt_int x.ref 1 then err_exit else pure tt
  edit_file f (λ x. record x { ref = sub32 x.ref 1 })
  if lt_int 0 (sub32 x.ref 1)
      then pure tt
      else (do edit_file f (λ x. record x { ref = 0 }); begin_op; deref x.ip iput; end_op)
