-- ===== src/File/Errno.antt =====
-- What the operations of src/file.c return: `int`s as bit patterns, and the flags they test.
use myfuse.Common.{ℕ, ◌-◌, ◌/◌, ◌%◌, ◌^◌, Bool, false, ◌||◌, List, [], ◌∷◌, ◌==◌}

-- `-ENOENT` and the others
abbrev pub enoent : ℕ
enoent = 2 ^ 32 - 2

abbrev pub eexist : ℕ
eexist = 2 ^ 32 - 17

abbrev pub enotdir : ℕ
enotdir = 2 ^ 32 - 20

abbrev pub eisdir : ℕ
eisdir = 2 ^ 32 - 21

abbrev pub enotempty : ℕ
enotempty = 2 ^ 32 - 39

-- `-EINVAL` as an `off_t`
abbrev pub einval : ℕ
einval = 2 ^ 64 - 22

-- `flags & mask`, with the mask given by its bits
unfoldable pub in_mask : ℕ → List ℕ → Bool
in_mask flags [] = false
in_mask flags (k ∷ ks) = (flags / 2 ^ k % 2 == 1) || in_mask flags ks

abbrev pub o_rdonly : List ℕ
o_rdonly = []

abbrev pub o_wronly : List ℕ
o_wronly = 0 ∷ []

abbrev pub o_rdwr : List ℕ
o_rdwr = 1 ∷ []

abbrev pub o_creat : List ℕ
o_creat = 6 ∷ []

abbrev pub s_ifreg : List ℕ
s_ifreg = 15 ∷ []

abbrev pub rename_noreplace : List ℕ
rename_noreplace = 0 ∷ []

abbrev pub rename_exchange : List ℕ
rename_exchange = 1 ∷ []
