-- ===== src/Tests/Requests.antt =====
-- Requests to a file system with an empty root directory.
use myfuse.Common.{ℕ, refl, true, ◌≡◌, ◌≤◌, ◌⊎◌, arith, none, List, [], ◌∷◌, ◌==◌, if◌then◌else◌}
use myfuse.Machine.{Machine, Inode, ok}
use myfuse.Inode.Table.{no_inode}
use myfuse.Log.Op.{begin_op}
use myfuse.Log.Op.{logged_read, logged_relse, logged_write, find_block}
use myfuse.Machine.Buffer.{bread, buf_data, brelse, set_data, bpin}
use myfuse.Inode.Table.{iget, iget_on, scan_itable, ilock, iupdate, iunlock}
use myfuse.Inode.Trunc.{iunlockput, iput}
use myfuse.Inode.Map.{
  imap2blockno, place, assert_no_need_to_restart_op_in_imap2blockno, addr_or_alloc,
}
use myfuse.Inode.Content.{clip, min, read_block, inode_read_nbytes_locked}
use myfuse.Directory.Path.{skipelem, skip_slashes, take_elem, set_name}
use myfuse.Machine.Block.{copy_bytes}
use myfuse.Directory.Entries.{
  path2inode, namex, namex_loop, namex_round, dirlookup, read_dir, find_entry,
}
use myfuse.File.Errno.{enoent, in_mask}
use myfuse.File.Attr.{myfuse_access, myfuse_chmod}
use myfuse.File.Open.{myfuse_open}
use myfuse.File.Serve.{Request, access, serve, serve_all}
use myfuse.Balance.Log.{ops}
use myfuse.Balance.History.{may_leak, serve-ops, serve_all-quiet}
use myfuse.Balance.Full.{begins, Waits, serve-full}
use myfuse.Balance.Absent.{absent-LeftOpen}
use myfuse.Tests.Fixture.{busy, after, empty_log}

-- the root, an empty directory, with a reference
abbrev root : Inode
root = record no_inode { inum = 1; ref = 1; valid = true; kind = 1; nlink = 1; addrs = λ i. 2000 }

-- one operation is open already
abbrev rooted : Machine
rooted = record busy { inodes = λ i. if i == 0 then root else no_inode }

-- "/a"
abbrev missing : List ℕ
missing = 47 ∷ 97 ∷ []

abbrev started : Machine
started = after (begin_op rooted) rooted

abbrev left : Machine
left = after (path2inode missing started) rooted

gone : path2inode missing started ≡ ok none left
unfolding path2inode namex namex_loop namex_round skipelem iget iget_on scan_itable begin_op ilock
    logged_read bread buf_data logged_relse brelse dirlookup read_dir inode_read_nbytes_locked clip
    min read_block imap2blockno place assert_no_need_to_restart_op_in_imap2blockno addr_or_alloc
    iupdate set_data logged_write find_block bpin find_entry iunlock iunlockput iput skip_slashes
    take_elem set_name copy_bytes
gone = refl

begun : begin_op rooted ≡ ok tt started
unfolding begin_op
begun = refl

-- what `access` leaves, as the request that it is
abbrev asked : Request (Unit {0})
asked = access missing 0

answered : serve asked rooted ≡ ok enoent left
unfolding serve myfuse_access
answered = rw (begun, gone) refl

all_answered : serve_all (asked ∷ []) rooted ≡ ok (enoent ∷ []) left
unfolding serve_all
all_answered = rw answered refl

absent-LeftOpen_example :
    (myfuse_access missing 0 rooted ≡ ok enoent left)
    × (myfuse_chmod missing 420 rooted ≡ ok enoent left)
    × (myfuse_open missing 0 none rooted ≡ ok (enoent, none) left)
    × (ops left ≡ 2)
unfolding in_mask
absent-LeftOpen_example =
    absent-LeftOpen missing rooted started left tt begun gone 0 420 0 none refl

serve-ops_example : (ops left ≡ 1) ⊎ ((may_leak asked ≡ true) × (enoent ≡ enoent) × (ops left ≡ 2))
serve-ops_example = serve-ops asked rooted answered

serve_all-quiet_example :
    (left.disk ≡ rooted.disk) × (left.trace ≡ rooted.trace) × (1 ≤ ops left) × (ops left ≤ 2)
serve_all-quiet_example =
    serve_all-quiet (asked ∷ []) rooted (omega arith) (omega arith) all_answered

-- eight operations are open
abbrev stuck : Machine
stuck = record rooted { log = record empty_log { outstanding = 8 } }

serve-full_example : Waits (serve asked stuck) stuck
unfolding begins
serve-full_example = serve-full stuck (omega arith) (omega arith) (omega arith) asked refl
