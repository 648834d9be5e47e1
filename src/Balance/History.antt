-- ===== src/Balance/History.antt =====
-- What a history of requests (`myfuse_oper` of src/main.c) does to the operations under way.
use mathlib.Core.Path.{subst}
use myfuse.Common.{
  ℕ, refl, ◌+◌, ◌-◌, ◌^◌, ◌≡◌, ◌≤◌, ◌<◌, ◌⊎◌, ◌∙◌, ap, sym, Bool, true, false, List, [], ◌∷◌, add32,
  arith, inl, inr, length,
}
use myfuse.Machine.{Machine, Cmd, ok, pure, ◌>>=◌}
use myfuse.Machine.Keeps.{keeps_bind, keeps_state, keeps_pure, and_then-ok, ok-state, ok-value}
use myfuse.File.Attr.{myfuse_statfs}
use myfuse.File.Open.{myfuse_open}
use myfuse.File.Serve.{
  Request, getattr, access, create, opendir, readdir, mkdir, unlink, rmdir, truncate, open_path,
  read, write, release, releasedir, chmod, lseek, rename, statfs, serve, serve_all,
}
use myfuse.File.Errno.{enoent}
use myfuse.Balance.Log.{ops}
use myfuse.Balance.Closing.{Served, Serves, Serves-then, Serves-kept}
use myfuse.Balance.Requests.{
  getattr-Serves, create-Serves, opendir-Serves, readdir-Serves, mkdir-Serves, unlink-Serves,
  rmdir-Serves, truncate-Serves,
}
use myfuse.Balance.Calls.{
  read-Serves, write-Serves, myfuse_release-Serves, myfuse_releasedir-Serves, lseek-Serves,
}
use myfuse.Balance.Missing.{LeftOpen, Outcome}
use myfuse.Balance.Leaks.{access-Outcome, chmod-Outcome, open-Outcome, rename-Outcome}

-- The requests whose handlers have a return that no `end_op` comes before.
unfoldable pub may_leak : {X : Type 0} → Request X → Bool
may_leak (access path mask) = true
may_leak (open_path path flags fh) = true
may_leak (chmod path mode) = true
may_leak (rename from target flags) = true
may_leak _ = false

-- What a request leaves: as many operations under way as before; or, for the four above when they
-- answer -ENOENT, one more.
abbrev pub Result : {X : Type 0} → Request X → Machine → Machine → ℕ → Type 0
Result r m m' a = Served m m' ⊎ ((may_leak r ≡ true) × (a ≡ enoent) × LeftOpen m m')

missing :
    {X : Type 0} (r : Request X) (m m' : Machine) (a : ℕ)
    → may_leak r ≡ true
    → Outcome m m' a
    → Result r m m' a
missing r m m' a leaky (inl served) = inl served
missing r m m' a leaky (inr (result, left)) = inr (leaky, result, left)

-- For a machine with an operation open, what the result says of the disk and the count.
Result-quiet :
    {X : Type 0} (r : Request X) (m m' : Machine) (a : ℕ)
    → 1 ≤ ops m
    → ops m < 2 ^ 32 - 1
    → Result r m m' a
    → (m'.disk ≡ m.disk) × (m'.trace ≡ m.trace) × (ops m ≤ ops m') × (ops m' ≤ ops m + 1)
Result-quiet r m m' a one few (inl (same, quiet)) =
    let (d, t) = quiet one few in (d, t, omega (arith, same), omega (arith, same))
Result-quiet r m m' a one few (inr (leaky, result, left)) =
    let (up, quiet) = left in
    let (d, t) = quiet one few in (d, t, omega (arith, up, few), omega (arith, up, few))

Served-then :
    {A : Type 0} {c : Cmd A} (code : A → ℕ) (m : Machine) {m' : Machine} {a : ℕ}
    → Serves c
    → (c >>= λ r. pure (code r)) m ≡ ok a m'
    → Served m m'
Served-then code m h e = (Serves-then code h).served m e

serve-Result :
    {X : Type 0} (r : Request X) (m : Machine) {m' : Machine} {a : ℕ}
    → serve r m ≡ ok a m'
    → Result r m m' a
unfolding serve may_leak myfuse_statfs
serve-Result (getattr path st) m e = inl (Served-then (λ r. r.0) m (getattr-Serves path st) e)
serve-Result (create path mode fh) m e =
    inl (Served-then (λ r. r.0) m (create-Serves path mode fh) e)
serve-Result (opendir path fh) m e = inl (Served-then (λ r. r.0) m (opendir-Serves path fh) e)
serve-Result (readdir filler fh st x) m e =
    inl (Served-then (λ r. r.0) m (readdir-Serves filler fh st x) e)
serve-Result (mkdir path mode) m e = inl ((mkdir-Serves path mode).served m e)
serve-Result (unlink path) m e = inl ((unlink-Serves path).served m e)
serve-Result (rmdir path) m e = inl ((rmdir-Serves path).served m e)
serve-Result (truncate path size) m e = inl ((truncate-Serves path size).served m e)
serve-Result (read buf size off f) m e =
    inl (Served-then (λ r. r.0) m (read-Serves buf size off f) e)
serve-Result (write buf size off f) m e = inl ((write-Serves buf size off f).served m e)
serve-Result (release fi) m e = inl (Served-then (λ r. r.0) m (myfuse_release-Serves fi) e)
serve-Result (releasedir fi) m e = inl (Served-then (λ r. r.0) m (myfuse_releasedir-Serves fi) e)
serve-Result (lseek off whence f) m e = inl ((lseek-Serves off whence f).served m e)
serve-Result statfs m e =
    inl (Served-then (λ r. r) m (Serves-kept (keeps_bind keeps_state (λ s. keeps_pure 0))) e)
serve-Result {X = X} (access path mask) m {m'} {a} e =
    missing {X = X} (access path mask) m m' a refl (access-Outcome path mask m e)
serve-Result {X = X} (chmod path mode) m {m'} {a} e =
    missing {X = X} (chmod path mode) m m' a refl (chmod-Outcome path mode m e)
serve-Result {X = X} (rename from target flags) m {m'} {a} e =
    missing {X = X} (rename from target flags) m m' a refl (rename-Outcome from target flags m e)
serve-Result {X = X} (open_path path flags fh) m {m'} {a} e =
    let (r, m1, e1, e2) = and_then-ok (myfuse_open path flags fh m) (λ r. pure r.0) e in
    let outcome = open-Outcome path flags fh m e1 in
    let at_end = subst (λ x. Outcome m x r.0) (ok-state e2) outcome in
    missing {X = X} (open_path path flags fh) m m' a refl
      (subst (λ x. Outcome m m' x) (ok-value e2) at_end)

-- Whatever a request does, when its handler returns there are as many operations under way as
-- before, with one exception: `access`, `open`, `chmod` and `rename`, when they answer -ENOENT, may
-- leave one more.
pub serve-ops :
    {X : Type 0} (r : Request X) (m : Machine) {m' : Machine} {a : ℕ}
    → serve r m ≡ ok a m'
    → (ops m' ≡ ops m) ⊎ ((may_leak r ≡ true) × (a ≡ enoent) × (ops m' ≡ add32 (ops m) 1))
serve-ops r m e = elim (serve-Result r m e) [
  | inl (same, quiet) ↦ inl same
  | inr (leaky, result, left) ↦ inr (leaky, result, left.0)
]

-- Once an operation has been left open, then whatever requests follow, as long as they return,
-- nothing more is written to the disk (fewer than 2^32 operations being open), and the operation
-- stays open.
pub serve_all-quiet :
    {X : Type 0} (rs : List (Request X)) (m : Machine) {m' : Machine} {codes : List ℕ}
    → 1 ≤ ops m
    → ops m + length rs < 2 ^ 32 - 1
    → serve_all rs m ≡ ok codes m'
    → (m'.disk ≡ m.disk) × (m'.trace ≡ m.trace) × (ops m ≤ ops m') × (ops m' ≤ ops m + length rs)
unfolding serve_all
serve_all-quiet [] m {m'} one few e =
    let s = ok-state e in
    let same : ops m ≡ ops m' = ap ops s in
    (sym (ap (λ x. x.disk) s), sym (ap (λ x. x.trace) s), omega (arith, same), omega (arith, same))
serve_all-quiet (r ∷ rs) m {m'} one few e =
    let rest = λ (code : ℕ). serve_all rs >>= λ codes. pure (code ∷ codes) in
    let (code, m1, e1, e2) = and_then-ok (serve r m) rest e in
    let (codes, m2, e3, e4) = and_then-ok (serve_all rs m1) (λ codes. pure (code ∷ codes)) e2 in
    let (d, t, low, high) =
      Result-quiet r m m1 code one (omega (arith, few)) (serve-Result r m e1) in
    let (d', t', low', high') =
      serve_all-quiet rs m1 (omega (arith, one, low)) (omega (arith, few, high)) e3 in
    let same : ops m2 ≡ ops m' = ap ops (ok-state e4) in
    let s = ok-state e4 in
    (
      sym (ap (λ x. x.disk) s) ∙ d' ∙ d,
      sym (ap (λ x. x.trace) s) ∙ t' ∙ t,
      omega (arith, same, low, low'),
      omega (arith, same, high, high'),
    )
