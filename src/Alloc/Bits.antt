-- ===== src/Alloc/Bits.antt =====
-- Setting and reading one bit of a byte (`bmap_block_statue_get` and `_set`, src/block_allocator.c).
use Prim.Native.Nat.{bit_and, bit_or}
use native.Mathlib.Decide.{dec_lt}
use myfuse.Common.{
  ℕ, zero, suc, ◌+◌, ◌-◌, ◌/◌, ◌%◌, ◌^◌, ◌≤◌, ◌<◌, ◌≡◌, refl, Bool, true, false, ◌&&◌, arith, ◌==◌,
  ltb, if◌then◌else◌, inl, inr, Bool-cases,
}

-- The test holds of every number from `from` on, `count` of them.
holds_from : (ℕ → Bool) → ℕ → ℕ → Bool
holds_from test from zero = true
holds_from test from (suc count) = if test from then holds_from test (suc from) count else false

holds_from-at :
    (test : ℕ → Bool) (from count : ℕ)
    → holds_from test from count ≡ true
    → (k : ℕ) → from ≤ k
    → k < from + count
    → test k ≡ true
unfolding holds_from
holds_from-at test from zero all k low high = absurd (omega arith)
holds_from-at test from (suc count) all k low high = elim (Bool-cases (test from)) [
  | inr fails ↦ let clash = rw fails at all in cc clash
  | inl holds ↦ elim (dec_lt from k) [
    | yes later ↦ holds_from-at test (suc from) count (rw holds at all) k later (omega arith)
    | no here ↦ let e : k ≡ from = omega arith in rw e holds
  ]
]

abbrev ones : ℕ → ℕ → ℕ
ones byte k = bit_or byte (2 ^ k)

abbrev zeroes : ℕ → ℕ → ℕ
zeroes byte k = bit_and byte (255 - 2 ^ k)

-- For each byte and two of its bits: the first is set or cleared, the other stays.
abbrev good : ℕ → ℕ → ℕ → Bool
good byte k j =
    (ones byte k / 2 ^ j % 2 == (if k == j then 1 else byte / 2 ^ j % 2))
    && (zeroes byte k / 2 ^ j % 2 == (if k == j then 0 else byte / 2 ^ j % 2))
    && ltb (ones byte k) 256
    && ltb (zeroes byte k) 256

-- a byte and one of its bits, against all bits
abbrev good_byte : ℕ → Bool
good_byte byte = holds_from (λ k. holds_from (good byte k) 0 8) 0 8

table : holds_from good_byte 0 256 ≡ true
unfolding holds_from
table = refl

-- the byte with its bit set or cleared
unfoldable pub set_bit : ℕ → ℕ → ℕ → ℕ
set_bit byte bit i = if i % 2 == 1 then bit_or byte (2 ^ bit) else bit_and byte (255 - 2 ^ bit)

good_at : (byte k j : ℕ) → byte < 256 → k < 8 → j < 8 → good byte k j ≡ true
good_at byte k j h hk hj =
    let of_byte = holds_from-at good_byte 0 256 table byte (omega arith) h in
    let of_bit = holds_from-at (λ k. holds_from (good byte k) 0 8) 0 8 of_byte k (omega arith) hk in
    holds_from-at (good byte k) 0 8 of_bit j (omega arith) hj

pub set_bit-get :
    (byte k j i : ℕ)
    → byte < 256
    → k < 8
    → j < 8
    → i < 2
    → set_bit byte k i / 2 ^ j % 2 ≡ (if k == j then i else byte / 2 ^ j % 2)
unfolding set_bit
set_bit-get byte k j i h hk hj hi = ground (arith, good_at byte k j h hk hj)

pub set_bit-lt : (byte k i : ℕ) → byte < 256 → k < 8 → set_bit byte k i < 256
unfolding set_bit
set_bit-lt byte k i h hk = ground (arith, good_at byte k 0 h hk (omega arith))
