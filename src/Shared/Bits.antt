-- ===== src/Shared/Bits.antt =====
-- Bit tables in bytes, as the source writes them: byte `i >> 3`, mask `1u << (i & 7)`.
-- `i >> 3` is `i / 8` and `i & 7` is `i % 8` here; the byte operations are the native ones.
use Prim.Native.Nat.{ℕ, zero, suc, ◌-◌, ◌/◌, ◌%◌, ◌^◌, ◌<◌, bit_and, bit_or}
use mathlib.Core.Path.{◌≡◌, refl}
use mathlib.Core.Logic.{◌≢◌, inl, inr}
use mathlib.Core.Bool.{Bool, true, false, not, ◌&&◌}
use mathlib.Core.List.{List}
use native.Mathlib.Omega.{arith}
use flexit_cs60_control.Shared.Tests.{
  ltb, ◌==◌, if◌then◌else◌, same, same→eq, ==_iff, ltb→lt, Bool-cases,
}
use flexit_cs60_control.Shared.Lists.{
  length, get_or, set, replicate, get_or-replicate, length-set, get_or-set_self, get_or-set_ne,
}
use flexit_cs60_control.Shared.Bytes.{Below, Below-get_or, Below-set}

-- `c & (1u << k)` as a condition.
unfoldable pub has_bit : ℕ → ℕ → Bool
has_bit c k = not (bit_and c (2 ^ k) == 0)

-- Every value under the bound passes the test.
passes : (ℕ → Bool) → ℕ → Bool
passes test zero = true
passes test (suc top) = passes test top && test top

passed : (test : ℕ → Bool) (top k : ℕ) → k < top → passes test top ≡ true → test k ≡ true
unfolding passes
passed test zero k small all = absurd (omega arith)
passed test (suc top) k small all = elim (Bool-cases (ltb k top)) [
  | inl under ↦ passed test top k (ground arith) (ground arith)
  | inr at ↦ let last : k ≡ top = ground arith in rw last (ground arith)
]

abbrev or_entry : ℕ → ℕ → ℕ → Bool
or_entry k j c =
    same (has_bit (bit_or c (2 ^ k)) j) (if k == j then true else has_bit c j)
    && ltb (bit_or c (2 ^ k)) 256

abbrev and_entry : ℕ → ℕ → ℕ → Bool
and_entry k j c =
    same (has_bit (bit_and c (255 - 2 ^ k)) j) (if k == j then false else has_bit c j)
    && ltb (bit_and c (255 - 2 ^ k)) 256

or_table : passes (λ k. passes (λ j. passes (or_entry k j) 256) 8) 8 ≡ true
unfolding passes has_bit
or_table = refl

and_table : passes (λ k. passes (λ j. passes (and_entry k j) 256) 8) 8 ≡ true
unfolding passes has_bit
and_table = refl

zero_table : passes (λ k. same (has_bit 0 k) false) 8 ≡ true
unfolding passes has_bit
zero_table = refl

-- Bit `i` of a table.
unfoldable pub coil : List ℕ → ℕ → Bool
unfolding has_bit
coil d i = has_bit (get_or d (i / 8) 0) (i % 8)

-- `d[i >> 3] |= 1u << (i & 7)`
unfoldable pub set_coil : List ℕ → ℕ → List ℕ
set_coil d i = set d (i / 8) (bit_or (get_or d (i / 8) 0) (2 ^ (i % 8)))

-- `d[i >> 3] &= (uint8_t)~(1u << (i & 7))`
unfoldable pub clear_coil : List ℕ → ℕ → List ℕ
clear_coil d i = set d (i / 8) (bit_and (get_or d (i / 8) 0) (255 - 2 ^ (i % 8)))

module _ (k j c : ℕ) (hk : k < 8) (hj : j < 8) (hc : c < 256) where
  or_entry_holds : or_entry k j c ≡ true
  or_entry_holds = passed (or_entry k j) 256 c hc (
      passed (λ j. passes (or_entry k j) 256) 8 j hj
        (passed (λ k. passes (λ j. passes (or_entry k j) 256) 8) 8 k hk or_table))

  and_entry_holds : and_entry k j c ≡ true
  and_entry_holds = passed (and_entry k j) 256 c hc (
      passed (λ j. passes (and_entry k j) 256) 8 j hj
        (passed (λ k. passes (λ j. passes (and_entry k j) 256) 8) 8 k hk and_table))

  pub has_bit-or : has_bit (bit_or c (2 ^ k)) j ≡ (if k == j then true else has_bit c j)
  has_bit-or = same→eq _ _ (and_left _ _ or_entry_holds)
    where
      and_left : (a b : Bool) → a && b ≡ true → a ≡ true
      and_left a b h = ground arith

  has_bit-and : has_bit (bit_and c (255 - 2 ^ k)) j ≡ (if k == j then false else has_bit c j)
  has_bit-and = same→eq _ _ (and_left _ _ and_entry_holds)
    where
      and_left : (a b : Bool) → a && b ≡ true → a ≡ true
      and_left a b h = ground arith

and_right : (a b : Bool) → a && b ≡ true → b ≡ true
and_right a b h = ground arith

pub bit_or-lt : (k c : ℕ) → k < 8 → c < 256 → bit_or c (2 ^ k) < 256
bit_or-lt k c hk hc = ltb→lt _ _ (and_right _ _ (or_entry_holds k 0 c hk (omega arith) hc))

bit_and-lt : (k c : ℕ) → k < 8 → c < 256 → bit_and c (255 - 2 ^ k) < 256
bit_and-lt k c hk hc = ltb→lt _ _ (and_right _ _ (and_entry_holds k 0 c hk (omega arith) hc))

pub length-set_coil : (d : List ℕ) (i : ℕ) → length (set_coil d i) ≡ length d
unfolding set_coil
length-set_coil d i = length-set d (i / 8) _

pub length-clear_coil : (d : List ℕ) (i : ℕ) → length (clear_coil d i) ≡ length d
unfolding clear_coil
length-clear_coil d i = length-set d (i / 8) _

pub set_coil-Below : (d : List ℕ) (i : ℕ) → Below 256 d → Below 256 (set_coil d i)
unfolding set_coil
set_coil-Below d i h =
    Below-set 256 d (i / 8) _
      (bit_or-lt (i % 8) (get_or d (i / 8) 0) (omega arith)
        (Below-get_or 256 d (i / 8) (omega arith) h))
      h

pub clear_coil-Below : (d : List ℕ) (i : ℕ) → Below 256 d → Below 256 (clear_coil d i)
unfolding clear_coil
clear_coil-Below d i h =
    Below-set 256 d (i / 8) _
      (bit_and-lt (i % 8) (get_or d (i / 8) 0) (omega arith)
        (Below-get_or 256 d (i / 8) (omega arith) h))
      h

-- A bit and its byte determine the index.
index_split : (i j : ℕ) → i / 8 ≡ j / 8 → (i % 8 == j % 8) ≡ (i == j)
index_split i j h = ground arith

-- Reading a table after one bit of it was set.
pub coil-set_coil :
    (d : List ℕ) (i j : ℕ)
    → Below 256 d
    → i / 8 < length d
    → coil (set_coil d i) j ≡ (if i == j then true else coil d j)
unfolding coil set_coil
coil-set_coil d i j h l = elim (Bool-cases (i / 8 == j / 8)) [
  | inl e ↦
      let e' : i / 8 ≡ j / 8 = (==_iff _ _).0 e in
      rw (← e', get_or-set_self d (i / 8) _ 0 l, ← index_split i j e')
        (has_bit-or (i % 8) (j % 8) (get_or d (i / 8) 0) (omega arith) (omega arith)
          (Below-get_or 256 d (i / 8) (omega arith) h))
  | inr e ↦
      let ne : i / 8 ≢ j / 8 = ground arith in
      let ni : (i == j) ≡ false = ground arith in rw (ni, get_or-set_ne d (i / 8) (j / 8) _ 0 ne)
]

-- Reading a table after one bit of it was cleared.
pub coil-clear_coil :
    (d : List ℕ) (i j : ℕ)
    → Below 256 d
    → i / 8 < length d
    → coil (clear_coil d i) j ≡ (if i == j then false else coil d j)
unfolding coil clear_coil
coil-clear_coil d i j h l = elim (Bool-cases (i / 8 == j / 8)) [
  | inl e ↦
      let e' : i / 8 ≡ j / 8 = (==_iff _ _).0 e in
      rw (← e', get_or-set_self d (i / 8) _ 0 l, ← index_split i j e')
        (has_bit-and (i % 8) (j % 8) (get_or d (i / 8) 0) (omega arith) (omega arith)
          (Below-get_or 256 d (i / 8) (omega arith) h))
  | inr e ↦
      let ne : i / 8 ≢ j / 8 = ground arith in
      let ni : (i == j) ≡ false = ground arith in rw (ni, get_or-set_ne d (i / 8) (j / 8) _ 0 ne)
]

pub has_bit_zero : (k : ℕ) → k < 8 → has_bit 0 k ≡ false
has_bit_zero k h = same→eq _ _ (passed (λ k. same (has_bit 0 k) false) 8 k h zero_table)

pub coil-replicate : (n j : ℕ) → coil (replicate n 0) j ≡ false
unfolding coil
coil-replicate n j = rw get_or-replicate (has_bit_zero (j % 8) (omega arith))
