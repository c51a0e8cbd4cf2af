-- ===== src/Shared/Int.antt =====
-- Signed integers over the native numbers, and the casts between int16_t and uint16_t.
use Prim.Native.Nat.{ℕ, suc, ◌+◌, ◌-◌, ◌*◌, ◌%◌, ◌≤◌, ◌<◌}
use mathlib.Core.Path.{◌≡◌}
use mathlib.Core.Bool.{Bool}
use native.Mathlib.Omega.{arith}
use flexit_cs60_control.Shared.Tests.{ltb, if◌then◌else◌}

-- `negsuc n` is -(n + 1).
pub data ℤ : Type 0 where
  pos : ℕ → ℤ
  negsuc : ℕ → ℤ

abbrev pub pos_part : ℤ → ℕ
pos_part (pos n) = n
pos_part (negsuc n) = 0

abbrev pub neg_part : ℤ → ℕ
neg_part (pos n) = 0
neg_part (negsuc n) = suc n

infix 50 ◌≤ℤ◌
abbrev pub ◌≤ℤ◌ : ℤ → ℤ → Type 0
a ≤ℤ b = pos_part a + neg_part b ≤ pos_part b + neg_part a

abbrev pub ltb_ℤ : ℤ → ℤ → Bool
ltb_ℤ a b = ltb (pos_part a + neg_part b) (pos_part b + neg_part a)

-- `(int16_t)w` of a uint16_t.
abbrev pub signed16 : ℕ → ℤ
signed16 w = if ltb w 32768 then pos w else negsuc (65536 - w - 1)

-- `(uint16_t)z` of an integer.
abbrev pub word16 : ℤ → ℕ
word16 (pos n) = n % 65536
word16 (negsuc n) = 65535 - n % 65536

-- `10 * z`
abbrev pub times_ten : ℤ → ℤ
times_ten (pos n) = pos (n * 10)
times_ten (negsuc n) = negsuc (n * 10 + 9)

pub word16-signed16 : (w : ℕ) → w < 65536 → word16 (signed16 w) ≡ w
word16-signed16 w h = ground arith

-- A value of an int16_t.
abbrev pub IsInt16 : ℤ → Type 0
IsInt16 z = (negsuc 32767 ≤ℤ z) × (z ≤ℤ pos 32767)

pub signed16-word16 : (z : ℤ) → IsInt16 z → signed16 (word16 z) ≡ z
signed16-word16 z h = ground arith

pub signed16-IsInt16 : (w : ℕ) → w < 65536 → IsInt16 (signed16 w)
signed16-IsInt16 w h = ground arith
