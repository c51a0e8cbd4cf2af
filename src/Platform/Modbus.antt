-- ===== src/Platform/Modbus.antt =====
-- A concrete platform for the tests: the checksum of Modbus and a clock that ticks with each reading.
use Prim.Native.Nat.{bit_xor}
use mathlib.Core.List.{foldl}
use flexit_cs60_control.Shared.{
  ℕ, zero, suc, ◌+◌, ◌/◌, ◌%◌, ◌<◌, ◌≡◌, refl, List, [], ◌∷◌, arith, ◌==◌, if◌then◌else◌,
}
use flexit_cs60_control.Platform.{Platform}

-- CRC-16/MODBUS, eight shifts for a byte.
unfoldable pub shift_crc : ℕ → ℕ → ℕ
shift_crc zero crc = crc
shift_crc (suc n) crc = shift_crc n (if crc % 2 == 1 then bit_xor (crc / 2) 0xA001 else crc / 2)

unfoldable pub crc16_modbus : List ℕ → ℕ
unfolding shift_crc
crc16_modbus xs = foldl (λ crc b. shift_crc 8 (bit_xor crc b)) 0xFFFF xs % 65536

pub crc16_modbus-lt : (xs : List ℕ) → crc16_modbus xs < 65536
unfolding crc16_modbus
crc16_modbus-lt xs = omega arith

abbrev pub platform : Platform
platform = record { crc16 = crc16_modbus; crc16-lt = crc16_modbus-lt; uptime = λ n. 1000 + n }

-- The read of the CI60 panel's register 0 that the captures show.
captured_crc : crc16_modbus (0x02 ∷ 0x03 ∷ 0x00 ∷ 0x00 ∷ 0x00 ∷ 0x01 ∷ []) ≡ 0x3984
unfolding crc16_modbus
captured_crc = refl
