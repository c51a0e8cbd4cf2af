-- ===== src/Platform.antt =====
-- What the firmware calls and this repository does not hold: Zephyr's `crc16_ansi` and
-- `k_uptime_get`. They are parameters; of the checksum only its C type is assumed.
pub mod Modbus
use flexit_cs60_control.Shared.{ℕ, ◌<◌, List}

pub record Platform : Type 0 where
  -- `crc16_ansi(data, length data)`, a uint16_t.
  pub crc16 : List ℕ → ℕ
  pub crc16-lt : (xs : List ℕ) → crc16 xs < 65536
  -- The answer of the n-th call of `k_uptime_get`.
  pub uptime : ℕ → ℕ
