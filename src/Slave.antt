-- ===== src/Slave.antt =====
-- src/flexit_slave.c: the state of the Modbus slave, its public operations and its snapshot.
-- The children hold the responses, the request handlers, the frame matcher and the proofs.
-- The mutex serialises the operations, so each is one step on the state.
pub mod Respond
pub mod Handle
pub mod Decode
pub mod Matcher
pub mod Invariant
pub mod Responses
pub mod Resync
pub mod Commands
pub mod Traffic
pub mod Exchange
pub mod Answers
pub mod Cycle
mod Tests
use flexit_cs60_control.Shared.{
  ℕ, ◌+◌, ◌%◌, ◌^◌, ◌≡◌, Bool, List, [], ◌∷◌, length, get_or, set, replicate, ltb, ◌==◌,
  if◌then◌else◌, Below, coil, set_coil, clear_coil,
}

-- FLEXIT_SLAVE_ADDR and the table sizes of src/flexit_slave.h.
abbrev pub slave_addr : ℕ
slave_addr = 1

abbrev pub coil_count : ℕ
coil_count = 16

abbrev pub reg_count : ℕ
reg_count = 16

-- FLEXIT_SLAVE_CMD_MODE_ADDR and FLEXIT_SLAVE_CMD_SETPOINT_ADDR.
abbrev pub cmd_mode : ℕ
cmd_mode = 0

abbrev pub cmd_setpoint : ℕ
cmd_setpoint = 12

abbrev pub sentinel_none : ℕ
sentinel_none = 0xFFFF

-- `x++` on a uint32_t.
abbrev pub bump : ℕ → ℕ
bump x = (x + 1) % 2 ^ 32

-- The static `state`; the coils are two bytes, coil 0 the lowest bit of the first.
pub record State : Type 0 where
  pub coils : List ℕ
  pub regs : List ℕ
  pub pending_mode : ℕ
  pub last_acked_mode : ℕ
  pub last_ack_uptime_ms : ℕ
  pub pending_setpoint : ℕ
  pub setpoint_reads : ℕ
  pub fc01_serviced : ℕ
  pub fc03_serviced : ℕ
  pub fc04_serviced : ℕ
  pub fc65_acks : ℕ
  pub tx_errors : ℕ
  pub crc_failures : ℕ

-- The state part of `flexit_slave_init`, whatever the state was.
abbrev pub init : State
init = record {
  coils = 0 ∷ 0 ∷ [];
  regs = replicate reg_count 0;
  pending_mode = sentinel_none;
  last_acked_mode = sentinel_none;
  last_ack_uptime_ms = 0;
  pending_setpoint = sentinel_none;
  setpoint_reads = 0;
  fc01_serviced = 0;
  fc03_serviced = 0;
  fc04_serviced = 0;
  fc65_acks = 0;
  tx_errors = 0;
  crc_failures = 0;
}

-- 0 or -EINVAL.
pub data Status : Type 0 where
  ok einval : Status

unfoldable pub queue_mode : ℕ → State → Status × State
queue_mode mode s = if ltb 3 mode then (einval, s) else (
  ok,
  record s {
    regs = set s.regs cmd_mode mode;
    coils = set_coil s.coils cmd_mode;
    pending_mode = mode;
  },
)

unfoldable pub queue_setpoint : ℕ → State → Status × State
queue_setpoint value s = (
  ok,
  record s {
    regs = set s.regs cmd_setpoint value;
    coils = set_coil s.coils cmd_setpoint;
    pending_setpoint = value;
  },
)

-- `struct flexit_slave_snapshot`
pub record Snapshot : Type 0 where
  pub pending_mode : ℕ
  pub last_acked_mode : ℕ
  pub last_ack_uptime_ms : ℕ
  pub fc01_serviced : ℕ
  pub fc03_serviced : ℕ
  pub fc04_serviced : ℕ
  pub fc65_acks : ℕ
  pub tx_errors : ℕ
  pub crc_failures : ℕ
  pub coil0_pending : Bool
  pub reg0_value : ℕ
  pub pending_setpoint : ℕ
  pub coil_setpoint_pending : Bool
  pub reg_setpoint_value : ℕ
  pub setpoint_reads : ℕ

unfoldable pub snapshot : State → Snapshot
snapshot s = record {
  pending_mode = s.pending_mode;
  last_acked_mode = s.last_acked_mode;
  last_ack_uptime_ms = s.last_ack_uptime_ms;
  fc01_serviced = s.fc01_serviced;
  fc03_serviced = s.fc03_serviced;
  fc04_serviced = s.fc04_serviced;
  fc65_acks = s.fc65_acks;
  tx_errors = s.tx_errors;
  crc_failures = s.crc_failures;
  coil0_pending = coil s.coils 0;
  reg0_value = get_or s.regs cmd_mode 0;
  pending_setpoint = s.pending_setpoint;
  coil_setpoint_pending = coil s.coils cmd_setpoint;
  reg_setpoint_value = get_or s.regs cmd_setpoint 0;
  setpoint_reads = s.setpoint_reads;
}

-- The sizes of the tables, and the widths of what they hold.
pub record IsValid (s : State) : Type 0 where
  pub two_bytes : length s.coils ≡ 2
  pub coil_bytes : Below 256 s.coils
  pub sixteen_regs : length s.regs ≡ reg_count
  pub reg_words : Below 65536 s.regs
