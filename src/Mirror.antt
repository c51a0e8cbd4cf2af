-- ===== src/Mirror.antt =====
-- src/panel_mirror.c and src/panel_mirror.h: the mirrored panel, its snapshot and the link test.
-- The children hold the counter table, the frame decoders and the proofs.
pub mod Counters
pub mod Status
pub mod Decode
pub mod Matcher
pub mod Search
pub mod Table
pub mod Flags
pub mod Reception
pub mod Writes
pub mod Link
mod Tests
use flexit_cs60_control.Shared.{
  ℕ, ◌+◌, ◌-◌, ◌%◌, ◌^◌, Bool, false, List, leb, ◌==◌, if◌then◌else◌, replicate,
}
use flexit_cs60_control.Shared.Int.{ℤ, pos}

-- PANEL_MIRROR_COUNTER_SLOTS
abbrev pub counter_slots : ℕ
counter_slots = 8

-- `x++` on a uint32_t.
abbrev pub bump : ℕ → ℕ
bump x = (x + 1) % 2 ^ 32

-- One entry of `counters`.
pub record Slot : Type 0 where
  pub addr : ℕ
  pub value : ℕ
  pub at_ms : ℕ
  pub used : Bool

abbrev pub no_slot : Slot
no_slot = record { addr = 0; value = 0; at_ms = 0; used = false }

-- `struct panel_mirror_state`
pub record State : Type 0 where
  pub temp_setpoint_x10 : ℤ
  pub mode : ℕ
  pub unknown_1 : ℕ
  pub unknown_2 : ℕ
  pub temp_setpoint_2_x10 : ℤ
  pub temp_supply_air_x10 : ℤ
  pub temp_extract_air_x10 : ℤ
  pub temp_outdoor_air_x10 : ℤ
  pub temp_return_water_x10 : ℤ
  pub pct_cooling : ℕ
  pub pct_heat_exchanger : ℕ
  pub pct_heating : ℕ
  pub pct_supply_fan : ℕ
  pub sensors_present : ℕ
  pub alarms : ℕ
  pub counters : List Slot
  pub fc10_frames : ℕ
  pub fc06_frames : ℕ
  pub crc_failures : ℕ
  pub last_fc10_uptime_ms : ℕ

-- The static `state` at boot: all zero.
abbrev pub boot : State
boot = record {
  temp_setpoint_x10 = pos 0;
  mode = 0;
  unknown_1 = 0;
  unknown_2 = 0;
  temp_setpoint_2_x10 = pos 0;
  temp_supply_air_x10 = pos 0;
  temp_extract_air_x10 = pos 0;
  temp_outdoor_air_x10 = pos 0;
  temp_return_water_x10 = pos 0;
  pct_cooling = 0;
  pct_heat_exchanger = 0;
  pct_heating = 0;
  pct_supply_fan = 0;
  sensors_present = 0;
  alarms = 0;
  counters = replicate counter_slots no_slot;
  fc10_frames = 0;
  fc06_frames = 0;
  crc_failures = 0;
  last_fc10_uptime_ms = 0;
}

-- `panel_mirror_snapshot` copies the whole state.
abbrev pub snapshot : State → State
snapshot s = s

-- `panel_mirror_cs60_link_up(stale_ms)` at the uptime `now`; the difference is a uint64_t.
unfoldable pub cs60_link_up : ℕ → ℕ → State → Bool
cs60_link_up stale_ms now s =
    if s.last_fc10_uptime_ms == 0
    then false
    else leb ((2 ^ 64 + now - s.last_fc10_uptime_ms) % 2 ^ 64) stale_ms
