-- ===== src/Zigbee.antt =====
-- src/zigbee_ep.c: the values that wait to be published, the thread-safe setters and the limits.
-- The children hold the publishing tick, the writes of Zigbee clients and the proofs.
pub mod Publish
pub mod Model
pub mod Declared
pub mod Write
pub mod Shape
pub mod Ticks
pub mod Hold
pub mod Network
pub mod Reach
mod Tests
use flexit_cs60_control.Shared.{
  ℕ, ◌+◌, Bool, true, false, Option, none, some, List, [], ◌∷◌, replicate, set, leb, ltb,
  if◌then◌else◌,
}
use flexit_cs60_control.Shared.Int.{ℤ, pos}

-- The float arithmetic that the file uses; `F` stands for the C type.
pub record Floats (F : Type 0) : Type 0 where
  -- `(float)n`
  pub of_int : ℤ → F
  -- `x / 10.0f`
  pub tenth : F → F
  -- `x + y`, `0.5f`, `-0.5f` and `x >= 0.0f`
  pub add : F → F → F
  pub half : F
  pub minus_half : F
  pub is_nonneg : F → Bool
  -- `(int32_t)x`
  pub trunc : F → ℤ
  -- The `memcpy` of a 32-bit word into a float.
  pub from_word : ℕ → F

-- ZIGBEE_TEMP_COUNT, ZIGBEE_ANALOG_COUNT and ZIGBEE_BINARY_COUNT.
abbrev pub temp_count : ℕ
temp_count = 1

abbrev pub analog_count : ℕ
analog_count = 3

abbrev pub binary_count : ℕ
binary_count = 5

-- The channels.
abbrev pub temp_supply : ℕ
temp_supply = 0

abbrev pub analog_heat_exchanger : ℕ
analog_heat_exchanger = 0

abbrev pub analog_heating : ℕ
analog_heating = 1

abbrev pub analog_intake_temp : ℕ
analog_intake_temp = 2

abbrev pub binary_supply_sensor : ℕ
binary_supply_sensor = 0

abbrev pub binary_outdoor_sensor : ℕ
binary_outdoor_sensor = 1

abbrev pub binary_heat_exchanger : ℕ
binary_heat_exchanger = 2

abbrev pub binary_overheat : ℕ
binary_overheat = 3

abbrev pub binary_filter : ℕ
binary_filter = 4

-- FLEXIT_SETPOINT_WRITE_HOLD_MS
abbrev pub setpoint_write_hold_ms : ℕ
setpoint_write_hold_ms = 5000

-- `pending`
pub record Pending (F : Type 0) : Type 0 where
  pub temp_cc : List ℤ
  pub temp_dirty : List Bool
  pub temp_last_ms : List ℕ
  pub analog_val : List F
  pub analog_dirty : List Bool
  pub binary_val : List Bool
  pub binary_dirty : List Bool
  pub setpoint_val : F
  pub setpoint_dirty : Bool
  pub setpoint_hold_until : ℕ
  pub mode : ℕ
  pub mode_dirty : Bool

module _ {F : Type 0} (f : Floats F) where
  open f use {of_int, tenth}

  -- The static `pending` at boot.
  abbrev pub no_pending : Pending F
  no_pending = record {
    temp_cc = replicate temp_count (pos 0);
    temp_dirty = replicate temp_count false;
    temp_last_ms = replicate temp_count 0;
    analog_val = replicate analog_count (of_int (pos 0));
    analog_dirty = replicate analog_count false;
    binary_val = replicate binary_count false;
    binary_dirty = replicate binary_count false;
    setpoint_val = of_int (pos 0);
    setpoint_dirty = false;
    setpoint_hold_until = 0;
    mode = 0;
    mode_dirty = false;
  }

  -- The setters; `now` is the answer of the clock.
  unfoldable pub set_temperature : ℕ → ℤ → ℕ → Pending F → Pending F
  set_temperature ch centi_celsius now q = if leb temp_count ch then q else record q {
    temp_cc = set q.temp_cc ch centi_celsius;
    temp_dirty = set q.temp_dirty ch true;
    temp_last_ms = set q.temp_last_ms ch now;
  }

  unfoldable pub set_percent : ℕ → ℕ → Pending F → Pending F
  set_percent ch percent q = if leb analog_count ch then q else record q {
    analog_val = set q.analog_val ch (of_int (pos percent));
    analog_dirty = set q.analog_dirty ch true;
  }

  unfoldable pub set_binary : ℕ → Bool → Pending F → Pending F
  set_binary ch active q = if leb binary_count ch then q else record q {
    binary_val = set q.binary_val ch active;
    binary_dirty = set q.binary_dirty ch true;
  }

  unfoldable pub set_intake_temp : ℤ → Pending F → Pending F
  set_intake_temp value_dc q = record q {
    analog_val = set q.analog_val analog_intake_temp (tenth (of_int value_dc));
    analog_dirty = set q.analog_dirty analog_intake_temp true;
  }

  unfoldable pub set_mode : ℕ → Pending F → Pending F
  set_mode flexit_mode q =
      if ltb 3 flexit_mode then q else record q { mode = flexit_mode; mode_dirty = true }

  -- During the hold after a write the reading of the setpoint is skipped.
  unfoldable pub set_setpoint : ℤ → ℕ → Pending F → Pending F
  set_setpoint value_dc now q =
      if leb q.setpoint_hold_until now
      then record q { setpoint_val = of_int value_dc; setpoint_dirty = true }
      else q

-- The endpoint: what waits, which temperatures are stale, the link state published last (none for
-- the -1 at boot), and the callbacks, which act on a `T`.
pub record State (F T : Type 0) : Type 0 where
  pub pending : Pending F
  pub temp_stale : List Bool
  pub cs60_link_state : Option Bool
  pub mode_write_cb : Option (ℕ → T → T)
  pub setpoint_write_cb : Option (ℤ → T → T)

-- Boot, with the initial staleness of `app_clusters_attr_init`.
abbrev pub boot : {F T : Type 0} → Floats F → State F T
boot f = record {
  pending = no_pending f;
  temp_stale = replicate temp_count true;
  cs60_link_state = none;
  mode_write_cb = none;
  setpoint_write_cb = none;
}

module _ {F T : Type 0} where
  abbrev pub set_mode_write_handler : Option (ℕ → T → T) → State F T → State F T
  set_mode_write_handler cb z = record z { mode_write_cb = cb }

  abbrev pub set_setpoint_write_handler : Option (ℤ → T → T) → State F T → State F T
  set_setpoint_write_handler cb z = record z { setpoint_write_cb = cb }
