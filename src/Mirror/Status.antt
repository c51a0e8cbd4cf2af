-- ===== src/Mirror/Status.antt =====
-- src/panel_mirror.c, `try_decode_fc10`: what the status block writes into the mirror.
use flexit_cs60_control.Shared.{ℕ, ◌+◌, ◌-◌, ◌*◌, List, ◌==◌, if◌then◌else◌, be16, bit_or}
use flexit_cs60_control.Shared.Int.{ℤ, negsuc, signed16, ltb_ℤ}
use flexit_cs60_control.Mirror.{State, bump}

-- TEMP_SENTINEL_MAX_X10, -1000.
abbrev pub temp_sentinel_max_x10 : ℤ
temp_sentinel_max_x10 = negsuc 999

-- FC10_REG_OFF
abbrev pub fc10_reg_off : ℕ → ℕ
fc10_reg_off reg = (reg - 0x00BE) * 2

-- `if (test) mask |= flag;`
abbrev pub or_if_nonzero : ℕ → ℕ → ℕ → ℕ
or_if_nonzero word flag mask = if word == 0 then mask else bit_or mask flag

unfoldable pub alarm_bits : List ℕ → ℕ
alarm_bits frame =
    let reg = λ (r : ℕ). be16 frame (7 + fc10_reg_off r) in
    or_if_nonzero (reg 0x010C) 0x10 (
      or_if_nonzero (reg 0x010B) 0x08 (
        or_if_nonzero (reg 0x0108) 0x04
          (or_if_nonzero (reg 0x0106) 0x02 (or_if_nonzero (reg 0x0104) 0x01 0))))

unfoldable pub sensor_bits : ℤ → ℤ → ℕ
sensor_bits extract return_water =
    let extract_bit = if ltb_ℤ temp_sentinel_max_x10 extract then bit_or 0 0x01 else 0 in
    if ltb_ℤ temp_sentinel_max_x10 return_water then bit_or extract_bit 0x02 else extract_bit

-- The state part of `try_decode_fc10`, at the uptime `now`; `regs` is `frame + 7`.
unfoldable pub apply_status : List ℕ → ℕ → State → State
apply_status frame now s =
    let word = λ (off : ℕ). be16 frame (7 + off) in
    record s {
      temp_setpoint_x10 = signed16 (word 0);
      mode = word 2;
      unknown_1 = word 4;
      unknown_2 = word 6;
      temp_setpoint_2_x10 = signed16 (word 8);
      temp_supply_air_x10 = signed16 (word 10);
      temp_extract_air_x10 = signed16 (word 12);
      temp_outdoor_air_x10 = signed16 (word 14);
      temp_return_water_x10 = signed16 (word 16);
      pct_cooling = word 18;
      pct_heat_exchanger = word 20;
      pct_heating = word 22;
      pct_supply_fan = word 24;
      sensors_present = sensor_bits (signed16 (word 12)) (signed16 (word 16));
      alarms = alarm_bits frame;
      fc10_frames = bump s.fc10_frames;
      last_fc10_uptime_ms = now;
    }
