-- ===== src/Zigbee/Write.antt =====
-- src/zigbee_ep.c: what a Zigbee client's write does, `zcl_device_cb` and the two handlers.
use flexit_cs60_control.Shared.{ℕ, ◌+◌, Option, none, some, ltb, if◌then◌else◌}
use flexit_cs60_control.Shared.Int.{ℤ, pos, ltb_ℤ, signed16, word16}
use flexit_cs60_control.Zigbee.{Floats, State, setpoint_write_hold_ms}

-- FLEXIT_SETPOINT_MIN_DC and FLEXIT_SETPOINT_MAX_DC
abbrev pub setpoint_min_dc : ℤ
setpoint_min_dc = pos 100

abbrev pub setpoint_max_dc : ℤ
setpoint_max_dc = pos 300

-- The attribute of a write that the endpoint acts on, by cluster and attribute number.
pub data Written : Type 0 where
  fan_mode_written : ℕ → Written
  setpoint_written : ℕ → Written
  other_written : Written

abbrev pub call_back {ℓ} : {A T : Type ℓ} → Option (A → T → T) → A → T → T
call_back none a t = t
call_back (some cb) a t = cb a t

module _ {F : Type 0} (f : Floats F) where
  open f use {add, half, minus_half, is_nonneg, trunc, from_word}

  -- To the nearest whole number.
  unfoldable pub nearest : F → ℤ
  nearest value_dc = trunc (add value_dc (if is_nonneg value_dc then half else minus_half))

  unfoldable pub clamp_setpoint : F → ℤ
  clamp_setpoint value_dc =
      let dc = nearest value_dc in
      if ltb_ℤ dc setpoint_min_dc
      then setpoint_min_dc
      else if ltb_ℤ setpoint_max_dc dc
      then setpoint_max_dc
      else dc

  module _ {T : Type 0} where
    unfoldable pub handle_fan_mode_write : ℕ → State F T × T → State F T × T
    handle_fan_mode_write fan_mode (z, t) =
        if ltb 3 fan_mode then (z, t) else (z, call_back z.mode_write_cb fan_mode t)

    -- `now` is the answer of the clock.
    unfoldable pub handle_setpoint_write : F → ℕ → State F T × T → State F T × T
    handle_setpoint_write value_dc now (z, t) = (
      record z {
        pending = record z.pending { setpoint_hold_until = now + setpoint_write_hold_ms };
      },
      call_back z.setpoint_write_cb (signed16 (word16 (clamp_setpoint value_dc))) t,
    )

    unfoldable pub zcl_device_cb : Written → ℕ → State F T × T → State F T × T
    zcl_device_cb (fan_mode_written data8) now r = handle_fan_mode_write data8 r
    zcl_device_cb (setpoint_written data32) now r = handle_setpoint_write (from_word data32) now r
    zcl_device_cb other_written now r = r
