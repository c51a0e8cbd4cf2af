-- ===== src/Bridge.antt =====
-- src/flexit_bridge.c: the mirror's status goes to the Zigbee endpoint, a client's write to the
-- slave's queue.
pub mod Status
pub mod Wire
pub mod Commands
pub mod Rounding
mod Tests
use flexit_cs60_control.Shared.{
  ℕ, Bool, not, Option, some, ◌==◌, leb, ◌%◌, ◌^◌, if◌then◌else◌, has_bit,
}
use flexit_cs60_control.Shared.Int.{ℤ, times_ten, signed16, word16}
use flexit_cs60_control.Mirror
use flexit_cs60_control.Slave
use flexit_cs60_control.Slave.{queue_mode, queue_setpoint}
use flexit_cs60_control.Zigbee.{
  Floats, Pending, State, temp_supply, analog_heat_exchanger, analog_heating, binary_supply_sensor,
  binary_outdoor_sensor, binary_heat_exchanger, binary_overheat, binary_filter, set_temperature,
  set_intake_temp, set_percent, set_setpoint, set_binary, set_mode, set_mode_write_handler,
  set_setpoint_write_handler,
}

-- The two handlers only log what the queue returns.
unfoldable pub mode_write_handler : ℕ → Slave.State → Slave.State
mode_write_handler flexit_mode s = (queue_mode flexit_mode s).1

unfoldable pub setpoint_write_handler : ℤ → Slave.State → Slave.State
setpoint_write_handler value_dc s = (queue_setpoint (word16 value_dc) s).1

module _ {F : Type 0} (f : Floats F) where
  -- The setters in the order of `bridge_work_fn`; `at_temp` and `at_setpoint` are the clock's
  -- answers in the two setters that ask for the time.
  unfoldable pub push_status : Mirror.State → ℕ → ℕ → Pending F → Pending F
  push_status st at_temp at_setpoint q =
      let q1 =
        set_temperature f temp_supply (signed16 (word16 (times_ten st.temp_supply_air_x10))) at_temp
          q in
      let q2 = set_intake_temp f st.temp_outdoor_air_x10 q1 in
      let q3 = set_percent f analog_heat_exchanger st.pct_heat_exchanger q2 in
      let q4 = set_percent f analog_heating st.pct_heating q3 in
      let q5 = set_setpoint f st.temp_setpoint_2_x10 at_setpoint q4 in
      let q6 = set_binary f binary_supply_sensor (has_bit st.alarms 0) q5 in
      let q7 = set_binary f binary_outdoor_sensor (has_bit st.alarms 1) q6 in
      let q8 = set_binary f binary_heat_exchanger (has_bit st.alarms 3) q7 in
      let q9 = set_binary f binary_overheat (has_bit st.alarms 2) q8 in
      let q10 = set_binary f binary_filter (has_bit st.alarms 4) q9 in
      if leb st.mode 3 then set_mode f (st.mode % 2 ^ 8) q10 else q10

  -- One round of `bridge_work_fn`, with `pushed_fc10_frames`.
  unfoldable pub bridge_work : Mirror.State → ℕ → ℕ → ℕ × Pending F → ℕ × Pending F
  bridge_work st at_temp at_setpoint (pushed_fc10_frames, q) =
      if st.fc10_frames == pushed_fc10_frames
      then (pushed_fc10_frames, q)
      else (st.fc10_frames, push_status st at_temp at_setpoint q)

-- The registrations of `flexit_bridge_init`.
unfoldable pub bridge_init : {F : Type 0} → State F Slave.State → State F Slave.State
bridge_init z =
    set_setpoint_write_handler (some setpoint_write_handler)
      (set_mode_write_handler (some mode_write_handler) z)
