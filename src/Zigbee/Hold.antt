-- ===== src/Zigbee/Hold.antt =====
-- src/zigbee_ep.c: the hold of the setpoint's reading after a client's write.
use flexit_cs60_control.Shared.{
  ℕ, ◌+◌, ◌≡◌, ap, Bool, true, List, [], ◌∷◌, ◌++◌, arith, ltb, if◌then◌else◌,
}
use flexit_cs60_control.Shared.Int.{ℤ}
use flexit_cs60_control.Zigbee.{Floats, State, set_setpoint, setpoint_write_hold_ms, temp_count}
use flexit_cs60_control.Zigbee.Publish.{
  Attr, analog_value, av_ep_setpoint, publish_tick, publish_temps, publish_dirty, publish_link,
  analog_input, binary_input, analog_ep_id, binary_ep_id, fan_mode, ctrl_endpoint,
}
use flexit_cs60_control.Zigbee.Write.{handle_setpoint_write}

module _ {F T : Type 0} (f : Floats F) where
  open f use {of_int}

  -- A reading of the setpoint that comes within five seconds of a client's write changes nothing
  -- that waits; a later one is latched.
  pub hold_lem :
      (value_dc : F) (written now : ℕ) (reading : ℤ) (z : State F T) (t : T)
      → let q = (handle_setpoint_write f value_dc written (z, t)).0.pending in
        set_setpoint f reading now q ≡ (
          if ltb now (written + setpoint_write_hold_ms)
          then q
          else record q { setpoint_val = of_int reading; setpoint_dirty = true })
  unfolding handle_setpoint_write set_setpoint
  hold_lem value_dc written now reading z t = ground arith

  -- The hold comes too late for a reading that already waits: the tick after the write still
  -- writes that older value into the setpoint's attribute.
  pub readback_overtakes_write :
      (value_dc : F) (written now : ℕ) (link_up : Bool) (z : State F T) (t : T)
      → z.pending.setpoint_dirty ≡ true
      → let z' = (handle_setpoint_write f value_dc written (z, t)).0 in
        (before : List (Attr F)) × (after : List (Attr F)) × ((publish_tick now link_up z').1
          ≡ before ++ (analog_value av_ep_setpoint z.pending.setpoint_val ∷ []) ++ after)
  unfolding handle_setpoint_write publish_tick
  readback_overtakes_write value_dc written now link_up z t dirty =
      let q = record z.pending { setpoint_hold_until = written + setpoint_write_hold_ms } in
      let temps = (publish_temps q now temp_count 0 z.temp_stale).1 in
      let analogs = publish_dirty analog_input analog_ep_id q.analog_dirty q.analog_val in
      let binaries = publish_dirty binary_input binary_ep_id q.binary_dirty q.binary_val in
      let link = publish_link link_up z.cs60_link_state in
      let modes = if q.mode_dirty then fan_mode ctrl_endpoint q.mode ∷ [] else [] in
      (
        temps ++ analogs ++ binaries ++ link,
        modes,
        ap
            (λ d.
              temps
              ++ analogs
              ++ binaries
              ++ link
              ++ (if d then analog_value av_ep_setpoint z.pending.setpoint_val ∷ [] else [])
              ++ modes)
            dirty,
      )
