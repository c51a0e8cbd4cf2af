-- ===== src/Bridge/Commands.antt =====
-- From a Zigbee client's write, over src/flexit_bridge.c, to the slave's coils and registers.
use flexit_cs60_control.Shared.{
  ℕ, ◌+◌, ◌≤◌, ◌≡◌, refl, ap, subst, sym, ◌∙◌, false, ◌&&◌, ◌||◌, arith, leb, ◌==◌, coil,
  if◌then◌else◌,
}
use flexit_cs60_control.Shared.Int.{ℤ, pos, negsuc, ltb_ℤ, signed16, word16}
use flexit_cs60_control.Slave
use flexit_cs60_control.Slave.{IsValid, cmd_mode, cmd_setpoint}
use flexit_cs60_control.Slave.Commands.{reg, queue_mode_lem, queue_setpoint_lem}
use flexit_cs60_control.Zigbee.{Floats, State, setpoint_write_hold_ms}
use flexit_cs60_control.Zigbee.Write.{
  zcl_device_cb, handle_fan_mode_write, handle_setpoint_write, fan_mode_written, setpoint_written,
  nearest, clamp_setpoint, setpoint_min_dc, setpoint_max_dc,
}
use flexit_cs60_control.Bridge.{bridge_init, mode_write_handler, setpoint_write_handler}

-- A clamped setpoint is a small number, and survives the two casts.
clamp_cases :
    (dc : ℤ)
    → let c =
        if ltb_ℤ dc setpoint_min_dc
        then setpoint_min_dc
        else if ltb_ℤ setpoint_max_dc dc
        then setpoint_max_dc
        else dc in
      (pos (word16 (signed16 (word16 c))) ≡ c)
      × (100 ≤ word16 (signed16 (word16 c)))
      × (word16 (signed16 (word16 c)) ≤ 300)
clamp_cases (pos n) = ground arith
clamp_cases (negsuc n) = ground arith

module _ {F : Type 0} (f : Floats F) (z : State F Slave.State) (s : Slave.State)
    (v : IsValid s) where
  -- A client's write of a fan mode from 0 to 3 raises coil 0 over a register 0 that holds the mode,
  -- and leaves the other coils and registers and the endpoint alone; any other changes nothing.
  pub fan_mode_write_lem :
      (fan_mode now i : ℕ)
      → let (z', t) = zcl_device_cb f (fan_mode_written fan_mode) now (bridge_init z, s) in
        (z' ≡ bridge_init z)
        × (coil t.coils i ≡ ((leb fan_mode 3 && cmd_mode == i) || coil s.coils i))
        × (reg t i ≡ (if leb fan_mode 3 && cmd_mode == i then fan_mode else reg s i))
  unfolding zcl_device_cb handle_fan_mode_write mode_write_handler bridge_init
  fan_mode_write_lem fan_mode now i = ground (arith, queue_mode_lem v fan_mode i)

  -- A client's write of any setpoint raises coil 12 over a register 12 that holds the nearest whole
  -- tenth of a degree, kept between 10 and 30 degrees, leaves the other coils and registers alone
  -- and starts the hold.
  pub setpoint_write_lem :
      (data32 now i : ℕ)
      → let (z', t) = zcl_device_cb f (setpoint_written data32) now (bridge_init z, s) in
        (z'.pending.setpoint_hold_until ≡ now + setpoint_write_hold_ms)
        × (coil t.coils i ≡ (cmd_setpoint == i || coil s.coils i))
        × (pos (reg t cmd_setpoint) ≡ clamp_setpoint f (f.from_word data32))
        × (100 ≤ reg t cmd_setpoint)
        × (reg t cmd_setpoint ≤ 300)
        × ((cmd_setpoint == i) ≡ false → reg t i ≡ reg s i)
  unfolding zcl_device_cb handle_setpoint_write setpoint_write_handler bridge_init clamp_setpoint
  setpoint_write_lem data32 now i =
      let value = word16 (signed16 (word16 (clamp_setpoint f (f.from_word data32)))) in
      let queued = queue_setpoint_lem v value in
      let (exact, low, high) = clamp_cases (nearest f (f.from_word data32)) in
      let held : reg (Slave.queue_setpoint value s).1 cmd_setpoint ≡ value =
        (queued cmd_setpoint).2 in
      (
        refl,
        (queued i).1,
        ap pos held ∙ exact,
        subst (λ n. 100 ≤ n) (sym held) low,
        subst (λ n. n ≤ 300) (sym held) high,
        λ ne. (queued i).2 ∙ ground (arith, ne),
      )

  -- In range, the write is one call of `flexit_slave_queue_mode`.
  pub fan_mode_queued :
      (fan_mode now : ℕ)
      → fan_mode ≤ 3
      → (zcl_device_cb f (fan_mode_written fan_mode) now (bridge_init z, s)).1
        ≡ (Slave.queue_mode fan_mode s).1
  unfolding zcl_device_cb handle_fan_mode_write mode_write_handler bridge_init
  fan_mode_queued fan_mode now h = ground arith

  -- A write of a setpoint is one call of `flexit_slave_queue_setpoint`, with the clamped value.
  pub setpoint_queued :
      (data32 now : ℕ)
      → (value : ℕ) × ((zcl_device_cb f (setpoint_written data32) now (bridge_init z, s)).1
          ≡ (Slave.queue_setpoint value s).1)
        × (pos value ≡ clamp_setpoint f (f.from_word data32))
        × (100 ≤ value)
        × (value ≤ 300)
  unfolding zcl_device_cb handle_setpoint_write setpoint_write_handler bridge_init clamp_setpoint
  setpoint_queued data32 now =
      let (exact, low, high) = clamp_cases (nearest f (f.from_word data32)) in
      (word16 (signed16 (word16 (clamp_setpoint f (f.from_word data32)))), refl, exact, low, high)
