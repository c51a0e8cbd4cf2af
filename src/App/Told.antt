-- ===== src/App/Told.antt =====
-- A status block on its way from the driver (src/rs485_uart.c) over the mirror
-- (src/panel_mirror.c) and the reply to "state" (src/ble_transport.c) to the host's client
-- (tools/ble-client/main.go).
use flexit_cs60_control.Mirror.{counter_slots}
use flexit_cs60_control.Shared.{
  ℕ, ◌+◌, ◌<◌, ◌≡◌, refl, ap, sym, ◌∙◌, Bool, true, List, [], ◌∷◌, ◌++◌, get_or, Below, length,
  append_assoc, subst,
}
use flexit_cs60_control.Shared.Int.{signed16, ltb_ℤ}
use flexit_cs60_control.Shared.Text.{codes, dec, hex4}
use flexit_cs60_control.Platform.{Platform}
use flexit_cs60_control.Accum.{contents}
use flexit_cs60_control.Accum.Buffer
use flexit_cs60_control.Mirror
use flexit_cs60_control.Mirror.Reception.{status_frame, Shows}
use flexit_cs60_control.Mirror.Status.{temp_sentinel_max_x10}
use flexit_cs60_control.Slave
use flexit_cs60_control.Slave.{Snapshot}
use flexit_cs60_control.Ble.Stream.{Host, notify}
use flexit_cs60_control.Ble.Line.{format_temp_x10, format_state_line}
use flexit_cs60_control.Ble.Fields.{whole_line}
use flexit_cs60_control.Ble.Parse.{Libc, command}
use flexit_cs60_control.Ble.Command.{Device, nus_received, run_command}
use flexit_cs60_control.Client.{Parsed, parse_line}
use flexit_cs60_control.Client.Words.{Entry}
use flexit_cs60_control.Client.Entries.{
  status_entries, entries, queued_entry, acked_entry, slave_entries, setpoint_entries, slot_entries,
}
use flexit_cs60_control.Client.Line.{parse_line-format_state_line}
use flexit_cs60_control.Uart
use flexit_cs60_control.Uart.{RingBuffer, IsFifo}
use flexit_cs60_control.Uart.Traffic.{Activity}
use flexit_cs60_control.App.{Modules}
use flexit_cs60_control.App.Delivery.{Passes, status_delivered, after}

-- What the registers from 0x00BE on look like to the client.
abbrev pub told : List ℕ → List Entry
told words =
    let word = λ (k : ℕ). get_or words k 0 in
    let temp = λ (k : ℕ) (present : Bool). format_temp_x10 (signed16 (get_or words k 0)) present in
    let connected = λ (k : ℕ). ltb_ℤ temp_sentinel_max_x10 (signed16 (get_or words k 0)) in
    (codes "MODE", dec (word 1))
    ∷ (codes "SET", temp 0 true)
    ∷ (codes "SET2", temp 4 true)
    ∷ (codes "T_SUP", temp 5 true)
    ∷ (codes "T_EXT", temp 6 (connected 6))
    ∷ (codes "T_OUT", temp 7 true)
    ∷ (codes "T_RET", temp 8 (connected 8))
    ∷ (codes "PCT_COOL", dec (word 9))
    ∷ (codes "PCT_HX", dec (word 10))
    ∷ (codes "PCT_HEAT", dec (word 11))
    ∷ (codes "PCT_FAN", dec (word 12))
    ∷ (codes "UNK1", codes "0x" ++ hex4 (word 2))
    ∷ (codes "UNK2", codes "0x" ++ hex4 (word 3))
    ∷ []

abbrev counts : Mirror.State → List Entry
counts st =
    (codes "FC10", dec st.fc10_frames)
    ∷ (codes "FC06", dec st.fc06_frames)
    ∷ (codes "CRCERR", dec st.crc_failures)
    ∷ (codes "LAST_MS", dec st.last_fc10_uptime_ms)
    ∷ []

told_lem :
    (words : List ℕ) (at_ms : ℕ) (st : Mirror.State)
    → Shows words at_ms st
    → status_entries st ≡ told words ++ counts st
told_lem words at_ms st h =
    rw
      (
        h.setpoint, h.fan_mode, h.second, h.third, h.setpoint_2, h.supply_air, h.extract_air,
        h.outdoor_air, h.return_water, h.cooling, h.heat_exchanger, h.heating, h.supply_fan,
        h.extract_sensor, h.water_sensor,
      )
      refl

entries_split :
    (s : Mirror.State) (sl : Snapshot) (now : ℕ)
    → (rest : List Entry) × (entries s sl now ≡ status_entries s ++ rest)
entries_split s sl now =
    let later =
      queued_entry sl
      ∷ acked_entry sl
      ∷ (slave_entries sl
          ++ (setpoint_entries sl ++ slot_entries now s.counters counter_slots 0)) in
    (later, simp append_assoc)

module _ (h : Host) (p : Platform) (wire : List ℕ → ℕ) (R : RingBuffer) (fifo : IsFifo R)
    (acts : List Activity) (u : Uart.State R.Ring) (m : Modules) where
  -- A status block that the driver brings, in whatever pieces and read in whatever rounds, to a
  -- mirror between frames is what a Bluetooth client then reads from the reply to "state": if the
  -- line fits its 512 bytes, it goes out as one notification, and the client's keys and values
  -- begin with those of the block's registers.
  pub status_told :
      (words : List ℕ) (libc : Libc) (scheduled : Bool) (d : Device)
      → Below 65536 words
      → Passes h p wire R fifo acts u m (status_frame p words)
      → Buffer.IsValid Mirror.Decode.accum_size m.mirror.0
      → contents m.mirror.0 ≡ []
      → d.mirror ≡ (after h p wire R fifo acts u m).1.mirror.1.state
      → length (whole_line d.mirror (Slave.snapshot d.slave) (p.uptime d.calls)) + 1 < 512
      → (line : List ℕ) × (rest : List Entry) × ((nus_received h p libc scheduled
            (codes "state")
            d).air
          ≡ notify h line d.air)
        × ((parse_line line).kv ≡ told words ++ rest)
  unfolding nus_received run_command command
  status_told words libc scheduled d b w v e same fits =
      let sl = Slave.snapshot d.slave in
      let now = p.uptime d.calls in
      let (empty, shows, counted) = status_delivered h p wire R fifo acts u m words b w v e in
      let (rest, split) = entries_split d.mirror sl now in
      let shown : Shows words (p.uptime m.mirror.1.calls) d.mirror =
        subst (Shows words (p.uptime m.mirror.1.calls)) (sym same) shows in
      (
        format_state_line 512 d.mirror sl now,
        counts d.mirror ++ rest,
        refl,
        ap (λ (t : Parsed). t.kv) (parse_line-format_state_line d.mirror sl now fits)
            ∙ split
            ∙ ap (λ t. t ++ rest) (told_lem words (p.uptime m.mirror.1.calls) d.mirror shown)
            ∙ append_assoc (told words) (counts d.mirror) rest,
      )
