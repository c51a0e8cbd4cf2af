-- ===== src/Ble/Tests.antt =====
-- Concrete runs of the model of src/ble_transport.c.
use flexit_cs60_control.Shared.{
  ℕ, ◌+◌, ◌^◌, ◌≤◌, ◌<◌, ◌≡◌, refl, ◌⊎◌, true, false, none, some, List, [], ◌∷◌, ◌++◌, arith,
  length, drop, has_bit, coil, replicate,
}
use flexit_cs60_control.Shared.Int.{pos}
use flexit_cs60_control.Shared.Text.{codes, dec, digits, hex4, scan}
use flexit_cs60_control.Platform.Modbus.{platform}
use flexit_cs60_control.Mirror
use flexit_cs60_control.Mirror.{Slot}
use flexit_cs60_control.Slave.{Snapshot, queue_mode, queue_setpoint, init, snapshot}
use flexit_cs60_control.Zigbee.Network.{net_boot}
use flexit_cs60_control.Ble.{State, ble_boot, connected, disconnected}
use flexit_cs60_control.Ble.Stream.{
  Host, Air, notify, Forwarded, forward_rs485, send_chunks, forward_rs485-Forwarded,
}
use flexit_cs60_control.Ble.Line.{
  tenths, format_state_line, status_text, format_temp_x10, temp_x10, counts_text, queued_text,
  acked_text, slave_text, setpoint_text, append_part, append_slots, slot_text, finish,
}
use flexit_cs60_control.Ble.Fields.{
  whole_line, format_state_line-bounded, format_state_line-whole_line,
}
use flexit_cs60_control.Ble.Parse.{Libc, command, argument, parse_tenths}
use flexit_cs60_control.Ble.Command.{Device, mode_queued, setpoint_queued, nus_received}
use flexit_cs60_control.Ble.Replies.{mode_command_lem, setpoint_command_lem}
use flexit_cs60_control.Ble.Bounds.{setpoint_command-bounded}
use flexit_cs60_control.Ble.Reach.{
  Reachable, boots, then_event, link_up, received, link_down, IsLinked, Reachable-IsLinked,
}

-- A host that takes every notification, before an MTU is agreed.
abbrev host : Host
host = record { nus_send = λ n payload. 0; gatt_mtu = 23 }

abbrev libc : Libc
libc = record { atoi = λ s. pos (scan s 0).0; atoi_lem = λ s h l. refl }

abbrev streaming : State
streaming = record ble_boot { current_conn = some 7; references = 1; stream_active = true }

abbrev no_air : Air
no_air = record { notes = []; calls = 0 }

abbrev device : Device
device = record {
  ble = streaming;
  air = no_air;
  slave = init;
  mirror = Mirror.boot;
  net = net_boot;
  calls = 0;
}

-- 25 bytes in notifications of 20.
forwards_in_order :
    (forward_rs485 host (replicate 25 9) streaming no_air).notes
    ≡ replicate 20 9 ∷ replicate 5 9 ∷ []
unfolding forward_rs485 send_chunks
forwards_in_order = refl

forward_rs485-Forwarded_example :
    Forwarded host (replicate 25 9) no_air (forward_rs485 host (replicate 25 9) streaming no_air)
forward_rs485-Forwarded_example =
    forward_rs485-Forwarded host (replicate 25 9) streaming no_air refl

format_state_line-bounded_example :
    length (format_state_line 512 Mirror.boot (snapshot init) 1000) < 512
format_state_line-bounded_example =
    format_state_line-bounded 512 Mirror.boot (snapshot init) 1000 (omega arith)

boot_fits : length (whole_line Mirror.boot (snapshot init) 1000) + 1 < 512
unfolding status_text format_temp_x10 temp_x10 tenths counts_text dec digits hex4 queued_text
    acked_text slave_text setpoint_text snapshot has_bit coil
boot_fits = omega arith

abbrev busy_slot : ℕ → Slot
busy_slot addr = record { addr = addr; value = 1000; at_ms = 0; used = true }

-- A month of traffic: the whole line is longer than its buffer, and what is sent has no line end.
abbrev busy_mirror : Mirror.State
busy_mirror = record Mirror.boot {
  counters =
      busy_slot 0xF0
      ∷ busy_slot 0xF1
      ∷ busy_slot 0xF2
      ∷ busy_slot 0xF3
      ∷ busy_slot 0xF4
      ∷ busy_slot 0xF5
      ∷ busy_slot 0xF6
      ∷ busy_slot 0xF7
      ∷ [];
  fc10_frames = 2592000;
  fc06_frames = 20736000;
  crc_failures = 120;
  last_fc10_uptime_ms = 2592000000;
}

abbrev busy_slave : Snapshot
busy_slave = record (snapshot init) {
  pending_mode = 2;
  last_acked_mode = 2;
  last_ack_uptime_ms = 2592000000;
  fc01_serviced = 5184000;
  fc03_serviced = 5184000;
  fc04_serviced = 120;
  setpoint_reads = 12;
  pending_setpoint = 205;
}

abbrev busy_line : List ℕ
busy_line = format_state_line 512 busy_mirror busy_slave 2592000000

busy_cut : drop 501 busy_line ≡ codes "[0x00F6]=1"
unfolding format_state_line append_part append_slots slot_text finish status_text format_temp_x10
    temp_x10 tenths counts_text dec digits hex4 queued_text acked_text slave_text setpoint_text
    snapshot has_bit coil
busy_cut = refl

format_state_line-whole_line_example :
    format_state_line 512 Mirror.boot (snapshot init) 1000
    ≡ whole_line Mirror.boot (snapshot init) 1000 ++ 10 ∷ []
format_state_line-whole_line_example =
    format_state_line-whole_line 512 Mirror.boot (snapshot init) 1000 boot_fits

-- The number 65536 is taken as mode 0, and the reply names 65536.
mode_command_lem_example :
    let t = nus_received host platform libc true (codes "mode " ++ dec 65536) device in
    (t.slave ≡ (queue_mode 0 init).1) × (t.air ≡ notify host (mode_queued (pos 65536)) no_air)
mode_command_lem_example = mode_command_lem host platform libc true device 65536 (omega arith)

setpoint_command_lem_example :
    let t = nus_received host platform libc true (codes "setpoint " ++ tenths 215) device in
    (t.slave ≡ (queue_setpoint 215 init).1) × (t.air ≡ notify host (setpoint_queued 215) no_air)
setpoint_command_lem_example = setpoint_command_lem host platform libc true device 215 (omega arith)

setpoint_command-bounded_example :
    let payload = codes "setpoint 9999999" in
    let t = nus_received host platform libc true payload device in
    (parse_tenths (argument 8 payload) < 2 ^ 31)
    × ((t.slave ≡ init)
        ⊎ ((dc : ℕ) × (100 ≤ dc) × (dc ≤ 300) × (t.slave ≡ (queue_setpoint dc init).1)))
setpoint_command-bounded_example =
    setpoint_command-bounded host platform libc true (codes "setpoint 9999999") device
      (unfold command in refl)

-- A client connects, asks for the stream and goes.
abbrev visit : Reachable none (
    disconnected 7
      (nus_received host platform libc true
        (codes "stream")
        (record device { ble = (connected 7 0 0 ble_boot).0 })).ble)
visit =
    then_event
      (then_event (then_event boots (link_up 7 0 ble_boot)) (
        received host platform libc true (codes "stream") 7 false
          (record device { ble = (connected 7 0 0 ble_boot).0 })))
      (link_down 7 _ _)

Reachable-IsLinked_example : IsLinked none (
    disconnected 7
      (nus_received host platform libc true
        (codes "stream")
        (record device { ble = (connected 7 0 0 ble_boot).0 })).ble)
Reachable-IsLinked_example = Reachable-IsLinked none _ visit
