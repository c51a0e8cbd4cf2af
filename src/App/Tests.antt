-- ===== src/App/Tests.antt =====
-- A request and a status block on their way from the bus, in pieces.
use flexit_cs60_control.Ble.Line.{
  status_text, counts_text, format_temp_x10, temp_x10, queued_text, acked_text, slave_text,
  setpoint_text, tenths, slot_text,
}
use flexit_cs60_control.Mirror.Status.{apply_status, alarm_bits, sensor_bits}
use flexit_cs60_control.Mirror.Decode.{mirror_feed, decode_fc10, fc10_header}
use flexit_cs60_control.Ble.Fields.{whole_line}
use flexit_cs60_control.Client.Words.{Entry}
use flexit_cs60_control.Client.{parse_line}
use flexit_cs60_control.Ble.Command.{Device, nus_received}
use flexit_cs60_control.Ble.Parse.{Libc}
use flexit_cs60_control.App.Told.{told, status_told}
use flexit_cs60_control.App.Seen.{status_lights, status_published}
use flexit_cs60_control.Main.{Leds, main_round}
use flexit_cs60_control.Bridge.Wire.{seen}
use flexit_cs60_control.Bridge.{bridge_work}
use flexit_cs60_control.Zigbee.Network.{idle, net_boot}
use flexit_cs60_control.Zigbee.Publish.{publish_tick, publish_link}
use flexit_cs60_control.Zigbee.Shape.{IsShaped}
use flexit_cs60_control.Zigbee.{Floats, boot, no_pending}
use flexit_cs60_control.Shared.Text.{codes, scan, dec, digits, hex4}
use flexit_cs60_control.Shared.Int.{pos, negsuc}
use flexit_cs60_control.Shared.{
  ℕ, ◌≡◌, refl, false, List, [], ◌∷◌, arith, take, drop, replicate, ◌+◌, ◌*◌, ◌/◌, true, none, ◌<◌,
  length, ◌++◌, ltb→lt, has_bit, coil,
}
use flexit_cs60_control.Platform.Modbus.{platform, crc16_modbus}
use flexit_cs60_control.Mirror
use flexit_cs60_control.Mirror.Reception.{status_frame}
use flexit_cs60_control.Slave
use flexit_cs60_control.Slave.Matcher.{read_holding, handler}
use flexit_cs60_control.Slave.Resync.{request}
use flexit_cs60_control.Slave.Respond.{stamp, put_regs}
use flexit_cs60_control.Accum.{contents, feed, append, make_room, memcpy, memmove, drain, consume}
use flexit_cs60_control.Ble.{ble_boot}
use flexit_cs60_control.Ble.Stream.{Host, notify}
use flexit_cs60_control.Uart.{State, rx_rdy, sent, uart_async_cb}
use flexit_cs60_control.Uart.ListRing.{list_ring, list_ring-IsFifo}
use flexit_cs60_control.Uart.Drain.{drain_round, deliver}
use flexit_cs60_control.Uart.Traffic.{Activity, event, round, activities, activity}
use flexit_cs60_control.App.{Modules, modules, wire_send, slave_reads}
use flexit_cs60_control.App.Delivery.{Passes, request_delivered}

abbrev pub host : Host
host = record { nus_send = λ n payload. 0; gatt_mtu = 23 }

-- Every transmission succeeds.
abbrev pub wire : List ℕ → ℕ
wire frame = 0

abbrev pub quiet_uart : State (List ℕ)
quiet_uart = record {
  rs485_ring = [];
  next_buf = 1;
  dropped_bytes = 0;
  stop_events = 0;
  tx_done_sem = false;
  tx_result = sent;
  drain_work = false;
}

abbrev pub at_boot : Modules
at_boot = record {
  ble = ble_boot;
  air = record { notes = []; calls = 0 };
  mirror = (record { buf = replicate 256 0; len = 0 }, record { state = Mirror.boot; calls = 0 });
  slave = (
    record { buf = replicate 64 0; len = 0 },
    record { state = Slave.init; sent = []; calls = 0 },
  );
}

-- A frame in two pieces, the first of which is read before the second comes.
abbrev pub in_pieces : ℕ → List ℕ → List Activity
in_pieces n frame =
    event (rx_rdy (take n frame)) ∷ round ∷ event (rx_rdy (drop n frame)) ∷ round ∷ []

abbrev poll : List ℕ
poll = request platform read_holding 0 1

poll-Passes :
    Passes host platform wire list_ring list_ring-IsFifo (in_pieces 3 poll) quiet_uart at_boot poll
unfolding request stamp activities activity uart_async_cb drain_round
poll-Passes = record { empty_before = refl; frame_received = refl; empty_after = refl }

request_delivered_example :
    let m' =
      (activities (modules host platform wire) list_ring (in_pieces 3 poll) quiet_uart at_boot).1 in
    (contents m'.slave.0 ≡ [])
    × (m'.slave.1
        ≡ handler platform (wire_send host platform wire) read_holding poll at_boot.slave.1)
request_delivered_example =
    request_delivered host platform wire list_ring list_ring-IsFifo (in_pieces 3 poll) quiet_uart
      at_boot read_holding 0 1 poll-Passes (omega arith) refl

abbrev pub block : List ℕ
block = 205 ∷ 2 ∷ replicate 83 0

abbrev pub status : List ℕ
status = status_frame platform block

pub status-Passes :
    Passes host platform wire list_ring list_ring-IsFifo
      (in_pieces 100 status)
      quiet_uart
      at_boot
      status
unfolding status_frame stamp put_regs activities activity uart_async_cb drain_round
status-Passes = record { empty_before = refl; frame_received = refl; empty_after = refl }

abbrev heard_at : List Activity → Modules
heard_at acts = (activities (modules host platform wire) list_ring acts quiet_uart at_boot).1

abbrev floats : Floats ℕ
floats = record {
  of_int = λ z. elim z [ pos n ↦ n * 10 | negsuc n ↦ 0 ];
  tenth = λ x. x / 10;
  add = λ x y. x + y;
  half = 5;
  minus_half = 5;
  is_nonneg = λ x. true;
  trunc = λ x. pos (x / 10);
  from_word = λ n. n * 10;
}

abbrev lit : Leds
lit = record { red = true; green = true; blue = true }

-- Three seconds after the block the LED is dark, and after seven it changes with this tick.
status_lights_example :
    let now_shown = (heard_at (in_pieces 100 status)).mirror.1.state in
    (main_round false 10
      (record { mirror = now_shown; net_state = idle; ble = ble_boot; now = 4000 })
      lit).0.red
    ≡ false
status_lights_example =
    status_lights host platform wire list_ring list_ring-IsFifo (in_pieces 100 status) quiet_uart
      at_boot block (omega arith) status-Passes (omega arith) refl false 10 4000 idle ble_boot lit
      (omega arith) (omega arith) (omega arith)

endpoint-IsShaped : IsShaped (no_pending floats)
endpoint-IsShaped = record {
  temp_cc = refl;
  temp_dirty = refl;
  temp_last_ms = refl;
  analog_val = refl;
  analog_dirty = refl;
  binary_val = refl;
  binary_dirty = refl;
}

status_published_example :
    let st = (heard_at (in_pieces 100 status)).mirror.1.state in
    let (pushed', q) = bridge_work floats st 2000 2000 (0, no_pending floats) in
    (pushed' ≡ 1)
    × ((publish_tick {T = Slave.State} 3000 true (record (boot floats) { pending = q })).1
        ≡ seen floats block (publish_link true none))
status_published_example =
    status_published host platform wire list_ring list_ring-IsFifo (in_pieces 100 status) quiet_uart
      at_boot block (omega arith) status-Passes (omega arith) refl floats 2000 2000 3000 0 true
      (boot floats) (omega arith) (omega arith) (omega arith) endpoint-IsShaped (omega arith)

abbrev libc : Libc
libc = record { atoi = λ s. pos (scan s 0).0; atoi_lem = λ s h l. refl }

abbrev device : Device
device = record {
  ble = ble_boot;
  air = record { notes = []; calls = 0 };
  slave = Slave.init;
  mirror = (heard_at (in_pieces 100 status)).mirror.1.state;
  net = net_boot;
  calls = 0;
}

line_fits :
    length (whole_line device.mirror (Slave.snapshot device.slave) (platform.uptime device.calls))
      + 1
    < 512
unfolding activities activity uart_async_cb drain_round deliver mirror_feed feed append make_room
    memcpy memmove drain consume Mirror.Decode.try_decode_at_front Mirror.Decode.match_frame
    Mirror.Decode.crc_ok decode_fc10 fc10_header apply_status alarm_bits sensor_bits status_frame
    stamp put_regs crc16_modbus slave_reads slot_text status_text counts_text format_temp_x10
    temp_x10 tenths has_bit coil queued_text acked_text slave_text setpoint_text dec digits hex4
    Slave.snapshot
line_fits = ltb→lt _ 512 refl

status_told_example :
    (line : List ℕ) × (rest : List Entry) × ((nus_received host platform libc true
        (codes "state")
        device).air
      ≡ notify host line device.air)
    × ((parse_line line).kv ≡ told block ++ rest)
status_told_example =
    status_told host platform wire list_ring list_ring-IsFifo (in_pieces 100 status) quiet_uart
      at_boot block libc true device (omega arith) status-Passes (omega arith) refl refl line_fits
