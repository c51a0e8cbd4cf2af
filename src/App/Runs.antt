-- ===== src/App/Runs.antt =====
-- Whole runs: a client's command until the CS60 has fetched it, and a status block until it is
-- seen. A float is a whole number here, in tenths.
use flexit_cs60_control.Shared.{ℕ, ◌+◌, ◌*◌, ◌/◌, ◌≤◌, ◌≡◌, refl, true, List, arith, subst, sym}
use flexit_cs60_control.Shared.Int.{pos, negsuc}
use flexit_cs60_control.Shared.Text.{scan}
use flexit_cs60_control.Platform.Modbus.{platform}
use flexit_cs60_control.Slave.Matcher.{Request, read_coils, read_holding, ack, read_input}
use flexit_cs60_control.Slave.Resync.{request}
use flexit_cs60_control.Slave.Respond.{stamp}
use flexit_cs60_control.Slave.Exchange.{IsIdle}
use flexit_cs60_control.Slave.Invariant.{init-IsValid}
use flexit_cs60_control.Slave.Cycle.{ModeAnswers, SetpointAnswers}
use flexit_cs60_control.Zigbee.{Floats, boot}
use flexit_cs60_control.Zigbee.Network.{net_boot}
use flexit_cs60_control.Ble.Parse.{Libc}
use flexit_cs60_control.Uart.{State, uart_async_cb}
use flexit_cs60_control.Uart.ListRing.{list_ring, list_ring-IsFifo}
use flexit_cs60_control.Uart.Drain.{drain_round}
use flexit_cs60_control.Uart.Traffic.{Activity, activities, activity}
use flexit_cs60_control.App.{Modules, wire_send}
use flexit_cs60_control.App.Clients.{
  Surroundings, Client, bluetooth, zigbee, ask_mode, ask_setpoint, Clamped, went_on, Bringing,
  mode_fetched, setpoint_fetched,
}
use flexit_cs60_control.App.Tests.{host, wire, quiet_uart, at_boot, in_pieces}

abbrev libc : Libc
libc = record { atoi = λ s. pos (scan s 0).0; atoi_lem = λ s h l. refl }

abbrev tenths : Floats ℕ
tenths = record {
  of_int = λ z. elim z [ pos n ↦ n * 10 | negsuc n ↦ 0 ];
  tenth = λ x. x / 10;
  add = λ x y. x + y;
  half = 5;
  minus_half = 5;
  is_nonneg = λ x. true;
  trunc = λ x. pos (x / 10);
  from_word = λ n. n * 10;
}

abbrev home : Surroundings ℕ
home = record {
  libc = libc;
  scheduled = true;
  net = net_boot;
  floats = tenths;
  endpoint = boot tenths;
  calls = 0;
  now = 900;
}

boot-IsIdle : IsIdle platform (wire_send host platform wire) at_boot.slave
boot-IsIdle = record { buffer = omega arith; empty = refl; tables = init-IsValid }

-- The worker's event has been posted before.
abbrev woken_uart : State (List ℕ)
woken_uart = record quiet_uart { drain_work = true }

-- The request, in two pieces.
abbrev brought : Request → ℕ → ℕ → List Activity
brought k x y = in_pieces 3 (request platform k x y)

abbrev started : Client → State (List ℕ) × Modules
started c = (woken_uart, ask_mode host platform home c 2 at_boot)

abbrev wanted : Client → State (List ℕ) × Modules
wanted c = (woken_uart, ask_setpoint host platform home c 215 at_boot)

abbrev next : State (List ℕ) × Modules → List Activity → State (List ℕ) × Modules
next d acts = went_on host platform home wire list_ring list_ring-IsFifo d acts

module _ (m : Modules) where
  first-Bringing :
      (k : Request) (x y : ℕ)
      → Bringing host platform home wire list_ring list_ring-IsFifo
          (woken_uart, m)
          (brought k x y)
          k
          x
          y
  unfolding request stamp activities activity uart_async_cb drain_round
  first-Bringing read_coils x y = record {
    empty_before = refl;
    frame_received = refl;
    empty_after = refl;
  }
  first-Bringing read_holding x y = record {
    empty_before = refl;
    frame_received = refl;
    empty_after = refl;
  }
  first-Bringing read_input x y = record {
    empty_before = refl;
    frame_received = refl;
    empty_after = refl;
  }
  first-Bringing ack x y = record { empty_before = refl; frame_received = refl; empty_after = refl }

  quiet_again : (k : Request) (x y : ℕ) → (next (woken_uart, m) (brought k x y)).0 ≡ woken_uart
  unfolding request stamp activities activity uart_async_cb drain_round
  quiet_again read_coils x y = refl
  quiet_again read_holding x y = refl
  quiet_again read_input x y = refl
  quiet_again ack x y = refl

-- The driver is quiet, and it is again when a request has been read.
brings :
    (d : State (List ℕ) × Modules) (k : Request) (x y : ℕ)
    → d.0 ≡ woken_uart
    → Bringing host platform home wire list_ring list_ring-IsFifo d (brought k x y) k x y
brings d k x y e =
    subst
      (λ (u : State (List ℕ)).
        Bringing host platform home wire list_ring list_ring-IsFifo (u, d.1) (brought k x y) k x y)
      (sym e) (first-Bringing d.1 k x y)

stays_quiet :
    (d : State (List ℕ) × Modules) (k : Request) (x y : ℕ)
    → d.0 ≡ woken_uart
    → (next d (brought k x y)).0 ≡ woken_uart
stays_quiet d k x y e =
    subst (λ (u : State (List ℕ)). (next (u, d.1) (brought k x y)).0 ≡ woken_uart) (sym e)
      (quiet_again d.1 k x y)

-- A Bluetooth client asks for mode 2, and the CS60 polls 332 coils.
mode_fetched_example :
    let polled = next (started bluetooth) (brought read_coils 0 332) in
    let read = next polled (brought read_holding 0 1) in
    let acked = next read (brought ack 0 2) in
    ModeAnswers platform 2 332 at_boot.slave.1 polled.1.slave.1 read.1.slave.1 acked.1.slave.1
mode_fetched_example =
    let d = started bluetooth in
    let polled = next d (brought read_coils 0 332) in
    let quiet1 : polled.0 ≡ woken_uart = stays_quiet d read_coils 0 332 refl in
    let read = next polled (brought read_holding 0 1) in
    let quiet2 : read.0 ≡ woken_uart = stays_quiet polled read_holding 0 1 quiet1 in
    mode_fetched host platform home wire list_ring list_ring-IsFifo woken_uart at_boot boot-IsIdle
      (brought read_coils 0 332) (brought read_holding 0 1) bluetooth 2 332 (brought ack 0 2)
      (omega arith) (omega arith) (omega arith) (brings d read_coils 0 332 refl)
      (brings polled read_holding 0 1 quiet1) (brings read ack 0 2 quiet2)

-- A Zigbee client asks for 21.5 degrees.
setpoint_fetched_example :
    let polled = next (wanted zigbee) (brought read_coils 0 332) in
    let read = next polled (brought read_holding 12 1) in
    (value : ℕ) × Clamped host platform home zigbee 215 value
    × (100 ≤ value)
    × (value ≤ 300)
    × SetpointAnswers platform value 332 at_boot.slave.1 polled.1.slave.1 read.1.slave.1
setpoint_fetched_example =
    let d = wanted zigbee in
    let polled = next d (brought read_coils 0 332) in
    let quiet1 : polled.0 ≡ woken_uart = stays_quiet d read_coils 0 332 refl in
    setpoint_fetched host platform home wire list_ring list_ring-IsFifo woken_uart at_boot
      boot-IsIdle (brought read_coils 0 332) (brought read_holding 12 1) zigbee 215 332 tt
      (omega arith) (omega arith) (brings d read_coils 0 332 refl)
      (brings polled read_holding 12 1 quiet1)
