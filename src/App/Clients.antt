-- ===== src/App/Clients.antt =====
-- A client's command, from Bluetooth (src/ble_transport.c) or Zigbee (src/zigbee_ep.c and
-- src/flexit_bridge.c), until the CS60 has fetched it over the bus (src/rs485_uart.c and
-- src/flexit_slave.c).
use flexit_cs60_control.Shared.{ℕ, ◌%◌, ◌≤◌, ◌<◌, ◌≡◌, refl, ap, ◌∙◌, Bool, List, [], ◌++◌, arith}
use flexit_cs60_control.Shared.Text.{codes, dec}
use flexit_cs60_control.Shared.Int.{pos}
use flexit_cs60_control.Platform.{Platform}
use flexit_cs60_control.Slave
use flexit_cs60_control.Slave.{queue_mode, queue_setpoint, cmd_mode, cmd_setpoint}
use flexit_cs60_control.Slave.Matcher.{Request, read_coils, read_holding, ack}
use flexit_cs60_control.Slave.Exchange.{IsIdle}
use flexit_cs60_control.Slave.Cycle.{with_mode, with_setpoint, ModeAnswers, SetpointAnswers}
use flexit_cs60_control.Zigbee.{Floats, State}
use flexit_cs60_control.Zigbee.Network.{Net}
use flexit_cs60_control.Zigbee.Write.{
  Written, zcl_device_cb, fan_mode_written, setpoint_written, clamp_setpoint,
}
use flexit_cs60_control.Bridge.{bridge_init}
use flexit_cs60_control.Bridge.Commands.{fan_mode_queued, setpoint_queued}
use flexit_cs60_control.Ble.Stream.{Host}
use flexit_cs60_control.Ble.Line.{tenths}
use flexit_cs60_control.Ble.Parse.{Libc, clamp_dc}
use flexit_cs60_control.Ble.Command.{Device, nus_received}
use flexit_cs60_control.Ble.Replies.{mode_command_lem, setpoint_command_lem}
use flexit_cs60_control.Uart
use flexit_cs60_control.Uart.{RingBuffer, IsFifo}
use flexit_cs60_control.Uart.Traffic.{Activity}
use flexit_cs60_control.App.{Modules, wire_send}
use flexit_cs60_control.App.Cycle.{Brings, then_at, mode_delivered, setpoint_delivered}

-- What a client's command meets besides the four modules: the endpoint and the clock of each.
pub record Surroundings (F : Type 0) : Type 1 where
  pub libc : Libc
  pub scheduled : Bool
  pub net : Net
  pub floats : Floats F
  pub endpoint : State F Slave.State
  pub calls : ℕ
  pub now : ℕ

pub data Client : Type 0 where
  bluetooth zigbee : Client

module _ (h : Host) (p : Platform) {F : Type 0} (sur : Surroundings F) where
  open sur use {libc, scheduled, net, floats, endpoint, calls, now}

  -- What `nus_received` meets.
  abbrev heard : Modules → Device
  heard m = record {
    ble = m.ble;
    air = m.air;
    slave = m.slave.1.state;
    mirror = m.mirror.1.state;
    net = net;
    calls = calls;
  }

  -- `nus_received`, on the modules' states.
  unfoldable pub nus_write : List ℕ → Modules → Modules
  nus_write payload m =
      let t = nus_received h p libc scheduled payload (heard m) in
      record m {
        ble = t.ble;
        air = t.air;
        slave = (m.slave.0, record m.slave.1 { state = t.slave });
      }

  -- `zcl_device_cb` after `flexit_bridge_init`, on the slave's state.
  unfoldable pub zigbee_write : Written → Modules → Modules
  zigbee_write attribute m =
      let t = zcl_device_cb floats attribute now (bridge_init endpoint, m.slave.1.state) in
      record m { slave = (m.slave.0, record m.slave.1 { state = t.1 }) }

  -- How a client asks for a mode.
  unfoldable pub ask_mode : Client → ℕ → Modules → Modules
  unfolding nus_write zigbee_write
  ask_mode bluetooth mode m = nus_write (codes "mode " ++ dec mode) m
  ask_mode zigbee mode m = zigbee_write (fan_mode_written mode) m

  -- How a client asks for a setpoint: `arg` is a number of tenths of a degree, or the word of a
  -- float.
  unfoldable pub ask_setpoint : Client → ℕ → Modules → Modules
  unfolding nus_write zigbee_write
  ask_setpoint bluetooth arg m = nus_write (codes "setpoint " ++ tenths arg) m
  ask_setpoint zigbee arg m = zigbee_write (setpoint_written arg) m

  -- The setpoints that the Bluetooth client may print.
  abbrev pub Printable : Client → ℕ → Type 0
  Printable bluetooth arg = arg < 10000
  Printable zigbee arg = Unit

  -- The clamped value of what a client asked for.
  abbrev pub Clamped : Client → ℕ → ℕ → Type 0
  Clamped bluetooth arg value = value ≡ clamp_dc arg
  Clamped zigbee arg value = pos value ≡ clamp_setpoint floats (floats.from_word arg)

  small_mode : (n : ℕ) → n ≤ 3 → n % 65536 ≡ n
  small_mode n h = omega (arith, h)

  asked_mode :
      (c : Client) (mode : ℕ) (m : Modules)
      → Slave.IsValid m.slave.1.state
      → mode ≤ 3
      → (ask_mode c mode m).slave ≡ with_mode mode m.slave
  unfolding ask_mode nus_write zigbee_write
  asked_mode bluetooth mode m v hm =
      ap (λ (s : Slave.State). (m.slave.0, record m.slave.1 { state = s }))
        ((mode_command_lem h p libc scheduled (heard m) mode (omega (arith, hm))).0
          ∙ ap (λ k. (queue_mode k m.slave.1.state).1) (small_mode mode hm))
  asked_mode zigbee mode m v hm =
      ap (λ (s : Slave.State). (m.slave.0, record m.slave.1 { state = s }))
        (fan_mode_queued floats endpoint m.slave.1.state v mode now hm)

  asked_setpoint :
      (c : Client) (arg : ℕ) (m : Modules)
      → Slave.IsValid m.slave.1.state
      → Printable c arg
      → (value : ℕ) × Clamped c arg value
        × (100 ≤ value)
        × (value ≤ 300)
        × ((ask_setpoint c arg m).slave ≡ with_setpoint value m.slave)
  unfolding ask_setpoint nus_write zigbee_write
  asked_setpoint bluetooth arg m v small = (
    clamp_dc arg,
    refl,
    ground arith,
    ground arith,
    ap (λ (s : Slave.State). (m.slave.0, record m.slave.1 { state = s }))
        (setpoint_command_lem h p libc scheduled (heard m) arg small).0,
  )
  asked_setpoint zigbee arg m v any =
      let (value, queued, clamped, low, high) =
        setpoint_queued floats endpoint m.slave.1.state v arg now in
      (
        value,
        clamped,
        low,
        high,
        ap (λ (s : Slave.State). (m.slave.0, record m.slave.1 { state = s })) queued,
      )

  module _ (wire : List ℕ → ℕ) (R : RingBuffer) (fifo : IsFifo R) where
    -- The driver and the modules, after what happens at the driver.
    abbrev pub went_on : Uart.State R.Ring × Modules → List Activity → Uart.State R.Ring × Modules
    went_on d acts = then_at h p wire R fifo d acts

    -- All that is received is this request, and all of it has been read.
    abbrev pub Bringing : Uart.State R.Ring × Modules → List Activity → Request → ℕ → ℕ → Type 0
    Bringing d acts k x y = Brings h p wire R fifo d acts k x y

    module _ (u : Uart.State R.Ring) (m : Modules) (idle : IsIdle p (wire_send h p wire) m.slave)
        (acts1 acts2 : List Activity) where
      -- A client of either kind asks for a mode from 0 to 3 while the slave is between frames. When
      -- the CS60 then polls 1 to 472 coils, reads register 0 and acks the mode, each request
      -- brought by the driver in whatever pieces and read in whatever rounds, the slave's two
      -- responses show coil 0 up and carry the mode, the coil stays up until the ack takes it down,
      -- and the mode is then recorded as acked.
      pub mode_fetched :
          (c : Client) (mode qty : ℕ) (acts3 : List Activity)
          → mode ≤ 3
          → 0 < qty
          → qty ≤ 472
          → Bringing (u, ask_mode c mode m) acts1 read_coils cmd_mode qty
          → Bringing (went_on (u, ask_mode c mode m) acts1) acts2 read_holding cmd_mode 1
          → Bringing (went_on (went_on (u, ask_mode c mode m) acts1) acts2) acts3 ack cmd_mode mode
          → let polled = went_on (u, ask_mode c mode m) acts1 in
            let read = went_on polled acts2 in
            let acked = went_on read acts3 in
            ModeAnswers p mode qty m.slave.1 polled.1.slave.1 read.1.slave.1 acked.1.slave.1
      mode_fetched c mode qty acts3 hm positive few b1 b2 b3 =
          mode_delivered h p wire R fifo (u, ask_mode c mode m) acts1 acts2 acts3 m.slave mode qty
            idle (asked_mode c mode m idle.tables hm) hm positive few b1 b2 b3

      -- A client of either kind asks for a setpoint, over Bluetooth one of up to 999.9 degrees,
      -- while the slave is between frames. When the CS60 then polls 13 to 472 coils and reads
      -- register 12, each request brought by the driver in whatever pieces and read in whatever
      -- rounds, the responses show coil 12 up and carry what was asked for, clamped to 10.0 .. 30.0
      -- degrees, and the read takes the coil down and is counted.
      pub setpoint_fetched :
          (c : Client) (arg qty : ℕ)
          → Printable c arg
          → cmd_setpoint < qty
          → qty ≤ 472
          → Bringing (u, ask_setpoint c arg m) acts1 read_coils cmd_mode qty
          → Bringing (went_on (u, ask_setpoint c arg m) acts1) acts2 read_holding cmd_setpoint 1
          → let polled = went_on (u, ask_setpoint c arg m) acts1 in
            let read = went_on polled acts2 in
            (value : ℕ) × Clamped c arg value
            × (100 ≤ value)
            × (value ≤ 300)
            × SetpointAnswers p value qty m.slave.1 polled.1.slave.1 read.1.slave.1
      setpoint_fetched c arg qty small reach few b1 b2 =
          let (value, clamped, low, high, queued) = asked_setpoint c arg m idle.tables small in
          (
            value,
            clamped,
            low,
            high,
            setpoint_delivered h p wire R fifo (u, ask_setpoint c arg m) acts1 acts2 [] m.slave
                value qty idle queued (omega arith) reach few b1 b2,
          )
