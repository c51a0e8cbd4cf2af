-- ===== src/App.antt =====
-- How src/rs485_uart.c, src/ble_transport.c, src/panel_mirror.c and src/flexit_slave.c are put
-- together: the readers of the drain worker are the three modules, and the slave's responses go
-- back to the bus and, where they were sent, into the stream.
pub mod Delivery
pub mod Cycle
pub mod Clients
pub mod Seen
pub mod Told
mod Tests
mod Runs
use flexit_cs60_control.Shared.{ℕ, ◌+◌, List, [], ◌∷◌, ◌++◌, length, drop, ◌==◌, if◌then◌else◌}
use flexit_cs60_control.Platform.{Platform}
use flexit_cs60_control.Mirror
use flexit_cs60_control.Slave
use flexit_cs60_control.Accum.{Accum}
use flexit_cs60_control.Ble
use flexit_cs60_control.Ble.Stream.{Host, Air, forward_rs485}
use flexit_cs60_control.Mirror.Decode.{mirror_feed}
use flexit_cs60_control.Slave.Decode.{slave_feed}
use flexit_cs60_control.Uart.Drain.{Readers}

-- The states of the three modules, with their accumulators and what they have sent.
pub record Modules : Type 0 where
  pub ble : Ble.State
  pub air : Air
  pub mirror : Accum × Mirror.Decode.World
  pub slave : Accum × Slave.Handle.World

-- `wire` says what `rs485_uart_send` returns for a frame.
module _ (h : Host) (p : Platform) (wire : List ℕ → ℕ) where
  abbrev pub wire_send : Slave.Handle.Send
  wire_send n frame = wire frame

  -- The echo of the frames that were sent, at the end of `rs485_uart_send`.
  abbrev pub echoed : Ble.State → List (List ℕ) → Air → Air
  echoed ble [] air = air
  echoed ble (frame ∷ frames) air =
      echoed ble frames (if wire frame == 0 then forward_rs485 h frame ble air else air)

  -- `flexit_slave_feed`, with the echo of what it sends.
  unfoldable pub slave_reads : Modules → List ℕ → Modules
  slave_reads m tmp =
      let after = slave_feed p wire_send m.slave.0 m.slave.1 tmp in
      record m {
        slave = after;
        air = echoed m.ble (drop (length m.slave.1.sent) after.1.sent) m.air;
      }

  abbrev pub modules : Readers Modules
  modules = record {
    forward_rs485 = λ m tmp. record m { air = forward_rs485 h tmp m.ble m.air };
    mirror_feed = λ m tmp. record m { mirror = mirror_feed p m.mirror.0 m.mirror.1 tmp };
    slave_feed = slave_reads;
  }
