-- ===== src/Slave/Tests.antt =====
-- src/flexit_slave.c on concrete frames, with the real checksum in the place of the platform's.
use flexit_cs60_control.Shared.{
  ℕ, ◌≡◌, ◌≢◌, refl, false, some, List, [], ◌∷◌, ◌++◌, arith, replicate, set, coil, set_coil,
  put_be16,
}
use flexit_cs60_control.Platform.Modbus.{crc16_modbus, platform}
use flexit_cs60_control.Accum.{Accum, feed}
use flexit_cs60_control.Accum.Loop.{view, settle}
use flexit_cs60_control.Slave.{State, IsValid, init, snapshot, cmd_mode}
use flexit_cs60_control.Slave.Respond.{pack_coils, stamp, build_fc01_response}
use flexit_cs60_control.Slave.Handle.{World, Send}
use flexit_cs60_control.Slave.Decode.{try_decode_at_front, slave_feed, accum_size}
use flexit_cs60_control.Slave.Matcher.{read_coils, read_holding, ack}
use flexit_cs60_control.Slave.Exchange.{IsIdle, exchange}
use flexit_cs60_control.Slave.Cycle.{late_ack_drops_mode, with_mode}
use flexit_cs60_control.Accum.Chunks.{feed_refines}
use flexit_cs60_control.Slave.Matcher.{matcher-IsDecoder}
use flexit_cs60_control.Slave.Resync.{request}
use flexit_cs60_control.Slave.Traffic.{Accounted, slave_feed-Accounted}

-- Every transmission succeeds.
abbrev wire : Send
wire n frame = 0

abbrev start : Accum × World
start = (record { buf = replicate 64 0; len = 0 }, record { state = init; sent = []; calls = 0 })

start-IsIdle : IsIdle platform wire start
start-IsIdle = record { buffer = omega arith; empty = refl; tables = omega arith }

late_ack_drops_mode_example :
    let acked = exchange platform wire (with_mode 3 start) ack cmd_mode 2 in
    let polled = exchange platform wire acked read_coils cmd_mode 20 in
    let read = exchange platform wire polled read_holding cmd_mode 1 in
    ((snapshot acked.1.state).coil0_pending ≡ false)
    × ((snapshot acked.1.state).reg0_value ≡ 2)
    × ((snapshot acked.1.state).reg0_value ≢ 3)
    × (acked.1.sent ≡ [])
    × ((bits : List ℕ) × (coil bits 0 ≡ false)
        × (polled.1.sent ≡ stamp platform (1 ∷ 0x01 ∷ 3 ∷ bits) ∷ []))
    × (read.1.sent ≡ polled.1.sent ++ stamp platform (1 ∷ 0x03 ∷ 2 ∷ put_be16 2) ∷ [])
    × ((snapshot read.1.state).pending_mode ≡ 3)
late_ack_drops_mode_example =
    late_ack_drops_mode platform wire start start-IsIdle 3 2 20 (omega arith) (omega arith)
      (omega arith) (omega arith) (omega arith)

-- Noise that opens a frame in vain, and then a read of register 0.
abbrev noise : List ℕ
noise = 0x17 ∷ 0x01 ∷ 0x03 ∷ []

-- Coils 0 and 12 are up.
abbrev busy : State
busy = record init { coils = 0x01 ∷ 0x10 ∷ []; regs = set (set (replicate 16 0) 0 2) 12 205 }

busy-IsValid : IsValid busy
busy-IsValid = omega arith

fc01_bytes :
    build_fc01_response platform busy 64 4 20
    ≡ some (stamp platform (1 ∷ 0x01 ∷ 3 ∷ 0x00 ∷ 0x01 ∷ 0x00 ∷ []))
unfolding build_fc01_response pack_coils coil set_coil
fc01_bytes = refl

-- A read of register 0, on the wire.
abbrev read_request : List ℕ
read_request = 0x01 ∷ 0x03 ∷ 0x00 ∷ 0x00 ∷ 0x00 ∷ 0x01 ∷ 0x84 ∷ 0x0A ∷ []

read_request_bytes : request platform read_holding 0 1 ≡ read_request
unfolding request stamp crc16_modbus
read_request_bytes = refl

slave_feed-Accounted_example :
    Accounted platform (slave_feed platform wire start.0 start.1 read_request).1
slave_feed-Accounted_example =
    slave_feed-Accounted platform wire start.0 start.1 read_request (omega arith) tt (omega arith)
      (record { responses = tt; counted = refl })

feed_refines_example :
    view
      (try_decode_at_front platform wire)
      (feed (try_decode_at_front platform wire) accum_size start.0 start.1 (0x01 ∷ 0x03 ∷ []))
    ≡ settle (try_decode_at_front platform wire) (0x01 ∷ 0x03 ∷ []) start.1
feed_refines_example =
    feed_refines (matcher-IsDecoder platform wire) {size = accum_size} {a = start.0} (omega arith)
      start.1 0x01 (0x03 ∷ [])
