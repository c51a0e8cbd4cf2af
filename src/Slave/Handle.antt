-- ===== src/Slave/Handle.antt =====
-- src/flexit_slave.c: the request handlers, called on a frame whose checksum is right.
use flexit_cs60_control.Shared.{
  ℕ, ◌+◌, Option, none, some, List, [], ◌∷◌, ◌++◌, ◌&&◌, set, ltb, leb, ◌==◌, if◌then◌else◌, be16,
  coil, clear_coil,
}
use flexit_cs60_control.Platform.{Platform}
use flexit_cs60_control.Slave.{State, bump, coil_count, reg_count, cmd_mode, cmd_setpoint}
use flexit_cs60_control.Slave.Respond.{
  resp_buf_size, build_fc01_response, build_fc03_response, build_fc04_response,
}

-- The slave's state with what it has asked of its surroundings: the frames handed to
-- `rs485_uart_send`, newest last, and the number of calls made, which index the answers.
pub record World : Type 0 where
  pub state : State
  pub sent : List (List ℕ)
  pub calls : ℕ

-- What `rs485_uart_send` returns at the n-th call for a frame: 0, or an error code.
abbrev pub Send : Type 0
Send = ℕ → List ℕ → ℕ

-- Coil 12 goes down once the register that it announces has been read.
unfoldable pub setpoint_read : ℕ → ℕ → State → State
setpoint_read addr qty s =
    if leb addr cmd_setpoint && ltb cmd_setpoint (addr + qty) && coil s.coils cmd_setpoint
    then record s {
      coils = clear_coil s.coils cmd_setpoint;
      setpoint_reads = bump s.setpoint_reads;
    }
    else s

-- The register is stamped and its coil cleared; an ack of the mode is remembered with its time.
unfoldable pub acknowledge : ℕ → ℕ → ℕ → State → State
acknowledge addr value now s =
    let stamped = record s {
      regs = set s.regs addr value;
      coils = if ltb addr coil_count then clear_coil s.coils addr else s.coils;
    } in
    if ltb addr reg_count
    then if addr == cmd_mode
      then record stamped { last_acked_mode = value; last_ack_uptime_ms = now }
      else stamped
    else s

module _ (p : Platform) (send : Send) where
  -- The end of the three read handlers: a response goes out, and a failure is counted.
  unfoldable pub transmit : List ℕ → World → World
  transmit resp w = record {
    state =
        if send w.calls resp == 0
        then w.state
        else record w.state { tx_errors = bump w.state.tx_errors };
    sent = w.sent ++ resp ∷ [];
    calls = w.calls + 1;
  }

  unfoldable pub reply : Option (List ℕ) → (State → State) → World → World
  reply none served w = w
  reply (some resp) served w = transmit resp (record w { state = served w.state })

  unfoldable pub handle_fc01_request : List ℕ → World → World
  handle_fc01_request frame w =
      reply (build_fc01_response p w.state resp_buf_size (be16 frame 2) (be16 frame 4))
        (λ s. record s { fc01_serviced = bump s.fc01_serviced }) w

  unfoldable pub handle_fc03_request : List ℕ → World → World
  handle_fc03_request frame w =
      reply (build_fc03_response p w.state resp_buf_size (be16 frame 2) (be16 frame 4))
        (λ s.
          setpoint_read (be16 frame 2) (be16 frame 4)
            (record s { fc03_serviced = bump s.fc03_serviced }))
        w

  unfoldable pub handle_fc04_request : List ℕ → World → World
  handle_fc04_request frame w =
      reply (build_fc04_response p resp_buf_size (be16 frame 2) (be16 frame 4))
        (λ s. record s { fc04_serviced = bump s.fc04_serviced }) w

  unfoldable pub handle_fc65_broadcast : List ℕ → World → World
  handle_fc65_broadcast frame w = record w {
    state =
        acknowledge (be16 frame 2) (be16 frame 4) (p.uptime w.calls)
          (record w.state { fc65_acks = bump w.state.fc65_acks });
    calls = if be16 frame 2 == cmd_mode then w.calls + 1 else w.calls;
  }
