-- ===== src/Slave/Cycle.antt =====
-- The command cycles of src/flexit_slave.c, from a queued command through the master's frames.
use flexit_cs60_control.Shared.{
  ℕ, ◌+◌, ◌/◌, ◌≤◌, ◌<◌, ◌≡◌, ◌≢◌, ap, sym, ◌∙◌, true, false, List, [], ◌∷◌, ◌++◌, arith, get_or,
  put_be16, coil,
}
use flexit_cs60_control.Platform.{Platform}
use flexit_cs60_control.Accum.{Accum}
use flexit_cs60_control.Slave.{
  snapshot, queue_mode, queue_setpoint, slave_addr, cmd_mode, cmd_setpoint, bump,
}
use flexit_cs60_control.Slave.Respond.{stamp}
use flexit_cs60_control.Slave.Handle.{World, Send}
use flexit_cs60_control.Slave.Matcher.{read_coils, read_holding, ack}
use flexit_cs60_control.Slave.Commands.{reg, queue_mode_lem, queue_setpoint_lem}
use flexit_cs60_control.Slave.Invariant.{queue_mode-IsValid, queue_setpoint-IsValid}
use flexit_cs60_control.Slave.Exchange.{IsIdle, exchange, exchange-IsIdle}
use flexit_cs60_control.Slave.Answers.{poll_lem, read_lem, ack_lem}

-- A command is queued between two feeds.
abbrev pub with_mode : ℕ → Accum × World → Accum × World
with_mode mode r = (r.0, record r.1 { state = (queue_mode mode r.1.state).1 })

abbrev pub with_setpoint : ℕ → Accum × World → Accum × World
with_setpoint value r = (r.0, record r.1 { state = (queue_setpoint value r.1.state).1 })

module _ (p : Platform) where
  -- The responses and the snapshots of a mode cycle: `bits` are the coils that the poll shows.
  abbrev pub ModeAnswers : ℕ → ℕ → World → World → World → World → Type 0
  ModeAnswers mode qty w polled read acked =
      (bits : List ℕ) × (coil bits 0 ≡ true)
      × (polled.sent ≡ w.sent ++ stamp p (slave_addr ∷ 0x01 ∷ (qty + 7) / 8 ∷ bits) ∷ [])
      × (read.sent ≡ polled.sent ++ stamp p (slave_addr ∷ 0x03 ∷ 2 ∷ put_be16 mode) ∷ [])
      × ((snapshot read.state).coil0_pending ≡ true)
      × ((snapshot acked.state).coil0_pending ≡ false)
      × ((snapshot acked.state).reg0_value ≡ mode)
      × ((snapshot acked.state).last_acked_mode ≡ mode)
      × ((snapshot acked.state).pending_mode ≡ mode)

  -- The same of a setpoint cycle.
  abbrev pub SetpointAnswers : ℕ → ℕ → World → World → World → Type 0
  SetpointAnswers value qty w polled read =
      (bits : List ℕ) × (coil bits cmd_setpoint ≡ true)
      × (polled.sent ≡ w.sent ++ stamp p (slave_addr ∷ 0x01 ∷ (qty + 7) / 8 ∷ bits) ∷ [])
      × (read.sent ≡ polled.sent ++ stamp p (slave_addr ∷ 0x03 ∷ 2 ∷ put_be16 value) ∷ [])
      × ((snapshot polled.state).coil_setpoint_pending ≡ true)
      × ((snapshot read.state).coil_setpoint_pending ≡ false)
      × ((snapshot read.state).setpoint_reads ≡ bump (snapshot polled.state).setpoint_reads)
      × ((snapshot read.state).pending_setpoint ≡ value)
      × ((snapshot read.state).coil0_pending ≡ (snapshot w.state).coil0_pending)

module _ (p : Platform) (send : Send) (r : Accum × World) where
  -- The master polls `qty` coils, reads register 0, and acks the mode that it read.
  abbrev pub ModeCycle : ℕ → ℕ → Type 0
  ModeCycle mode qty =
      let polled = exchange p send (with_mode mode r) read_coils cmd_mode qty in
      let read = exchange p send polled read_holding cmd_mode 1 in
      let acked = exchange p send read ack cmd_mode mode in
      ModeAnswers p mode qty r.1 polled.1 read.1 acked.1

  -- The master polls `qty` coils and reads register 12.
  abbrev pub SetpointCycle : ℕ → ℕ → Type 0
  SetpointCycle value qty =
      let polled = exchange p send (with_setpoint value r) read_coils cmd_mode qty in
      let read = exchange p send polled read_holding cmd_setpoint 1 in
      SetpointAnswers p value qty r.1 polled.1 read.1

module _ (p : Platform) (send : Send) (r : Accum × World) (idle : IsIdle p send r) where
  pub with_mode-IsIdle : (mode : ℕ) → IsIdle p send (with_mode mode r)
  with_mode-IsIdle mode = record {
    buffer = idle.buffer;
    empty = idle.empty;
    tables = queue_mode-IsValid idle.tables mode;
  }

  pub with_setpoint-IsIdle : (value : ℕ) → value < 65536 → IsIdle p send (with_setpoint value r)
  with_setpoint-IsIdle value h = record {
    buffer = idle.buffer;
    empty = idle.empty;
    tables = queue_setpoint-IsValid idle.tables value h;
  }

  -- The mode cycle: after a mode is queued, a poll shows coil 0 up, a read of register 0 carries the
  -- mode and leaves the coil up, and the ack takes the coil down and is remembered.
  pub mode_cycle : (mode qty : ℕ) → mode ≤ 3 → 0 < qty → qty ≤ 472 → ModeCycle p send r mode qty
  unfolding snapshot
  mode_cycle mode qty hm h k =
      let queued = with_mode mode r in
      let ready = with_mode-IsIdle mode in
      let polled = exchange p send queued read_coils cmd_mode qty in
      let ready1 = exchange-IsIdle p send queued read_coils cmd_mode qty ready in
      let read = exchange p send polled read_holding cmd_mode 1 in
      let ready2 = exchange-IsIdle p send polled read_holding cmd_mode 1 ready1 in
      let was = queue_mode_lem idle.tables mode 0 in
      let (bits, shown, poll, same_coils) =
        poll_lem p send queued ready.buffer ready.empty qty h k in
      let (carried, coils, reads) =
        read_lem p send polled ready1.buffer ready1.empty cmd_mode (omega arith) ready1.tables in
      let (silent, down, stamped, acked, pending) =
        ack_lem p send read ready2.buffer ready2.empty mode (omega arith) ready2.tables in
      let up : coil queued.1.state.coils 0 ≡ true = was.1 ∙ ground arith in
      let held : reg queued.1.state 0 ≡ mode = was.2 ∙ ground arith in
      (
        bits,
        shown 0 h (omega arith) ∙ up,
        poll.sent,
        carried.sent
            ∙ ap (λ v. polled.1.sent ++ stamp p (slave_addr ∷ 0x03 ∷ 2 ∷ put_be16 v) ∷ [])
                (ap (λ t. get_or t 0 0) poll.regs ∙ held),
        coils 0 ∙ ap (λ c. coil c 0) same_coils ∙ up,
        down,
        stamped,
        acked,
        pending ∙ carried.pending_mode ∙ poll.pending_mode ∙ was.3 ∙ ground arith,
      )

  -- The setpoint cycle: after a setpoint is queued, a poll that reaches coil 12 shows it up, and a
  -- read of register 12 carries the setpoint, takes the coil down and is counted, with no ack.
  pub setpoint_cycle :
      (value qty : ℕ)
      → value < 65536
      → cmd_setpoint < qty
      → qty ≤ 472
      → SetpointCycle p send r value qty
  unfolding snapshot
  setpoint_cycle value qty hv h k =
      let queued = with_setpoint value r in
      let ready = with_setpoint-IsIdle value hv in
      let polled = exchange p send queued read_coils cmd_mode qty in
      let ready1 = exchange-IsIdle p send queued read_coils cmd_mode qty ready in
      let was = queue_setpoint_lem idle.tables value in
      let (bits, shown, poll, same_coils) =
        poll_lem p send queued ready.buffer ready.empty qty (omega arith) k in
      let (carried, coils, reads) =
        read_lem p send polled ready1.buffer ready1.empty cmd_setpoint (omega arith)
          ready1.tables in
      let up : coil polled.1.state.coils cmd_setpoint ≡ true =
        ap (λ c. coil c cmd_setpoint) same_coils ∙ (was cmd_setpoint).1 in
      (
        bits,
        shown cmd_setpoint h (omega arith) ∙ (was cmd_setpoint).1,
        poll.sent,
        carried.sent
            ∙ ap (λ v. polled.1.sent ++ stamp p (slave_addr ∷ 0x03 ∷ 2 ∷ put_be16 v) ∷ [])
                (ap (λ t. get_or t cmd_setpoint 0) poll.regs ∙ (was cmd_setpoint).2),
        up,
        coils cmd_setpoint,
        reads ∙ ground (arith, up),
        carried.pending_setpoint ∙ poll.pending_setpoint ∙ (was cmd_setpoint).3,
        coils cmd_mode ∙ ap (λ c. coil c cmd_mode) same_coils ∙ (was cmd_mode).1,
      )

  -- An ack that arrives late: if the master acks another value of register 0 after a mode was
  -- queued, the coil goes down and the register holds the master's value. The next poll, of 1 to 472
  -- coils, shows coil 0 down, and a read of register 0 behind it carries the master's value, while
  -- the snapshot still reports the queued mode as pending.
  pub late_ack_drops_mode :
      (mode value qty : ℕ)
      → mode ≤ 3
      → value < 65536
      → mode ≢ value
      → 0 < qty
      → qty ≤ 472
      → let acked = exchange p send (with_mode mode r) ack cmd_mode value in
        let polled = exchange p send acked read_coils cmd_mode qty in
        let read = exchange p send polled read_holding cmd_mode 1 in
        ((snapshot acked.1.state).coil0_pending ≡ false)
        × ((snapshot acked.1.state).reg0_value ≡ value)
        × ((snapshot acked.1.state).reg0_value ≢ mode)
        × (acked.1.sent ≡ r.1.sent)
        × ((bits : List ℕ) × (coil bits 0 ≡ false)
            × (polled.1.sent ≡ r.1.sent ++ stamp p (slave_addr ∷ 0x01 ∷ (qty + 7) / 8 ∷ bits) ∷ []))
        × (read.1.sent ≡ polled.1.sent ++ stamp p (slave_addr ∷ 0x03 ∷ 2 ∷ put_be16 value) ∷ [])
        × ((snapshot read.1.state).pending_mode ≡ mode)
  unfolding snapshot
  late_ack_drops_mode mode value qty hm hv ne h k =
      let ready = with_mode-IsIdle mode in
      let acked = exchange p send (with_mode mode r) ack cmd_mode value in
      let ready1 = exchange-IsIdle p send (with_mode mode r) ack cmd_mode value ready in
      let polled = exchange p send acked read_coils cmd_mode qty in
      let ready2 = exchange-IsIdle p send acked read_coils cmd_mode qty ready1 in
      let (silent, down, stamped, last_ack, pending) =
        ack_lem p send (with_mode mode r) ready.buffer ready.empty value hv ready.tables in
      let (bits, shown, poll, same_coils) =
        poll_lem p send acked ready1.buffer ready1.empty qty h k in
      let (carried, coils, reads) =
        read_lem p send polled ready2.buffer ready2.empty cmd_mode (omega arith) ready2.tables in
      (
        down,
        stamped,
        λ e. ne (sym e ∙ stamped),
        silent,
        (
          bits,
          shown 0 h (omega arith) ∙ down,
          poll.sent ∙ ap (λ t. t ++ stamp p (slave_addr ∷ 0x01 ∷ (qty + 7) / 8 ∷ bits) ∷ []) silent,
        ),
        carried.sent
            ∙ ap (λ v. polled.1.sent ++ stamp p (slave_addr ∷ 0x03 ∷ 2 ∷ put_be16 v) ∷ [])
                (ap (λ t. get_or t 0 0) poll.regs ∙ stamped),
        carried.pending_mode
            ∙ poll.pending_mode
            ∙ pending
            ∙ (queue_mode_lem idle.tables mode 0).3
            ∙ ground arith,
      )
