-- ===== src/App/Cycle.antt =====
-- The command cycles of src/flexit_slave.c over the driver: a command comes from a Bluetooth or a
-- Zigbee client, and the CS60's requests come through src/rs485_uart.c in pieces.
use flexit_cs60_control.Shared.{ℕ, ◌≤◌, ◌<◌, ◌≡◌, ap, sym, ◌∙◌, subst, List}
use flexit_cs60_control.Platform.{Platform}
use flexit_cs60_control.Slave
use flexit_cs60_control.Slave.{snapshot, queue_mode, cmd_mode, cmd_setpoint}
use flexit_cs60_control.Slave.Handle.{World}
use flexit_cs60_control.Slave.Matcher.{Request, read_coils, read_holding, ack, handler}
use flexit_cs60_control.Slave.Resync.{request}
use flexit_cs60_control.Slave.Exchange.{IsIdle, exchange, exchange_lem, exchange-IsIdle}
use flexit_cs60_control.Accum.{Accum}
use flexit_cs60_control.Slave.Cycle.{
  with_mode-IsIdle, with_setpoint-IsIdle, with_mode, with_setpoint, ModeAnswers, SetpointAnswers,
  mode_cycle, setpoint_cycle,
}
use flexit_cs60_control.Ble.Stream.{Host}
use flexit_cs60_control.Uart.{RingBuffer, IsFifo, State}
use flexit_cs60_control.Uart.Traffic.{Activity, activities}
use flexit_cs60_control.App.{Modules, modules, wire_send}
use flexit_cs60_control.App.Delivery.{Passes, request_delivered, slave-IsValid}

module _ (h : Host) (p : Platform) (wire : List ℕ → ℕ) (R : RingBuffer) (fifo : IsFifo R) where
  -- The driver's state and the modules', after what happens at the driver.
  abbrev pub Device : Type 0
  Device = State R.Ring × Modules

  abbrev pub then_at : Device → List Activity → Device
  then_at d acts = activities (modules h p wire) R acts d.0 d.1

  -- What happens at the driver brings one request, and all of it has been read.
  abbrev pub Brings : Device → List Activity → Request → ℕ → ℕ → Type 0
  Brings d acts k x y = Passes h p wire R fifo acts d.0 d.1 (request p k x y)

  -- The slave is between frames.
  abbrev pub Idle : Device → Type 0
  Idle d = IsIdle p (wire_send h p wire) d.1.slave

  -- One request, as the slave alone would handle it.
  served :
      (d : Device) (acts : List Activity) (k : Request) (x y : ℕ) (r : Accum × World)
      → Idle d
      → IsIdle p (wire_send h p wire) r
      → d.1.slave.1 ≡ r.1
      → Brings d acts k x y
      → ((then_at d acts).1.slave.1 ≡ (exchange p (wire_send h p wire) r k x y).1)
        × Idle (then_at d acts)
  served d acts k x y r idle ready e b =
      let send = wire_send h p wire in
      let (empty, handled) =
        request_delivered h p wire R fifo acts d.0 d.1 k x y b idle.buffer idle.empty in
      let (valid, none_left, alone) = exchange_lem p send r k x y ready.buffer ready.empty in
      let same : (then_at d acts).1.slave.1 ≡ (exchange p send r k x y).1 =
        handled ∙ ap (handler p send k (request p k x y)) e ∙ sym alone in
      (
        same,
        record {
          buffer = slave-IsValid h p wire R fifo acts d.0 d.1 idle.buffer;
          empty = empty;
          tables =
              subst (λ (w : World). Slave.IsValid w.state) (sym same)
                (exchange-IsIdle p send r k x y ready).tables;
        },
      )

  -- The CS60's three requests of a mode cycle, each brought by its own activities.
  module _ (d : Device) (acts1 acts2 acts3 : List Activity) where
    abbrev pub d1 : Device
    d1 = then_at d acts1

    abbrev pub d2 : Device
    d2 = then_at d1 acts2

    abbrev pub d3 : Device
    d3 = then_at d2 acts3

    pub mode_delivered :
        (r : Accum × World) (mode qty : ℕ)
        → IsIdle p (wire_send h p wire) r
        → d.1.slave ≡ with_mode mode r
        → mode ≤ 3
        → 0 < qty
        → qty ≤ 472
        → Brings d acts1 read_coils cmd_mode qty
        → Brings d1 acts2 read_holding cmd_mode 1
        → Brings d2 acts3 ack cmd_mode mode
        → ModeAnswers p mode qty r.1 d1.1.slave.1 d2.1.slave.1 d3.1.slave.1
    mode_delivered r mode qty idle q hm positive few b1 b2 b3 =
        let send = wire_send h p wire in
        let ready = with_mode-IsIdle p send r idle mode in
        let r1 = exchange p send (with_mode mode r) read_coils cmd_mode qty in
        let ready1 = exchange-IsIdle p send (with_mode mode r) read_coils cmd_mode qty ready in
        let r2 = exchange p send r1 read_holding cmd_mode 1 in
        let ready2 = exchange-IsIdle p send r1 read_holding cmd_mode 1 ready1 in
        let idle0 : Idle d = subst (IsIdle p send) (sym q) ready in
        let (e1, idle1) =
          served d acts1 read_coils cmd_mode qty (with_mode mode r) idle0 ready
            (ap (λ (t : Accum × World). t.1) q) b1 in
        let (e2, idle2) = served d1 acts2 read_holding cmd_mode 1 r1 idle1 ready1 e1 b2 in
        let (e3, idle3) = served d2 acts3 ack cmd_mode mode r2 idle2 ready2 e2 b3 in
        subst (λ w. ModeAnswers p mode qty r.1 w d2.1.slave.1 d3.1.slave.1) (sym e1)
          (subst (λ w. ModeAnswers p mode qty r.1 r1.1 w d3.1.slave.1) (sym e2)
            (subst (λ w. ModeAnswers p mode qty r.1 r1.1 r2.1 w) (sym e3)
              (mode_cycle p send r idle mode qty hm positive few)))

    pub setpoint_delivered :
        (r : Accum × World) (value qty : ℕ)
        → IsIdle p (wire_send h p wire) r
        → d.1.slave ≡ with_setpoint value r
        → value < 65536
        → cmd_setpoint < qty
        → qty ≤ 472
        → Brings d acts1 read_coils cmd_mode qty
        → Brings d1 acts2 read_holding cmd_setpoint 1
        → SetpointAnswers p value qty r.1 d1.1.slave.1 d2.1.slave.1
    setpoint_delivered r value qty idle q hv reach few b1 b2 =
        let send = wire_send h p wire in
        let ready = with_setpoint-IsIdle p send r idle value hv in
        let r1 = exchange p send (with_setpoint value r) read_coils cmd_mode qty in
        let ready1 = exchange-IsIdle p send (with_setpoint value r) read_coils cmd_mode qty ready in
        let (e1, idle1) =
          served d acts1 read_coils cmd_mode qty (with_setpoint value r)
            (subst (IsIdle p send) (sym q) ready) ready (ap (λ (t : Accum × World). t.1) q) b1 in
        let (e2, idle2) = served d1 acts2 read_holding cmd_setpoint 1 r1 idle1 ready1 e1 b2 in
        subst (λ w. SetpointAnswers p value qty r.1 w d2.1.slave.1) (sym e1)
          (subst (λ w. SetpointAnswers p value qty r.1 r1.1 w) (sym e2)
            (setpoint_cycle p send r idle value qty hv reach few))
