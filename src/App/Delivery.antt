-- ===== src/App/Delivery.antt =====
-- What the bus brings reaches the slave and the mirror whole, however the DMA, the ring buffer and
-- the drain worker cut it up.
use flexit_cs60_control.Shared.{
  ℕ, ◌≤◌, ◌≡◌, refl, ap, ap₂, sym, subst, ◌∙◌, List, [], ◌∷◌, ◌++◌, arith, length, joined,
  append-nil, Below,
}
use flexit_cs60_control.Platform.{Platform}
use flexit_cs60_control.Mirror
use flexit_cs60_control.Slave
use flexit_cs60_control.Accum.{Accum, contents, feed}
use flexit_cs60_control.Accum.Buffer
use flexit_cs60_control.Accum.Feeds.{feed_all, feed_all-joined, feed_all-IsValid}
use flexit_cs60_control.Accum.Loop.{view}
use flexit_cs60_control.Ble.Stream.{Host}
use flexit_cs60_control.Mirror.Decode.{mirror_feed}
use flexit_cs60_control.Mirror.Reception.{status_frame, Shows, status_received, length-status_frame}
use flexit_cs60_control.Slave.Decode.{slave_feed}
use flexit_cs60_control.Slave.Matcher.{Request, handler}
use flexit_cs60_control.Slave.Resync.{request, length-request}
use flexit_cs60_control.Slave.Exchange.{exchange_lem}
use flexit_cs60_control.Uart.{RingBuffer, IsFifo, State, ring_buf_capacity}
use flexit_cs60_control.Uart.Drain.{deliver, deliver_all}
use flexit_cs60_control.Uart.Traffic.{Activity, activities, activities-Carried, received}
use flexit_cs60_control.Uart.Room.{activities_lossless}
use flexit_cs60_control.App.{Modules, modules, slave_reads, wire_send}

module _ (h : Host) (p : Platform) (wire : List ℕ → ℕ) where
  deliver_all-slave :
      (m : Modules) (cs : List (List ℕ))
      → (deliver_all (modules h p wire) m cs).slave
        ≡ feed_all
            (Slave.Decode.try_decode_at_front p (wire_send h p wire))
            Slave.Decode.accum_size
            m.slave
            cs
  unfolding feed_all deliver slave_reads slave_feed
  deliver_all-slave m [] = refl
  deliver_all-slave m (c ∷ cs) = deliver_all-slave (deliver (modules h p wire) m c) cs

  deliver_all-mirror :
      (m : Modules) (cs : List (List ℕ))
      → (deliver_all (modules h p wire) m cs).mirror
        ≡ feed_all (Mirror.Decode.try_decode_at_front p) Mirror.Decode.accum_size m.mirror cs
  unfolding feed_all deliver slave_reads mirror_feed
  deliver_all-mirror m [] = refl
  deliver_all-mirror m (c ∷ cs) = deliver_all-mirror (deliver (modules h p wire) m c) cs

  module _ (R : RingBuffer) (fifo : IsFifo R) (acts : List Activity) (u : State R.Ring)
      (m : Modules) where
    abbrev pub after : State R.Ring × Modules
    after = activities (modules h p wire) R acts u m

    -- All that is received is one frame, and it has left the ring.
    pub record Passes (frame : List ℕ) : Type 0 where
      pub empty_before : R.held u.rs485_ring ≡ []
      pub frame_received : received acts ≡ frame
      pub empty_after : R.held after.0.rs485_ring ≡ []

    -- The chunks that carry it.
    carried :
        (frame : List ℕ)
        → Passes frame
        → length frame ≤ ring_buf_capacity
        → (chunks : List (List ℕ)) × (after.1 ≡ deliver_all (modules h p wire) m chunks)
          × (joined chunks ≡ frame)
    carried frame w fits =
        let (chunks, handed, order) =
          activities_lossless (modules h p wire) R fifo acts u m
            (omega (arith, ap length w.empty_before, ap length w.frame_received, fits)) in
        (
          chunks,
          handed,
          sym (append-nil (joined chunks))
              ∙ ap (λ t. joined chunks ++ t) (sym w.empty_after)
              ∙ order
              ∙ ap₂ (λ (xs ys : List ℕ). xs ++ ys) w.empty_before w.frame_received,
        )

    slave_view :
        (frame : List ℕ)
        → Passes frame
        → length frame ≤ Slave.Decode.accum_size
        → Buffer.IsValid Slave.Decode.accum_size m.slave.0
        → contents m.slave.0 ≡ []
        → let decode = Slave.Decode.try_decode_at_front p (wire_send h p wire) in
          view decode after.1.slave
          ≡ view decode (slave_feed p (wire_send h p wire) m.slave.0 m.slave.1 frame)
    unfolding slave_feed
    slave_view frame w fits v e =
        let decode = Slave.Decode.try_decode_at_front p (wire_send h p wire) in
        let (chunks, handed, whole) = carried frame w (omega (arith, fits)) in
        ap (λ (t : Modules). view decode t.slave) handed
        ∙ ap (view decode) (deliver_all-slave m chunks)
        ∙ feed_all-joined (Slave.Matcher.matcher-IsDecoder p (wire_send h p wire)) m.slave.0
            m.slave.1 chunks v (omega (arith, ap length e, ap length whole, fits))
        ∙ ap (λ t. view decode (feed decode Slave.Decode.accum_size m.slave.0 m.slave.1 t)) whole

    -- Whatever arrives, the slave's accumulator stays well-formed.
    pub slave-IsValid :
        Buffer.IsValid Slave.Decode.accum_size m.slave.0
        → Buffer.IsValid Slave.Decode.accum_size after.1.slave.0
    slave-IsValid v =
        let c = activities-Carried (modules h p wire) R fifo acts u m in
        subst (λ (t : Accum × Slave.Handle.World). Buffer.IsValid Slave.Decode.accum_size t.0)
          (sym (ap (λ (t : Modules). t.slave) c.handed ∙ deliver_all-slave m c.chunks))
          (feed_all-IsValid (Slave.Matcher.matcher-IsDecoder p (wire_send h p wire)) m.slave.0
            m.slave.1 c.chunks v)

    mirror_view :
        (frame : List ℕ)
        → Passes frame
        → length frame ≤ Mirror.Decode.accum_size
        → Buffer.IsValid Mirror.Decode.accum_size m.mirror.0
        → contents m.mirror.0 ≡ []
        → let decode = Mirror.Decode.try_decode_at_front p in
          view decode after.1.mirror ≡ view decode (mirror_feed p m.mirror.0 m.mirror.1 frame)
    unfolding mirror_feed
    mirror_view frame w fits v e =
        let decode = Mirror.Decode.try_decode_at_front p in
        let (chunks, handed, whole) = carried frame w (omega (arith, fits)) in
        ap (λ (t : Modules). view decode t.mirror) handed
        ∙ ap (view decode) (deliver_all-mirror m chunks)
        ∙ feed_all-joined (Mirror.Matcher.matcher-IsDecoder p) m.mirror.0 m.mirror.1 chunks v
            (omega (arith, ap length e, ap length whole, fits))
        ∙ ap (λ t. view decode (feed decode Mirror.Decode.accum_size m.mirror.0 m.mirror.1 t)) whole

    -- A request that arrives while the slave is between frames is handled once, as a whole, and the
    -- slave is between frames again: in whatever pieces the driver delivers it and in whatever
    -- rounds the worker reads it, once the ring is empty again.
    pub request_delivered :
        (k : Request) (x y : ℕ)
        → Passes (request p k x y)
        → Buffer.IsValid Slave.Decode.accum_size m.slave.0
        → contents m.slave.0 ≡ []
        → (contents after.1.slave.0 ≡ [])
          × (after.1.slave.1 ≡ handler p (wire_send h p wire) k (request p k x y) m.slave.1)
    request_delivered k x y w v e =
        let send = wire_send h p wire in
        let same = slave_view (request p k x y) w (omega (arith, length-request p k x y)) v e in
        let (valid, none_left, handled) = exchange_lem p send (m.slave.0, m.slave.1) k x y v e in
        (
          ap (λ (t : List ℕ × Slave.Handle.World). t.0) same ∙ none_left,
          ap (λ (t : List ℕ × Slave.Handle.World). t.1) same ∙ handled,
        )

    -- A status block that arrives while the mirror is between frames is shown as a whole, in
    -- whatever pieces the driver delivers it and in whatever rounds the worker reads it, once the
    -- ring is empty again; and it is counted.
    pub status_delivered :
        (words : List ℕ)
        → Below 65536 words
        → Passes (status_frame p words)
        → Buffer.IsValid Mirror.Decode.accum_size m.mirror.0
        → contents m.mirror.0 ≡ []
        → (contents after.1.mirror.0 ≡ [])
          × Shows words (p.uptime m.mirror.1.calls) after.1.mirror.1.state
          × (after.1.mirror.1.state.fc10_frames ≡ Mirror.bump m.mirror.1.state.fc10_frames)
    status_delivered words b w v e =
        let same =
          mirror_view (status_frame p words) w (omega (arith, length-status_frame p words)) v e in
        let shown = status_received p words b m.mirror.0 m.mirror.1 v e in
        (
          ap (λ (t : List ℕ × Mirror.Decode.World). t.0) same ∙ shown.0,
          subst (λ (t : Mirror.Decode.World). Shows words (p.uptime m.mirror.1.calls) t.state)
              (sym (ap (λ (t : List ℕ × Mirror.Decode.World). t.1) same)) shown.1,
          ap (λ (t : List ℕ × Mirror.Decode.World). t.1.state.fc10_frames) same ∙ shown.2,
        )
