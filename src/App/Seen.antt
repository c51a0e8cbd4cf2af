-- ===== src/App/Seen.antt =====
-- A status block on its way from the driver (src/rs485_uart.c) over the mirror
-- (src/panel_mirror.c) to the red LED (src/main.c) and the Zigbee attributes
-- (src/flexit_bridge.c and src/zigbee_ep.c).
use flexit_cs60_control.Shared.{
  ℕ, ◌+◌, ◌%◌, ◌^◌, ◌≤◌, ◌<◌, ◌≡◌, ◌≢◌, ◌∙◌, Bool, true, false, not, List, [], get_or, Below, arith,
  leb, ◌==◌, if◌then◌else◌,
}
use flexit_cs60_control.Shared.Int.{signed16, times_ten, IsInt16}
use flexit_cs60_control.Platform.{Platform}
use flexit_cs60_control.Accum.{contents}
use flexit_cs60_control.Accum.Buffer
use flexit_cs60_control.Mirror
use flexit_cs60_control.Mirror.{bump}
use flexit_cs60_control.Mirror.Link.{link_since}
use flexit_cs60_control.Mirror.Reception.{status_frame}
use flexit_cs60_control.Ble
use flexit_cs60_control.Ble.Stream.{Host}
use flexit_cs60_control.Zigbee.{Floats, State}
use flexit_cs60_control.Zigbee.Network.{NetState}
use flexit_cs60_control.Zigbee.Publish.{publish_link, publish_tick}
use flexit_cs60_control.Zigbee.Shape.{IsShaped}
use flexit_cs60_control.Bridge.{bridge_work}
use flexit_cs60_control.Bridge.Wire.{seen, shown_published}
use flexit_cs60_control.Main.{Leds, Moment, main_round, red_blink_ticks, rs485_cs60_stale_ms}
use flexit_cs60_control.Uart
use flexit_cs60_control.Uart.{RingBuffer, IsFifo}
use flexit_cs60_control.Uart.Traffic.{Activity}
use flexit_cs60_control.App.{Modules}
use flexit_cs60_control.App.Delivery.{Passes, after, status_delivered}

module _ (h : Host) (p : Platform) (wire : List ℕ → ℕ) (R : RingBuffer) (fifo : IsFifo R)
    (acts : List Activity) (u : Uart.State R.Ring) (m : Modules) (words : List ℕ)
    (b : Below 65536 words) (w : Passes h p wire R fifo acts u m (status_frame p words))
    (v : Buffer.IsValid Mirror.Decode.accum_size m.mirror.0) (e : contents m.mirror.0 ≡ []) where
  -- The mirror after what happened at the driver.
  abbrev pub mirrored : Mirror.State
  mirrored = (after h p wire R fifo acts u m).1.mirror.1.state

  -- A status block that the driver brings, in whatever pieces and read in whatever rounds, to a
  -- mirror between frames keeps the red LED dark in the main loop's rounds of the next five
  -- seconds; later rounds make it blink, unless an initialisation had failed, when it is lit. The
  -- clock is above 0 and does not run back.
  pub status_lights :
      (failed : Bool) (tick now : ℕ) (net_state : NetState) (ble : Ble.State) (leds : Leds)
      → p.uptime m.mirror.1.calls ≢ 0
      → p.uptime m.mirror.1.calls ≤ now
      → now < 2 ^ 64
      → let moment : Moment = record {
        mirror = mirrored;
        net_state = net_state;
        ble = ble;
        now = now;
      } in
        (main_round failed tick moment leds).0.red ≡ (
          if failed
          then true
          else if leb now (p.uptime m.mirror.1.calls + rs485_cs60_stale_ms)
          then false
          else if tick % red_blink_ticks == 0
          then not leds.red
          else leds.red)
  unfolding main_round
  status_lights failed tick now net_state ble leds some_time heard big =
      let (empty, shows, counted) = status_delivered h p wire R fifo acts u m words b w v e in
      rw
        (link_since rs485_cs60_stale_ms now (p.uptime m.mirror.1.calls) mirrored shows.heard
          some_time heard big)
        (ground arith)

  -- A status block that the driver brings, in whatever pieces and read in whatever rounds, to a
  -- mirror between frames: the bridge's next round and the endpoint's next tick write the block's
  -- registers into the attributes, each where clients look for it, and the link if it changed. The
  -- conditions: the supply temperature has a hundredfold that is an int16_t, the mode is one of the
  -- four, the bridge has not yet pushed this count of blocks, and no client has written the
  -- setpoint in the last five seconds.
  pub status_published :
      {F T : Type 0} (f : Floats F) (at_temp at_setpoint now pushed : ℕ) (link_up : Bool)
      (z : State F T)
      → IsInt16 (times_ten (signed16 (get_or words 5 0)))
      → get_or words 1 0 ≤ 3
      → bump m.mirror.1.state.fc10_frames ≢ pushed
      → IsShaped z.pending
      → z.pending.setpoint_hold_until ≤ at_setpoint
      → let (pushed', q) = bridge_work f mirrored at_temp at_setpoint (pushed, z.pending) in
        (pushed' ≡ bump m.mirror.1.state.fc10_frames)
        × ((publish_tick now link_up (record z { pending = q })).1
            ≡ seen f words (publish_link link_up z.cs60_link_state))
  status_published f at_temp at_setpoint now pushed link_up z small four new shaped free =
      let (empty, shows, counted) = status_delivered h p wire R fifo acts u m words b w v e in
      let (count, attrs) =
        shown_published f words (p.uptime m.mirror.1.calls) mirrored at_temp at_setpoint now pushed
          link_up z shows small four (rw counted new) shaped free in
      (count ∙ counted, attrs)
