-- ===== src/Bridge/Wire.antt =====
-- From the registers that the CS60 broadcasts to the attributes that Zigbee clients see.
use flexit_cs60_control.Shared.{
  ℕ, ◌≤◌, ◌≡◌, ◌≢◌, refl, ◌∙◌, Bool, not, has_bit, List, [], ◌∷◌, ◌++◌, get_or, ◌==◌, Below, arith,
}
use flexit_cs60_control.Shared.Int.{pos, signed16, times_ten, IsInt16, signed16-word16}
use flexit_cs60_control.Platform.{Platform}
use flexit_cs60_control.Accum.{Accum, contents}
use flexit_cs60_control.Accum.Buffer.{IsValid}
use flexit_cs60_control.Mirror
use flexit_cs60_control.Mirror.{bump}
use flexit_cs60_control.Mirror.Decode.{World, accum_size, mirror_feed}
use flexit_cs60_control.Mirror.Reception.{Shows, status_frame, status_received}
use flexit_cs60_control.Zigbee.{Floats, State}
use flexit_cs60_control.Zigbee.Publish.{
  Attr, measured_value, analog_input, binary_input, analog_value, fan_mode, publish_link,
  publish_tick,
}
use flexit_cs60_control.Zigbee.Shape.{IsShaped}
use flexit_cs60_control.Bridge.{bridge_work}
use flexit_cs60_control.Bridge.Status.{shown, bridge_published}

module _ {F : Type 0} (f : Floats F) where
  open f use {of_int, tenth}

  -- What the registers from 0x00BE on look like as attributes.
  abbrev pub seen : List ℕ → List (Attr F) → List (Attr F)
  seen words link =
      measured_value 2 (times_ten (signed16 (get_or words 5 0)))
        ∷ analog_input 5 (of_int (pos (get_or words 10 0)))
        ∷ analog_input 6 (of_int (pos (get_or words 11 0)))
        ∷ analog_input 4 (tenth (of_int (signed16 (get_or words 7 0))))
        ∷ binary_input 2 (not (get_or words 70 0 == 0))
        ∷ binary_input 4 (not (get_or words 72 0 == 0))
        ∷ binary_input 5 (not (get_or words 77 0 == 0))
        ∷ binary_input 6 (not (get_or words 74 0 == 0))
        ∷ binary_input 1 (not (get_or words 78 0 == 0))
        ∷ link
      ++ (analog_value 7 (of_int (signed16 (get_or words 4 0))) ∷ [])
      ++ (fan_mode 1 (get_or words 1 0) ∷ [])

  shown-seen :
      (words : List ℕ) (at_ms : ℕ) (st : Mirror.State) (link : List (Attr F))
      → Shows words at_ms st
      → IsInt16 (times_ten (signed16 (get_or words 5 0)))
      → shown f st link ≡ seen words link
  shown-seen words at_ms st link h small =
      let at0 : has_bit st.alarms 0 ≡ not (get_or words 70 0 == 0) =
        h.alarm 0 (omega arith) ∙ ground arith in
      let at1 : has_bit st.alarms 1 ≡ not (get_or words 72 0 == 0) =
        h.alarm 1 (omega arith) ∙ ground arith in
      let at2 : has_bit st.alarms 2 ≡ not (get_or words 74 0 == 0) =
        h.alarm 2 (omega arith) ∙ ground arith in
      let at3 : has_bit st.alarms 3 ≡ not (get_or words 77 0 == 0) =
        h.alarm 3 (omega arith) ∙ ground arith in
      let at4 : has_bit st.alarms 4 ≡ not (get_or words 78 0 == 0) =
        h.alarm 4 (omega arith) ∙ ground arith in
      rw
        (
          h.supply_air,
          signed16-word16 (times_ten (signed16 (get_or words 5 0))) small,
          h.heat_exchanger,
          h.heating,
          h.outdoor_air,
          at0,
          at1,
          at2,
          at3,
          at4,
          h.setpoint_2,
          h.fan_mode,
        )
        refl

  -- The same from any state of the mirror that shows the registers.
  pub shown_published :
      {T : Type 0} (words : List ℕ) (at_ms : ℕ) (st : Mirror.State)
      (at_temp at_setpoint now pushed : ℕ) (link_up : Bool) (z : State F T)
      → Shows words at_ms st
      → IsInt16 (times_ten (signed16 (get_or words 5 0)))
      → get_or words 1 0 ≤ 3
      → st.fc10_frames ≢ pushed
      → IsShaped z.pending
      → z.pending.setpoint_hold_until ≤ at_setpoint
      → let (pushed', q) = bridge_work f st at_temp at_setpoint (pushed, z.pending) in
        (pushed' ≡ st.fc10_frames)
        × ((publish_tick now link_up (record z { pending = q })).1
            ≡ seen words (publish_link link_up z.cs60_link_state))
  shown_published words at_ms st at_temp at_setpoint now pushed link_up z shows small m new h free =
      let moded : st.mode ≤ 3 = rw shows.fan_mode m in
      let (count, attrs) =
        bridge_published f st at_temp at_setpoint now pushed link_up z h new free moded in
      (
        count,
        attrs ∙ shown-seen words at_ms st (publish_link link_up z.cs60_link_state) shows small,
      )

  -- A status block that the mirror receives between frames, the bridge's next round and the
  -- endpoint's next tick write the block's registers into the attributes, each where clients look
  -- for it, and the link if it changed. The conditions: the supply temperature has a hundredfold
  -- that is an int16_t, the mode is one of the four, the bridge has not yet pushed this count of
  -- blocks, and no client has written the setpoint in the last five seconds.
  pub wire_published :
      {T : Type 0} (p : Platform) (words : List ℕ) (a : Accum) (w : World)
      (at_temp at_setpoint now pushed : ℕ) (link_up : Bool) (z : State F T)
      → Below 65536 words
      → IsInt16 (times_ten (signed16 (get_or words 5 0)))
      → get_or words 1 0 ≤ 3
      → IsValid accum_size a
      → contents a ≡ []
      → bump w.state.fc10_frames ≢ pushed
      → IsShaped z.pending
      → z.pending.setpoint_hold_until ≤ at_setpoint
      → let st = (mirror_feed p a w (status_frame p words)).1.state in
        let (pushed', q) = bridge_work f st at_temp at_setpoint (pushed, z.pending) in
        (pushed' ≡ bump w.state.fc10_frames)
        × ((publish_tick now link_up (record z { pending = q })).1
            ≡ seen words (publish_link link_up z.cs60_link_state))
  wire_published p words a w at_temp at_setpoint now pushed link_up z b small m v e new h free =
      let st = (mirror_feed p a w (status_frame p words)).1.state in
      let received = status_received p words b a w v e in
      let counted = received.2 in
      let differs : st.fc10_frames ≢ pushed = rw counted new in
      let (count, attrs) =
        shown_published words (p.uptime w.calls) st at_temp at_setpoint now pushed link_up z
          received.1 small m differs h free in
      (count ∙ counted, attrs)
