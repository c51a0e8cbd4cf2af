-- ===== src/Bridge/Status.antt =====
-- From the status block on the wire, over the mirror and the bridge, to the Zigbee attributes.
use flexit_cs60_control.Shared.{
  ℕ, ◌%◌, ◌^◌, ◌≤◌, ◌≡◌, ◌≢◌, refl, Bool, true, false, List, [], ◌∷◌, ◌++◌, arith, length, set, ltb,
  leb, ◌==◌, has_bit,
}
use flexit_cs60_control.Shared.Int.{pos, signed16, word16, times_ten}
use flexit_cs60_control.Mirror
use flexit_cs60_control.Zigbee.{
  Floats, Pending, State, set_temperature, set_intake_temp, set_percent, set_setpoint, set_binary,
  set_mode,
}
use flexit_cs60_control.Zigbee.Publish.{
  Attr, measured_value, analog_input, binary_input, analog_value, fan_mode, publish_temps,
  publish_dirty, publish_link, publish_tick,
}
use flexit_cs60_control.Zigbee.Shape.{IsShaped, one_place, three_places, five_places}
use flexit_cs60_control.Bridge.{push_status, bridge_work}

module _ {F : Type 0} (f : Floats F) where
  open f use {of_int, tenth}

  -- The attributes that a status shows, in the order of a tick; `link` are the writes of the link.
  abbrev pub shown : Mirror.State → List (Attr F) → List (Attr F)
  shown st link =
      measured_value 2 (signed16 (word16 (times_ten st.temp_supply_air_x10)))
        ∷ analog_input 5 (of_int (pos st.pct_heat_exchanger))
        ∷ analog_input 6 (of_int (pos st.pct_heating))
        ∷ analog_input 4 (tenth (of_int st.temp_outdoor_air_x10))
        ∷ binary_input 2 (has_bit st.alarms 0)
        ∷ binary_input 4 (has_bit st.alarms 1)
        ∷ binary_input 5 (has_bit st.alarms 3)
        ∷ binary_input 6 (has_bit st.alarms 2)
        ∷ binary_input 1 (has_bit st.alarms 4)
        ∷ link
      ++ (analog_value 7 (of_int st.temp_setpoint_2_x10) ∷ [])
      ++ (fan_mode 1 st.mode ∷ [])

  -- What a push leaves waiting.
  record Pushed (st : Mirror.State) (q : Pending F) : Type 0 where
    temp_cc : q.temp_cc ≡ signed16 (word16 (times_ten st.temp_supply_air_x10)) ∷ []
    temp_dirty : q.temp_dirty ≡ true ∷ []
    analog_val :
        q.analog_val
        ≡ of_int (pos st.pct_heat_exchanger)
          ∷ of_int (pos st.pct_heating)
          ∷ tenth (of_int st.temp_outdoor_air_x10)
          ∷ []
    analog_dirty : q.analog_dirty ≡ true ∷ true ∷ true ∷ []
    binary_val :
        q.binary_val
        ≡ has_bit st.alarms 0
          ∷ has_bit st.alarms 1
          ∷ has_bit st.alarms 3
          ∷ has_bit st.alarms 2
          ∷ has_bit st.alarms 4
          ∷ []
    binary_dirty : q.binary_dirty ≡ true ∷ true ∷ true ∷ true ∷ true ∷ []
    setpoint_val : q.setpoint_val ≡ of_int st.temp_setpoint_2_x10
    setpoint_dirty : q.setpoint_dirty ≡ true
    mode : q.mode ≡ st.mode
    mode_dirty : q.mode_dirty ≡ true

  set_one : {A : Type 0} (xs : List A) (a : A) → length xs ≡ 1 → set xs 0 a ≡ a ∷ []
  set_one xs a h = let (b, e) = one_place xs h in rw e refl

  set_three :
      {A : Type 0} (xs : List A) (a b c : A)
      → length xs ≡ 3
      → set (set (set xs 2 c) 0 a) 1 b ≡ a ∷ b ∷ c ∷ []
  set_three xs a b c h = let (x, y, z, e) = three_places xs h in rw e refl

  set_five :
      {A : Type 0} (xs : List A) (a b c d e : A)
      → length xs ≡ 5
      → set (set (set (set (set xs 0 a) 1 b) 2 c) 3 d) 4 e ≡ a ∷ b ∷ c ∷ d ∷ e ∷ []
  set_five xs a b c d e h = let (v, w, x, y, z, eq) = five_places xs h in rw eq refl

  push_status-Pushed :
      (st : Mirror.State) (at_temp at_setpoint : ℕ) (q : Pending F)
      → IsShaped q
      → leb q.setpoint_hold_until at_setpoint ≡ true
      → leb st.mode 3 ≡ true
      → Pushed st (push_status f st at_temp at_setpoint q)
  unfolding push_status set_temperature set_intake_temp set_percent set_setpoint set_binary set_mode
  push_status-Pushed st at_temp at_setpoint q h free ranged =
      let exact : st.mode % 2 ^ 8 ≡ st.mode = ground arith in
      let small : ltb 3 st.mode ≡ false = ground arith in
      rw (free, ranged, exact, small)
        (record {
          temp_cc = set_one q.temp_cc _ h.temp_cc;
          temp_dirty = set_one q.temp_dirty _ h.temp_dirty;
          analog_val = set_three q.analog_val _ _ _ h.analog_val;
          analog_dirty = set_three q.analog_dirty _ _ _ h.analog_dirty;
          binary_val = set_five q.binary_val _ _ _ _ _ h.binary_val;
          binary_dirty = set_five q.binary_dirty _ _ _ _ _ h.binary_dirty;
          setpoint_val = refl;
          setpoint_dirty = refl;
          mode = refl;
          mode_dirty = refl;
        })

  Pushed-published :
      {T : Type 0} (st : Mirror.State) (now : ℕ) (link_up : Bool) (z : State F T)
      → Pushed st z.pending
      → (publish_tick now link_up z).1 ≡ shown st (publish_link link_up z.cs60_link_state)
  unfolding publish_tick publish_temps publish_dirty
  Pushed-published st now link_up z p =
      rw
        (
          p.temp_cc, p.temp_dirty, p.analog_val, p.analog_dirty, p.binary_val, p.binary_dirty,
          p.setpoint_val, p.setpoint_dirty, p.mode, p.mode_dirty,
        )
        refl

  -- The bridge pushes a status that it has not pushed yet; the next tick, whenever it comes and
  -- whatever waited before, writes every attribute that the status has, and the link if it changed.
  -- The conditions: no client has written the setpoint in the last five seconds, and the mode is
  -- one of the four.
  pub bridge_published :
      {T : Type 0} (st : Mirror.State) (at_temp at_setpoint now pushed : ℕ) (link_up : Bool)
      (z : State F T)
      → IsShaped z.pending
      → st.fc10_frames ≢ pushed
      → z.pending.setpoint_hold_until ≤ at_setpoint
      → st.mode ≤ 3
      → let (pushed', q) = bridge_work f st at_temp at_setpoint (pushed, z.pending) in
        (pushed' ≡ st.fc10_frames)
        × ((publish_tick now link_up (record z { pending = q })).1
            ≡ shown st (publish_link link_up z.cs60_link_state))
  unfolding bridge_work
  bridge_published st at_temp at_setpoint now pushed link_up z h new free m =
      let differ : (st.fc10_frames == pushed) ≡ false = ground arith in
      let q = push_status f st at_temp at_setpoint z.pending in
      rw differ (
        refl,
        Pushed-published st now link_up (record z { pending = q })
            (push_status-Pushed st at_temp at_setpoint z.pending h (ground arith) (ground arith)),
      )

  -- A status is pushed once: polled again without a new status block, the bridge leaves all that
  -- waits as it is, its times included.
  pub bridge_work_again :
      (st : Mirror.State) (t1 t2 t3 t4 : ℕ) (r : ℕ × Pending F)
      → bridge_work f st t3 t4 (bridge_work f st t1 t2 r) ≡ bridge_work f st t1 t2 r
  unfolding bridge_work
  bridge_work_again st t1 t2 t3 t4 r = ground arith
