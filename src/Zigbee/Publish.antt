-- ===== src/Zigbee/Publish.antt =====
-- src/zigbee_ep.c, `publish_tick`: the values that wait go into the clusters. Each call of
-- `zb_zcl_set_attr_val` is an `Attr` of the list that a tick returns, in order.
use flexit_cs60_control.Shared.{
  ℕ, zero, suc, ◌+◌, ◌-◌, Bool, true, false, not, ◌&&◌, Option, none, some, List, [], ◌∷◌, ◌++◌,
  get_or, replicate, set, ltb, ◌==◌, same, if◌then◌else◌,
}
use flexit_cs60_control.Shared.Int.{ℤ, pos, negsuc}
use flexit_cs60_control.Zigbee.{Pending, State, temp_count, analog_count, binary_count}

-- A write of an attribute, with its endpoint.
pub data Attr (F : Type 0) : Type 0 where
  measured_value : ℕ → ℤ → Attr F
  analog_input : ℕ → F → Attr F
  binary_input : ℕ → Bool → Attr F
  analog_value : ℕ → F → Attr F
  fan_mode : ℕ → ℕ → Attr F

-- FLEXIT_CTRL_ENDPOINT and FLEXIT_AV_EP_SETPOINT
abbrev pub ctrl_endpoint : ℕ
ctrl_endpoint = 1

abbrev pub av_ep_setpoint : ℕ
av_ep_setpoint = 7

abbrev pub temp_ep_id : List ℕ
temp_ep_id = 2 ∷ []

abbrev pub analog_ep_id : List ℕ
analog_ep_id = 5 ∷ 6 ∷ 4 ∷ []

abbrev pub binary_ep_id : List ℕ
binary_ep_id = 2 ∷ 4 ∷ 5 ∷ 6 ∷ 1 ∷ []

-- FLEXIT_TEMP_STALE_MS, and ZCL's invalid temperature, 0x8000 as an int16_t.
abbrev pub temp_stale_ms : ℕ
temp_stale_ms = 60000

abbrev pub temp_unknown : ℤ
temp_unknown = negsuc 32767

module _ {F : Type 0} where
  -- The first loop, `n` rounds from channel `i` on: the channels that are stale afterwards, and
  -- the writes. A time before the last value gives no staleness, in int64_t as on ℕ.
  unfoldable pub publish_temps : Pending F → ℕ → ℕ → ℕ → List Bool → List Bool × List (Attr F)
  publish_temps q now zero i stale = (stale, [])
  publish_temps q now (suc n) i stale =
      let ep = get_or temp_ep_id i 0 in
      let last = get_or q.temp_last_ms i 0 in
      let fresh = publish_temps q now n (i + 1) (set stale i false) in
      let silent = publish_temps q now n (i + 1) (set stale i true) in
      let other = publish_temps q now n (i + 1) stale in
      if get_or q.temp_dirty i false
      then (fresh.0, measured_value ep (get_or q.temp_cc i (pos 0)) ∷ fresh.1)
      else if not (get_or stale i false) && not (last == 0) && ltb temp_stale_ms (now - last)
      then (silent.0, measured_value ep temp_unknown ∷ silent.1)
      else other

  -- The second and the third loop: what is dirty is written.
  unfoldable pub publish_dirty :
      {A : Type 0} → (ℕ → A → Attr F) → List ℕ → List Bool → List A → List (Attr F)
  publish_dirty write (ep ∷ eps) (dirty ∷ ds) (v ∷ vs) =
      let rest = publish_dirty write eps ds vs in if dirty then write ep v ∷ rest else rest
  publish_dirty write eps ds vs = []

  -- The link is written when it differs from the state published last.
  unfoldable pub publish_link : Bool → Option Bool → List (Attr F)
  publish_link link_up none = binary_input av_ep_setpoint link_up ∷ []
  publish_link link_up (some b) =
      if same link_up b then [] else binary_input av_ep_setpoint link_up ∷ []

  -- What is left waiting once a tick has taken the values out.
  abbrev pub taken : Pending F → Pending F
  taken q = record q {
    temp_dirty = replicate temp_count false;
    analog_dirty = replicate analog_count false;
    binary_dirty = replicate binary_count false;
    setpoint_dirty = false;
    mode_dirty = false;
  }

module _ {F T : Type 0} where
  -- One tick at the uptime `now`; `link_up` is the answer of `panel_mirror_cs60_link_up`.
  unfoldable pub publish_tick : ℕ → Bool → State F T → State F T × List (Attr F)
  publish_tick now link_up z =
      let q = z.pending in
      let temps = publish_temps q now temp_count 0 z.temp_stale in
      (
        record z { pending = taken q; temp_stale = temps.0; cs60_link_state = some link_up },
        temps.1
            ++ publish_dirty analog_input analog_ep_id q.analog_dirty q.analog_val
            ++ publish_dirty binary_input binary_ep_id q.binary_dirty q.binary_val
            ++ publish_link link_up z.cs60_link_state
            ++ (if q.setpoint_dirty then analog_value av_ep_setpoint q.setpoint_val ∷ [] else [])
            ++ (if q.mode_dirty then fan_mode ctrl_endpoint q.mode ∷ [] else []),
      )
