-- ===== src/Mirror/Reception.antt =====
-- Whole frames that reach src/panel_mirror.c: the status block that the CS60 writes to the panels,
-- and a single-register write.
use flexit_cs60_control.Shared.{
  ℕ, ◌+◌, ◌*◌, ◌≤◌, ◌<◌, ◌≡◌, refl, ap, subst, sym, ◌∙◌, true, not, ◌&&◌, ◌||◌, List, [], ◌∷◌, ◌++◌,
  arith, length, get_or, get_or-append_right, drop, drop_all, ◌==◌, be16, put_be16, put_le16, Below,
  length-append, be16-append, has_bit,
}
use flexit_cs60_control.Shared.Int.{signed16, ltb_ℤ}
use flexit_cs60_control.Platform.{Platform}
use flexit_cs60_control.Accum.{Accum, contents}
use flexit_cs60_control.Accum.Buffer.{IsValid}
use flexit_cs60_control.Accum.Loop.{view, settle, run, settle_step}
use flexit_cs60_control.Accum.Chunks.{feed-settle}
use flexit_cs60_control.Slave.Respond.{stamp, put_regs}
use flexit_cs60_control.Slave.Responses
use flexit_cs60_control.Slave.Decode
use flexit_cs60_control.Mirror.{State, bump}
use flexit_cs60_control.Mirror.Status.{apply_status, temp_sentinel_max_x10}
use flexit_cs60_control.Mirror.Flags.{alarm_bits_lem, sensor_bits_lem}
use flexit_cs60_control.Mirror.Decode.{
  World, accum_size, fc10_len, fc06_len, crc_ok, fc10_header, decode_fc10, decode_fc06, match_frame,
  try_decode_at_front, mirror_feed,
}
use flexit_cs60_control.Mirror.Matcher.{
  status, counter, opened, respond, decode_kind, matcher-IsDecoder,
}

-- What stands in front of the 85 registers from 0x00BE on.
abbrev pub status_head : List ℕ
status_head = 0x00 ∷ 0x10 ∷ 0x00 ∷ 0xBE ∷ 0x00 ∷ 0x55 ∷ 0xAA ∷ []

-- The status block that carries the registers `words`.
unfoldable pub status_frame : Platform → List ℕ → List ℕ
status_frame p words = stamp p (status_head ++ put_regs words 0 85)

-- The write of one register.
unfoldable pub counter_frame : Platform → ℕ → ℕ → List ℕ
counter_frame p addr value = stamp p (0x00 ∷ 0x06 ∷ put_be16 addr ++ put_be16 value)

module _ (p : Platform) where
  crc_ok-stamp : (frame : List ℕ) → crc_ok p (stamp p frame) (length frame + 2) ≡ true
  unfolding crc_ok Decode.crc_ok
  crc_ok-stamp frame = Responses.crc_ok-stamp p frame

  pub length-status_frame : (words : List ℕ) → length (status_frame p words) ≡ fc10_len
  unfolding status_frame stamp
  length-status_frame words =
      omega (arith, Responses.length-put_regs words 0 85, length-append (put_regs words 0 85) _)

  -- Register 0x00BE + k of the block.
  pub status_word :
      (words : List ℕ) (k : ℕ)
      → Below 65536 words
      → k < 85
      → be16 (status_frame p words) (7 + 2 * k) ≡ get_or words k 0
  unfolding status_frame stamp
  status_word words k b h =
      let body = put_regs words 0 85 in
      let rest = body ++ put_le16 (p.crc16 (status_head ++ body)) in
      let first : get_or (status_frame p words) (7 + 2 * k) 0 ≡ get_or rest (2 * k) 0 =
        get_or-append_right status_head rest (2 * k) 0 in
      let second : get_or (status_frame p words) (7 + 2 * k + 1) 0 ≡ get_or rest (2 * k + 1) 0 =
        ap (λ i. get_or (status_head ++ rest) i 0) (add_assoc 7 (2 * k) 1)
        ∙ get_or-append_right status_head rest (2 * k + 1) 0 in
      let read : be16 body (2 * k) ≡ get_or words k 0 =
        Responses.be16-put_regs words 0 85 k b h ∙ ap (λ i. get_or words i 0) (omega arith) in
      omega (
        arith,
        first,
        second,
        read,
        be16-append body (put_le16 (p.crc16 (status_head ++ body))) (2 * k)
            (omega (arith, Responses.length-put_regs words 0 85)),
      )
    where
      add_assoc : (a b c : ℕ) → a + b + c ≡ a + (b + c)
      add_assoc a b c = omega arith

  pub served :
      (a : Accum) (w : World) (frame : List ℕ) (decode : List ℕ → World → World)
      → IsValid accum_size a
      → contents a ≡ []
      → 0 < length frame
      → length frame ≤ accum_size
      → try_decode_at_front p w frame ≡ (length frame, decode frame w)
      → view (try_decode_at_front p) (mirror_feed p a w frame) ≡ ([], decode frame w)
  unfolding mirror_feed run
  served a w [] decode v e h fits d = absurd (omega arith)
  served a w (x ∷ xs) decode v e h fits d =
      feed-settle (matcher-IsDecoder p) v w x xs (omega (arith, ap length e))
      ∙ ap (λ t. settle (try_decode_at_front p) (t ++ (x ∷ xs)) w) e
      ∙ settle_step (matcher-IsDecoder p) (x ∷ xs) w (λ z. cc (d, z))
      ∙ ap (λ (r : ℕ × World). settle (try_decode_at_front p) (drop r.0 (x ∷ xs)) r.1) d
      ∙ ap (λ t. settle (try_decode_at_front p) t (decode (x ∷ xs) w))
          (drop_all (length (x ∷ xs)) (x ∷ xs) (omega arith))

  status_decoded :
      (w : World) (words : List ℕ)
      → try_decode_at_front p w (status_frame p words)
        ≡ (length (status_frame p words), decode_fc10 p (status_frame p words) w)
  unfolding respond match_frame
  status_decoded w words =
      let size = length-status_frame words in
      let kind : opened (status_frame p words) ≡ status =
        unfold opened status_frame stamp in refl in
      let head : fc10_header (status_frame p words) ≡ true =
        unfold fc10_header status_frame stamp in refl in
      let good : crc_ok p (status_frame p words) fc10_len ≡ true =
        unfold status_frame in
        subst (λ n. crc_ok p (stamp p (status_head ++ put_regs words 0 85)) n ≡ true)
          (omega (arith, Responses.length-put_regs words 0 85))
          (crc_ok-stamp (status_head ++ put_regs words 0 85)) in
      rw (decode_kind p w (status_frame p words) (omega arith), kind) (ground arith)

  pub counter_decoded :
      (w : World) (addr value : ℕ)
      → try_decode_at_front p w (counter_frame p addr value)
        ≡ (length (counter_frame p addr value), decode_fc06 p (counter_frame p addr value) w)
  unfolding respond match_frame
  counter_decoded w addr value =
      let frame = counter_frame p addr value in
      let size : length frame ≡ 8 = unfold counter_frame stamp in refl in
      let kind : opened frame ≡ counter = unfold opened counter_frame stamp in refl in
      let good : crc_ok p frame fc06_len ≡ true =
        unfold counter_frame in crc_ok-stamp (0x00 ∷ 0x06 ∷ put_be16 addr ++ put_be16 value) in
      rw (decode_kind p w frame (omega arith), kind) (ground arith)

-- The mirror shows the registers `words` of a status block, received at `at_ms`.
pub record Shows (words : List ℕ) (at_ms : ℕ) (t : State) : Type 0 where
  pub setpoint : t.temp_setpoint_x10 ≡ signed16 (get_or words 0 0)
  pub fan_mode : t.mode ≡ get_or words 1 0
  pub second : t.unknown_1 ≡ get_or words 2 0
  pub third : t.unknown_2 ≡ get_or words 3 0
  pub setpoint_2 : t.temp_setpoint_2_x10 ≡ signed16 (get_or words 4 0)
  pub supply_air : t.temp_supply_air_x10 ≡ signed16 (get_or words 5 0)
  pub extract_air : t.temp_extract_air_x10 ≡ signed16 (get_or words 6 0)
  pub outdoor_air : t.temp_outdoor_air_x10 ≡ signed16 (get_or words 7 0)
  pub return_water : t.temp_return_water_x10 ≡ signed16 (get_or words 8 0)
  pub cooling : t.pct_cooling ≡ get_or words 9 0
  pub heat_exchanger : t.pct_heat_exchanger ≡ get_or words 10 0
  pub heating : t.pct_heating ≡ get_or words 11 0
  pub supply_fan : t.pct_supply_fan ≡ get_or words 12 0
  pub extract_sensor :
      has_bit t.sensors_present 0 ≡ ltb_ℤ temp_sentinel_max_x10 (signed16 (get_or words 6 0))
  pub water_sensor :
      has_bit t.sensors_present 1 ≡ ltb_ℤ temp_sentinel_max_x10 (signed16 (get_or words 8 0))
  pub alarm :
      (j : ℕ)
      → j < 8
      → has_bit t.alarms j ≡ (
          j == 0 && not (get_or words 70 0 == 0)
          || j == 1 && not (get_or words 72 0 == 0)
          || j == 2 && not (get_or words 74 0 == 0)
          || j == 3 && not (get_or words 77 0 == 0)
          || j == 4 && not (get_or words 78 0 == 0))
  pub heard : t.last_fc10_uptime_ms ≡ at_ms

module _ (p : Platform) (words : List ℕ) (b : Below 65536 words) where
  signed_word :
      (k : ℕ)
      → k < 85
      → signed16 (be16 (status_frame p words) (7 + 2 * k)) ≡ signed16 (get_or words k 0)
  signed_word k h = ap signed16 (status_word p words k b h)

  apply_status-Shows :
      (now : ℕ) (s : State) → Shows words now (apply_status (status_frame p words) now s)
  unfolding apply_status
  apply_status-Shows now s = record {
    setpoint = signed_word 0 (omega arith);
    fan_mode = status_word p words 1 b (omega arith);
    second = status_word p words 2 b (omega arith);
    third = status_word p words 3 b (omega arith);
    setpoint_2 = signed_word 4 (omega arith);
    supply_air = signed_word 5 (omega arith);
    extract_air = signed_word 6 (omega arith);
    outdoor_air = signed_word 7 (omega arith);
    return_water = signed_word 8 (omega arith);
    cooling = status_word p words 9 b (omega arith);
    heat_exchanger = status_word p words 10 b (omega arith);
    heating = status_word p words 11 b (omega arith);
    supply_fan = status_word p words 12 b (omega arith);
    extract_sensor =
        (sensor_bits_lem _ _).0 ∙ ap (ltb_ℤ temp_sentinel_max_x10) (signed_word 6 (omega arith));
    water_sensor =
        (sensor_bits_lem _ _).1 ∙ ap (ltb_ℤ temp_sentinel_max_x10) (signed_word 8 (omega arith));
    alarm = λ j h.
        rw
          (
            ← status_word p words 70 b (omega arith),
            ← status_word p words 72 b (omega arith),
            ← status_word p words 74 b (omega arith),
            ← status_word p words 77 b (omega arith),
            ← status_word p words 78 b (omega arith),
          )
          (alarm_bits_lem (status_frame p words) j h);
    heard = refl;
  }

  -- A status block that arrives between frames is shown whole, with the clock's time; it is
  -- counted and it leaves the counter table and the other counts alone.
  pub status_received :
      (a : Accum) (w : World)
      → IsValid accum_size a
      → contents a ≡ []
      → let (a', w') = mirror_feed p a w (status_frame p words) in
        (contents a' ≡ [])
        × Shows words (p.uptime w.calls) w'.state
        × (w'.state.fc10_frames ≡ bump w.state.fc10_frames)
        × (w'.state.fc06_frames ≡ w.state.fc06_frames)
        × (w'.state.crc_failures ≡ w.state.crc_failures)
        × (w'.state.counters ≡ w.state.counters)
  unfolding decode_fc10 apply_status
  status_received a w v e =
      let size = length-status_frame p words in
      let done =
        served p a w (status_frame p words) (decode_fc10 p) v e (omega arith) (omega arith)
          (status_decoded p w words) in
      let after : (mirror_feed p a w (status_frame p words)).1
          ≡ decode_fc10 p (status_frame p words) w =
        ap (λ (t : List ℕ × World). t.1) done in
      (
        ap (λ (t : List ℕ × World). t.0) done,
        subst (λ (t : World). Shows words (p.uptime w.calls) t.state) (sym after)
            (apply_status-Shows (p.uptime w.calls) w.state),
        ap (λ (t : World). t.state.fc10_frames) after,
        ap (λ (t : World). t.state.fc06_frames) after,
        ap (λ (t : World). t.state.crc_failures) after,
        ap (λ (t : World). t.state.counters) after,
      )
