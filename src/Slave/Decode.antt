-- ===== src/Slave/Decode.antt =====
-- src/flexit_slave.c: the frame matcher `try_decode_at_front`, `flexit_slave_feed` and
-- `flexit_slave_init`. The matcher sees the bytes `accum[0 .. accum_len)`.
use flexit_cs60_control.Shared.{
  ℕ, ◌-◌, ◌&&◌, Bool, List, length, get_or, take, ltb, ◌==◌, if◌then◌else◌, le16,
}
use flexit_cs60_control.Platform.{Platform}
use flexit_cs60_control.Accum.{Accum, feed}
use flexit_cs60_control.Slave.{bump, slave_addr, init}
use flexit_cs60_control.Slave.Handle.{
  World, Send, handle_fc01_request, handle_fc03_request, handle_fc04_request, handle_fc65_broadcast,
}

abbrev pub accum_size : ℕ
accum_size = 64

abbrev pub fc_req_len : ℕ
fc_req_len = 8

unfoldable pub bump_crc_failure : World → World
bump_crc_failure w = record w {
  state = record w.state { crc_failures = bump w.state.crc_failures };
}

module _ (p : Platform) where
  -- `crc_ok(frame, len)`
  unfoldable pub crc_ok : List ℕ → ℕ → Bool
  crc_ok frame len = p.crc16 (take (len - 2) frame) == le16 frame (len - 2)

  -- What the four branches of the matcher share, behind their test of the first two bytes.
  unfoldable pub match_frame : (List ℕ → World → World) → World → List ℕ → ℕ × World
  match_frame handle w accum =
      if ltb (length accum) fc_req_len
      then (0, w)
      else if crc_ok accum fc_req_len
      then (fc_req_len, handle accum w)
      else (1, bump_crc_failure w)

module _ (p : Platform) (send : Send) where
  unfoldable pub try_decode_at_front : World → List ℕ → ℕ × World
  try_decode_at_front w accum =
      let a = get_or accum 0 0 in
      let b = get_or accum 1 0 in
      if ltb (length accum) 2
      then (0, w)
      else if a == slave_addr && b == 0x01
      then match_frame p (handle_fc01_request p send) w accum
      else if a == slave_addr && b == 0x03
      then match_frame p (handle_fc03_request p send) w accum
      else if a == slave_addr && b == 0x04
      then match_frame p (handle_fc04_request p send) w accum
      else if a == 0x00 && b == 0x65
      then match_frame p (handle_fc65_broadcast p send) w accum
      else (1, w)

  -- `flexit_slave_feed`
  unfoldable pub slave_feed : Accum → World → List ℕ → Accum × World
  slave_feed = feed try_decode_at_front accum_size

-- `flexit_slave_init`: the state is reset and the accumulator emptied; it returns 0.
unfoldable pub slave_init : Accum × World → Accum × World
slave_init (a, w) = (record a { len = 0 }, record w { state = init })
