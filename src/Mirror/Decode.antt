-- ===== src/Mirror/Decode.antt =====
-- src/panel_mirror.c: the frame matcher `try_decode_at_front` and `panel_mirror_feed`.
use flexit_cs60_control.Shared.{
  ℕ, ◌+◌, ◌-◌, ◌&&◌, Bool, List, length, get_or, take, ltb, ◌==◌, if◌then◌else◌, be16, le16,
}
use flexit_cs60_control.Platform.{Platform}
use flexit_cs60_control.Accum.{Accum, feed}
use flexit_cs60_control.Mirror.{State, bump}
use flexit_cs60_control.Mirror.Counters.{note_counter}
use flexit_cs60_control.Mirror.Status.{apply_status}

abbrev pub accum_size : ℕ
accum_size = 256

abbrev pub fc10_len : ℕ
fc10_len = 179

abbrev pub fc06_len : ℕ
fc06_len = 8

-- The mirror with the number of clock readings made, which indexes the answers of the clock.
pub record World : Type 0 where
  pub state : State
  pub calls : ℕ

unfoldable pub bump_crc_failure : World → World
bump_crc_failure w = record w {
  state = record w.state { crc_failures = bump w.state.crc_failures };
}

-- The five bytes behind `00 10` of a status block.
unfoldable pub fc10_header : List ℕ → Bool
fc10_header accum =
    get_or accum 2 0 == 0x00
    && get_or accum 3 0 == 0xBE
    && get_or accum 4 0 == 0x00
    && get_or accum 5 0 == 0x55
    && get_or accum 6 0 == 0xAA

module _ (p : Platform) where
  -- The checksum test that opens `try_decode_fc10` and `try_decode_fc06`.
  unfoldable pub crc_ok : List ℕ → ℕ → Bool
  crc_ok frame len = p.crc16 (take (len - 2) frame) == le16 frame (len - 2)

  -- `try_decode_fc10` and `try_decode_fc06` behind that test.
  unfoldable pub decode_fc10 : List ℕ → World → World
  decode_fc10 frame w = record {
    state = apply_status frame (p.uptime w.calls) w.state;
    calls = w.calls + 1;
  }

  unfoldable pub decode_fc06 : List ℕ → World → World
  decode_fc06 frame w = record {
    state = record w.state {
      counters = note_counter (be16 frame 2) (be16 frame 4) (p.uptime w.calls) w.state.counters;
      fc06_frames = bump w.state.fc06_frames;
    };
    calls = w.calls + 1;
  }

  -- A candidate frame of `len` bytes: wait for it, decode it, or count a failure and slip a byte.
  unfoldable pub match_frame : ℕ → (List ℕ → World → World) → World → List ℕ → ℕ × World
  match_frame len decode w accum =
      if ltb (length accum) len
      then (0, w)
      else if crc_ok accum len
      then (len, decode accum w)
      else (1, bump_crc_failure w)

  unfoldable pub try_decode_at_front : World → List ℕ → ℕ × World
  try_decode_at_front w accum =
      let a = get_or accum 0 0 in
      let b = get_or accum 1 0 in
      if ltb (length accum) 2
      then (0, w)
      else if a == 0x00 && b == 0x10
      then if ltb (length accum) 7
        then (0, w)
        else if fc10_header accum
        then match_frame fc10_len decode_fc10 w accum
        else (1, w)
      else if a == 0x00 && b == 0x06
      then match_frame fc06_len decode_fc06 w accum
      else (1, w)

  -- `panel_mirror_feed`
  unfoldable pub mirror_feed : Accum → World → List ℕ → Accum × World
  mirror_feed = feed try_decode_at_front accum_size
