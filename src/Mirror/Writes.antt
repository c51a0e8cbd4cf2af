-- ===== src/Mirror/Writes.antt =====
-- Single-register writes that reach src/panel_mirror.c, and the counter table over whole streams.
use flexit_cs60_control.Shared.{
  ℕ, ◌+◌, ◌≤◌, ◌<◌, ◌≡◌, ◌≢◌, refl, ap, ap₂, ◌∙◌, ◌⊎◌, inl, inr, List, [], ◌++◌, arith, length,
  Below, be16, ltb, Bool-cases,
}
use flexit_cs60_control.Platform.{Platform}
use flexit_cs60_control.Accum.{Accum, contents}
use flexit_cs60_control.Accum.Buffer.{IsValid}
use flexit_cs60_control.Accum.Loop.{view}
use flexit_cs60_control.Accum.Chunks.{feed-append}
use flexit_cs60_control.Accum.Keeps.{feed_keeps}
use flexit_cs60_control.Slave.Respond.{stamp}
use flexit_cs60_control.Mirror.{bump, counter_slots}
use flexit_cs60_control.Mirror.Counters.{note_counter}
use flexit_cs60_control.Mirror.Search.{Missed}
use flexit_cs60_control.Mirror.Table.{
  IsTable, Holds, IsOldest, note_counter_lem, note_counter-IsTable,
}
use flexit_cs60_control.Mirror.Decode.{
  World, accum_size, decode_fc06, decode_fc10, match_frame, try_decode_at_front, mirror_feed,
  bump_crc_failure,
}
use flexit_cs60_control.Mirror.Status.{apply_status}
use flexit_cs60_control.Mirror.Matcher.{
  Opening, status, counter, other, opened, respond, decode_kind, decode_short, matcher-IsDecoder,
}
use flexit_cs60_control.Mirror.Reception.{counter_frame, counter_decoded, served}

module _ (p : Platform) where
  counter_words :
      (addr value : ℕ)
      → addr < 65536
      → value < 65536
      → (be16 (counter_frame p addr value) 2 ≡ addr) × (be16 (counter_frame p addr value) 4 ≡ value)
  unfolding counter_frame stamp
  counter_words addr value ha hv = omega arith

  -- A single-register write that arrives between frames is entered in the counter table at the
  -- clock's time and counted; nothing else enters the table, and another address leaves it only if
  -- the table was full without the written one and that entry was as old as any.
  pub counter_received :
      (a : Accum) (w : World) (addr value : ℕ)
      → IsValid accum_size a
      → contents a ≡ []
      → addr < 65536
      → value < 65536
      → IsTable w.state.counters
      → let (a', w') = mirror_feed p a w (counter_frame p addr value) in
        (contents a' ≡ [])
        × (w'.state.fc06_frames ≡ bump w.state.fc06_frames)
        × (w'.state.last_fc10_uptime_ms ≡ w.state.last_fc10_uptime_ms)
        × IsTable w'.state.counters
        × Holds w'.state.counters addr value (p.uptime w.calls)
        × ((b v m : ℕ) → b ≢ addr → Holds w'.state.counters b v m → Holds w.state.counters b v m)
        × ((b v m : ℕ)
            → b ≢ addr
            → Holds w.state.counters b v m
            → Holds w'.state.counters b v m
              ⊎ (Missed addr w.state.counters counter_slots × IsOldest w.state.counters m))
  unfolding decode_fc06
  counter_received a w addr value v e ha hv table =
      let frame = counter_frame p addr value in
      let now = p.uptime w.calls in
      let size : length frame ≡ 8 = unfold counter_frame stamp in refl in
      let done =
        served p a w frame (decode_fc06 p) v e (omega arith) (omega arith)
          (counter_decoded p w addr value) in
      let after : (mirror_feed p a w frame).1 ≡ decode_fc06 p frame w =
        ap (λ (t : List ℕ × World). t.1) done in
      let entered : (mirror_feed p a w frame).1.state.counters
          ≡ note_counter addr value now w.state.counters =
        ap (λ (t : World). t.state.counters) after
        ∙ ap₂ (λ x y. note_counter x y now w.state.counters) (counter_words addr value ha hv).0
            (counter_words addr value ha hv).1 in
      let noted = note_counter_lem addr value now w.state.counters table in
      (
        ap (λ (t : List ℕ × World). t.0) done,
        ap (λ (t : World). t.state.fc06_frames) after,
        ap (λ (t : World). t.state.last_fc10_uptime_ms) after,
        rw entered noted.0,
        rw entered noted.1,
        rw entered noted.2,
        rw entered noted.3,
      )

  respond-IsTable :
      (o : Opening) (w : World) (xs : List ℕ)
      → IsTable w.state.counters
      → IsTable (respond p o w xs).1.state.counters
  unfolding respond match_frame decode_fc06 decode_fc10 apply_status bump_crc_failure
  respond-IsTable status w xs h = ground arith
  respond-IsTable counter w xs h =
      ground
        (arith, note_counter-IsTable (be16 xs 2) (be16 xs 4) (p.uptime w.calls) w.state.counters h)
  respond-IsTable other w xs h = h

  decode-IsTable :
      (w : World) (xs : List ℕ)
      → Below 256 xs
      → IsTable w.state.counters
      → IsTable (try_decode_at_front p w xs).1.state.counters
  decode-IsTable w xs b h = elim (Bool-cases (ltb (length xs) 2)) [
    | inl e ↦ rw (decode_short p w xs (ground arith)) h
    | inr e ↦ rw (decode_kind p w xs (ground arith)) (respond-IsTable (opened xs) w xs h)
  ]

  -- Whatever bytes arrive, the counter table keeps eight slots and no address twice.
  pub mirror_feed-IsTable :
      (a : Accum) (w : World) (src : List ℕ)
      → IsValid accum_size a
      → Below 256 (contents a)
      → Below 256 src
      → IsTable w.state.counters
      → IsTable (mirror_feed p a w src).1.state.counters
  unfolding mirror_feed
  mirror_feed-IsTable a w src v ba bs h =
      (feed_keeps (try_decode_at_front p) (λ (w : World). IsTable w.state.counters) decode-IsTable
        (matcher-IsDecoder p) v w src ba bs h).1

  -- It does not matter how the stream is cut into feeds, as long as it fits the accumulator.
  pub mirror_feed-append :
      (a : Accum) (w : World) (xs ys : List ℕ)
      → IsValid accum_size a
      → length (contents a) + length xs + length ys ≤ accum_size
      → (let (a', w') = mirror_feed p a w xs in
          view (try_decode_at_front p) (mirror_feed p a' w' ys))
        ≡ view (try_decode_at_front p) (mirror_feed p a w (xs ++ ys))
  unfolding mirror_feed
  mirror_feed-append a w xs ys v h = feed-append (matcher-IsDecoder p) w xs ys v h
