-- ===== src/Slave/Matcher.antt =====
-- The frame matcher of src/flexit_slave.c as a decoder for the accumulator's loop.
use flexit_cs60_control.Shared.{
  ℕ, ◌≤◌, ◌<◌, ◌≡◌, ◌≢◌, refl, ap, inl, inr, ◌&&◌, Option, none, some, List, ◌++◌, arith, length,
  get_or, ltb, ◌==◌, if◌then◌else◌, Bool-cases, get_or-append, be16-append, take-append,
  length-append,
}
use flexit_cs60_control.Platform.{Platform}
use flexit_cs60_control.Accum.Loop.{IsDecoder}
use flexit_cs60_control.Slave.{slave_addr}
use flexit_cs60_control.Slave.Handle.{
  World, Send, handle_fc01_request, handle_fc03_request, handle_fc04_request, handle_fc65_broadcast,
}
use flexit_cs60_control.Slave.Decode.{crc_ok, match_frame, try_decode_at_front, fc_req_len}

-- The four kinds of frame that the slave acts on.
pub data Request : Type 0 where
  read_coils read_holding read_input ack : Request

-- The first two bytes of each kind.
abbrev pub opens : Request → ℕ × ℕ
opens read_coils = (slave_addr, 0x01)
opens read_holding = (slave_addr, 0x03)
opens read_input = (slave_addr, 0x04)
opens ack = (0x00, 0x65)

-- The request that two bytes open.
unfoldable pub anchored : ℕ → ℕ → Option Request
anchored a b =
    if a == slave_addr && b == 0x01
    then some read_coils
    else if a == slave_addr && b == 0x03
    then some read_holding
    else if a == slave_addr && b == 0x04
    then some read_input
    else if a == 0x00 && b == 0x65
    then some ack
    else none

-- The request that a list of bytes opens.
unfoldable pub opened : List ℕ → Option Request
opened xs = anchored (get_or xs 0 0) (get_or xs 1 0)

opened-append : (xs ys : List ℕ) → 2 ≤ length xs → opened (xs ++ ys) ≡ opened xs
unfolding opened
opened-append xs ys h = rw (get_or-append xs ys 0 0 (omega arith), get_or-append xs ys 1 0 h)

module _ (p : Platform) (send : Send) where
  abbrev pub handler : Request → List ℕ → World → World
  handler read_coils = handle_fc01_request p send
  handler read_holding = handle_fc03_request p send
  handler read_input = handle_fc04_request p send
  handler ack = handle_fc65_broadcast p send

  -- What the matcher does with bytes that open a frame of that kind, or of none.
  unfoldable pub respond : Option Request → World → List ℕ → ℕ × World
  respond none w xs = (1, w)
  respond (some k) w xs = match_frame p (handler k) w xs

  -- The matcher's chain of tests picks the frame that the first two bytes open.
  pub decode_kind :
      (w : World) (xs : List ℕ)
      → 2 ≤ length xs
      → try_decode_at_front p send w xs ≡ respond (opened xs) w xs
  unfolding try_decode_at_front respond opened anchored
  decode_kind w xs h = ground arith

  pub decode_short :
      (w : World) (xs : List ℕ) → length xs < 2 → try_decode_at_front p send w xs ≡ (0, w)
  unfolding try_decode_at_front
  decode_short w xs h = ground arith

  handler-append :
      (k : Request) (w : World) (xs ys : List ℕ)
      → fc_req_len ≤ length xs
      → handler k (xs ++ ys) w ≡ handler k xs w
  unfolding handle_fc01_request handle_fc03_request handle_fc04_request handle_fc65_broadcast
  handler-append read_coils w xs ys h =
      rw (be16-append xs ys 2 (omega arith), be16-append xs ys 4 (omega arith))
  handler-append read_holding w xs ys h =
      rw (be16-append xs ys 2 (omega arith), be16-append xs ys 4 (omega arith))
  handler-append read_input w xs ys h =
      rw (be16-append xs ys 2 (omega arith), be16-append xs ys 4 (omega arith))
  handler-append ack w xs ys h =
      rw (be16-append xs ys 2 (omega arith), be16-append xs ys 4 (omega arith))

  crc_ok-append :
      (xs ys : List ℕ)
      → fc_req_len ≤ length xs
      → crc_ok p (xs ++ ys) fc_req_len ≡ crc_ok p xs fc_req_len
  unfolding crc_ok
  crc_ok-append xs ys h = rw (
    take-append 6 xs ys (omega arith),
    get_or-append xs ys 6 0 (omega arith),
    get_or-append xs ys 7 0 (omega arith),
  )

  respond_bounded :
      (o : Option Request) (w : World) (xs : List ℕ)
      → 2 ≤ length xs
      → (respond o w xs).0 ≤ length xs
  unfolding respond match_frame
  respond_bounded none w xs h = omega arith
  respond_bounded (some k) w xs h = ground arith

  respond_patient :
      (o : Option Request) (w : World) (xs : List ℕ)
      → (respond o w xs).0 ≡ 0
      → (respond o w xs).1 ≡ w
  unfolding respond match_frame
  respond_patient none w xs h = refl
  respond_patient (some k) w xs h = ground arith

  respond_stable :
      (o : Option Request) (w : World) (xs ys : List ℕ)
      → (respond o w xs).0 ≢ 0
      → respond o w (xs ++ ys) ≡ respond o w xs
  unfolding respond match_frame
  respond_stable none w xs ys h = refl
  respond_stable (some k) w xs ys h =
      ground (arith, handler-append k w xs ys, crc_ok-append xs ys, length-append xs ys)

  -- The matcher fits the accumulator's loop.
  pub matcher-IsDecoder : IsDecoder (try_decode_at_front p send)
  matcher-IsDecoder = record { bounded = bounded; patient = patient; stable = stable }
    where
      bounded : (w : World) (xs : List ℕ) → (try_decode_at_front p send w xs).0 ≤ length xs
      bounded w xs = elim (Bool-cases (ltb (length xs) 2)) [
        | inl e ↦ rw (decode_short w xs (ground arith)) (omega arith)
        | inr e ↦ rw (decode_kind w xs (ground arith)) (respond_bounded _ w xs (ground arith))
      ]

      patient :
          (w : World) (xs : List ℕ)
          → (try_decode_at_front p send w xs).0 ≡ 0
          → (try_decode_at_front p send w xs).1 ≡ w
      patient w xs h = elim (Bool-cases (ltb (length xs) 2)) [
        | inl e ↦ rw (decode_short w xs (ground arith))
        | inr e ↦
            let kind = decode_kind w xs (ground arith) in
            rw kind (respond_patient _ w xs (rw kind at h))
      ]

      stable :
          (w : World) (xs ys : List ℕ)
          → (try_decode_at_front p send w xs).0 ≢ 0
          → try_decode_at_front p send w (xs ++ ys) ≡ try_decode_at_front p send w xs
      stable w xs ys h = elim (Bool-cases (ltb (length xs) 2)) [
        | inl e ↦ absurd (h (ap (λ (r : ℕ × World). r.0) (decode_short w xs (ground arith))))
        | inr e ↦
            let kind = decode_kind w xs (ground arith) in
            let long : 2 ≤ length (xs ++ ys) = ground (arith, length-append xs ys) in
            rw (decode_kind w (xs ++ ys) long, kind, opened-append xs ys (ground arith))
              (respond_stable _ w xs ys (rw kind at h))
      ]
