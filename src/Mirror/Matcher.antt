-- ===== src/Mirror/Matcher.antt =====
-- The frame matcher of src/panel_mirror.c as a decoder for the accumulator's loop.
use flexit_cs60_control.Shared.{
  ℕ, ◌+◌, ◌-◌, ◌*◌, ◌≤◌, ◌<◌, ◌≡◌, ◌≢◌, refl, ap, inl, inr, ◌&&◌, List, ◌++◌, arith, length, get_or,
  ltb, ◌==◌, if◌then◌else◌, be16-append, get_or-append, take-append, length-append, Bool-cases,
}
use flexit_cs60_control.Platform.{Platform}
use flexit_cs60_control.Accum.Loop.{IsDecoder}
use flexit_cs60_control.Mirror.{State}
use flexit_cs60_control.Mirror.Status.{apply_status, alarm_bits}
use flexit_cs60_control.Mirror.Decode.{
  World, crc_ok, decode_fc10, decode_fc06, match_frame, fc10_header, try_decode_at_front, fc10_len,
  fc06_len,
}

-- What two bytes open.
pub data Opening : Type 0 where
  status counter other : Opening

unfoldable pub opened : List ℕ → Opening
opened xs =
    let a = get_or xs 0 0 in
    let b = get_or xs 1 0 in
    if a == 0x00 && b == 0x10 then status else if a == 0x00 && b == 0x06 then counter else other

opened-append : (xs ys : List ℕ) → 2 ≤ length xs → opened (xs ++ ys) ≡ opened xs
unfolding opened
opened-append xs ys h = rw (get_or-append xs ys 0 0 (omega arith), get_or-append xs ys 1 0 h)

fc10_header-append : (xs ys : List ℕ) → 7 ≤ length xs → fc10_header (xs ++ ys) ≡ fc10_header xs
unfolding fc10_header
fc10_header-append xs ys h = rw (
  get_or-append xs ys 2 0 (omega arith),
  get_or-append xs ys 3 0 (omega arith),
  get_or-append xs ys 4 0 (omega arith),
  get_or-append xs ys 5 0 (omega arith),
  get_or-append xs ys 6 0 (omega arith),
)

apply_status-append :
    (xs ys : List ℕ) (now : ℕ) (s : State)
    → fc10_len ≤ length xs
    → apply_status (xs ++ ys) now s ≡ apply_status xs now s
unfolding apply_status alarm_bits
apply_status-append xs ys now s h = rw (
  be16-append xs ys 7 (omega arith),
  be16-append xs ys 9 (omega arith),
  be16-append xs ys 11 (omega arith),
  be16-append xs ys 13 (omega arith),
  be16-append xs ys 15 (omega arith),
  be16-append xs ys 17 (omega arith),
  be16-append xs ys 19 (omega arith),
  be16-append xs ys 21 (omega arith),
  be16-append xs ys 23 (omega arith),
  be16-append xs ys 25 (omega arith),
  be16-append xs ys 27 (omega arith),
  be16-append xs ys 29 (omega arith),
  be16-append xs ys 31 (omega arith),
  be16-append xs ys 147 (omega arith),
  be16-append xs ys 151 (omega arith),
  be16-append xs ys 155 (omega arith),
  be16-append xs ys 161 (omega arith),
  be16-append xs ys 163 (omega arith),
)

module _ (p : Platform) where
  crc_ok-append :
      (xs ys : List ℕ) (len : ℕ)
      → 2 ≤ len
      → len ≤ length xs
      → crc_ok p (xs ++ ys) len ≡ crc_ok p xs len
  unfolding crc_ok
  crc_ok-append xs ys len two h =
      rw (take-append (len - 2) xs ys (omega arith), be_le (len - 2) (omega arith))
    where
      be_le :
          (i : ℕ)
          → i + 1 < length xs
          → get_or (xs ++ ys) (i + 1) 0 * 256 + get_or (xs ++ ys) i 0
            ≡ get_or xs (i + 1) 0 * 256 + get_or xs i 0
      be_le i k =
          omega (arith, get_or-append xs ys i 0 (omega arith), get_or-append xs ys (i + 1) 0 k)

  decode_fc10-append :
      (w : World) (xs ys : List ℕ)
      → fc10_len ≤ length xs
      → decode_fc10 p (xs ++ ys) w ≡ decode_fc10 p xs w
  unfolding decode_fc10
  decode_fc10-append w xs ys h = rw (apply_status-append xs ys (p.uptime w.calls) w.state h)

  decode_fc06-append :
      (w : World) (xs ys : List ℕ)
      → fc06_len ≤ length xs
      → decode_fc06 p (xs ++ ys) w ≡ decode_fc06 p xs w
  unfolding decode_fc06
  decode_fc06-append w xs ys h =
      rw (be16-append xs ys 2 (omega arith), be16-append xs ys 4 (omega arith))

  -- What the matcher does with bytes that open so.
  unfoldable pub respond : Opening → World → List ℕ → ℕ × World
  respond status w xs =
      if ltb (length xs) 7
      then (0, w)
      else if fc10_header xs
      then match_frame p fc10_len (decode_fc10 p) w xs
      else (1, w)
  respond counter w xs = match_frame p fc06_len (decode_fc06 p) w xs
  respond other w xs = (1, w)

  pub decode_kind :
      (w : World) (xs : List ℕ)
      → 2 ≤ length xs
      → try_decode_at_front p w xs ≡ respond (opened xs) w xs
  unfolding try_decode_at_front respond opened
  decode_kind w xs h = ground arith

  pub decode_short : (w : World) (xs : List ℕ) → length xs < 2 → try_decode_at_front p w xs ≡ (0, w)
  unfolding try_decode_at_front
  decode_short w xs h = ground arith

  respond_bounded :
      (o : Opening) (w : World) (xs : List ℕ) → 2 ≤ length xs → (respond o w xs).0 ≤ length xs
  unfolding respond match_frame
  respond_bounded status w xs h = ground arith
  respond_bounded counter w xs h = ground arith
  respond_bounded other w xs h = omega arith

  respond_patient :
      (o : Opening) (w : World) (xs : List ℕ) → (respond o w xs).0 ≡ 0 → (respond o w xs).1 ≡ w
  unfolding respond match_frame
  respond_patient status w xs h = ground arith
  respond_patient counter w xs h = ground arith
  respond_patient other w xs h = refl

  respond_stable :
      (o : Opening) (w : World) (xs ys : List ℕ)
      → (respond o w xs).0 ≢ 0
      → respond o w (xs ++ ys) ≡ respond o w xs
  unfolding respond match_frame
  respond_stable status w xs ys h = ground (
    arith,
    decode_fc10-append w xs ys,
    fc10_header-append xs ys,
    crc_ok-append xs ys fc10_len,
    length-append xs ys,
  )
  respond_stable counter w xs ys h =
      ground (arith, decode_fc06-append w xs ys, crc_ok-append xs ys fc06_len, length-append xs ys)
  respond_stable other w xs ys h = refl

  -- The matcher fits the accumulator's loop.
  pub matcher-IsDecoder : IsDecoder (try_decode_at_front p)
  matcher-IsDecoder = record { bounded = bounded; patient = patient; stable = stable }
    where
      bounded : (w : World) (xs : List ℕ) → (try_decode_at_front p w xs).0 ≤ length xs
      bounded w xs = elim (Bool-cases (ltb (length xs) 2)) [
        | inl e ↦ rw (decode_short w xs (ground arith)) (omega arith)
        | inr e ↦ rw (decode_kind w xs (ground arith)) (respond_bounded _ w xs (ground arith))
      ]

      patient :
          (w : World) (xs : List ℕ)
          → (try_decode_at_front p w xs).0 ≡ 0
          → (try_decode_at_front p w xs).1 ≡ w
      patient w xs h = elim (Bool-cases (ltb (length xs) 2)) [
        | inl e ↦ rw (decode_short w xs (ground arith))
        | inr e ↦
            let kind = decode_kind w xs (ground arith) in
            rw kind (respond_patient _ w xs (rw kind at h))
      ]

      stable :
          (w : World) (xs ys : List ℕ)
          → (try_decode_at_front p w xs).0 ≢ 0
          → try_decode_at_front p w (xs ++ ys) ≡ try_decode_at_front p w xs
      stable w xs ys h = elim (Bool-cases (ltb (length xs) 2)) [
        | inl e ↦ absurd (h (ap (λ (r : ℕ × World). r.0) (decode_short w xs (ground arith))))
        | inr e ↦
            let kind = decode_kind w xs (ground arith) in
            let long : 2 ≤ length (xs ++ ys) = ground (arith, length-append xs ys) in
            rw (decode_kind w (xs ++ ys) long, kind, opened-append xs ys (ground arith))
              (respond_stable _ w xs ys (rw kind at h))
      ]
