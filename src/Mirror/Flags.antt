-- ===== src/Mirror/Flags.antt =====
-- The two bit masks of src/panel_mirror.c, bit by bit.
use flexit_cs60_control.Shared.{
  ℕ, ◌^◌, ◌<◌, ◌≡◌, refl, inl, inr, not, ◌||◌, ◌&&◌, List, arith, ◌==◌, be16, has_bit, has_bit-or,
  has_bit_zero, bit_or-lt, Bool-cases,
}
use flexit_cs60_control.Shared.Int.{ℤ, ltb_ℤ}
use flexit_cs60_control.Mirror.Status.{
  or_if_nonzero, alarm_bits, sensor_bits, temp_sentinel_max_x10,
}

-- One conditional `|=` sets its own bit and leaves the others.
raised :
    (word k mask j : ℕ)
    → k < 8
    → j < 8
    → mask < 256
    → has_bit (or_if_nonzero word (2 ^ k) mask) j ≡ (not (word == 0) && k == j || has_bit mask j)
raised word k mask j hk hj hm = ground (arith, has_bit-or k j mask hk hj hm)

raised-lt : (word k mask : ℕ) → k < 8 → mask < 256 → or_if_nonzero word (2 ^ k) mask < 256
raised-lt word k mask hk hm = ground (arith, bit_or-lt k mask hk hm)

-- Every bit of the alarm mask is up exactly where its register is not 0, and no other bit is.
pub alarm_bits_lem :
    (frame : List ℕ) (j : ℕ)
    → j < 8
    → has_bit (alarm_bits frame) j ≡ (
        j == 0 && not (be16 frame 147 == 0)
        || j == 1 && not (be16 frame 151 == 0)
        || j == 2 && not (be16 frame 155 == 0)
        || j == 3 && not (be16 frame 161 == 0)
        || j == 4 && not (be16 frame 163 == 0))
unfolding alarm_bits
alarm_bits_lem frame j h =
    let m0 = or_if_nonzero (be16 frame 147) 0x01 0 in
    let m1 = or_if_nonzero (be16 frame 151) 0x02 m0 in
    let m2 = or_if_nonzero (be16 frame 155) 0x04 m1 in
    let m3 = or_if_nonzero (be16 frame 161) 0x08 m2 in
    let l0 = raised-lt (be16 frame 147) 0 0 (omega arith) (omega arith) in
    let l1 = raised-lt (be16 frame 151) 1 m0 (omega arith) l0 in
    let l2 = raised-lt (be16 frame 155) 2 m1 (omega arith) l1 in
    let l3 = raised-lt (be16 frame 161) 3 m2 (omega arith) l2 in
    ground (
      arith,
      has_bit_zero j h,
      raised (be16 frame 147) 0 0 j (omega arith) h (omega arith),
      raised (be16 frame 151) 1 m0 j (omega arith) h l0,
      raised (be16 frame 155) 2 m1 j (omega arith) h l1,
      raised (be16 frame 161) 3 m2 j (omega arith) h l2,
      raised (be16 frame 163) 4 m3 j (omega arith) h l3,
    )

-- A sensor is present where its temperature lies above the sentinel range.
pub sensor_bits_lem :
    (extract return_water : ℤ)
    → (has_bit (sensor_bits extract return_water) 0 ≡ ltb_ℤ temp_sentinel_max_x10 extract)
      × (has_bit (sensor_bits extract return_water) 1 ≡ ltb_ℤ temp_sentinel_max_x10 return_water)
unfolding sensor_bits has_bit
sensor_bits_lem extract return_water = elim (Bool-cases (ltb_ℤ temp_sentinel_max_x10 extract)) [
  | inl e ↦ elim (Bool-cases (ltb_ℤ temp_sentinel_max_x10 return_water)) [
    | inl r ↦ rw (e, r) (refl, refl)
    | inr r ↦ rw (e, r) (refl, refl)
  ]
  | inr e ↦ elim (Bool-cases (ltb_ℤ temp_sentinel_max_x10 return_water)) [
    | inl r ↦ rw (e, r) (refl, refl)
    | inr r ↦ rw (e, r) (refl, refl)
  ]
]
