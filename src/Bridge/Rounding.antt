-- ===== src/Bridge/Rounding.antt =====
-- What src/zigbee_ep.c makes of the float in a client's write of a setpoint, over the values that
-- IEEE 754 gives to floats.
use flexit_cs60_control.Shared.{
  ℕ, zero, suc, ◌+◌, ◌-◌, ◌*◌, ◌/◌, ◌^◌, ◌≤◌, ◌<◌, ◌≡◌, refl, ap, sym, subst, ◌∙◌, ◌⊎◌, inl, inr,
  not, Bool, true, ◌||◌, arith, ◌==◌, coil, if◌then◌else◌, Bool-cases,
}
use flexit_cs60_control.Shared.Int.{ℤ, pos, negsuc, pos_part, neg_part, ltb_ℤ, ◌≤ℤ◌}
use flexit_cs60_control.Slave
use flexit_cs60_control.Slave.{IsValid, cmd_setpoint}
use flexit_cs60_control.Slave.Commands.{reg}
use flexit_cs60_control.Zigbee.{Floats, State, setpoint_write_hold_ms}
use flexit_cs60_control.Zigbee.Write.{zcl_device_cb, setpoint_written, nearest, clamp_setpoint}
use flexit_cs60_control.Bridge.{bridge_init}
use flexit_cs60_control.Bridge.Commands.{setpoint_write_lem}

-- The smallest positive float is 2 ^ -149, and a finite float is a whole number of such parts.

-- -n
abbrev pub minus : ℕ → ℤ
minus zero = pos 0
minus (suc n) = negsuc n

-- The whole number of a number of parts, rounded toward zero.
abbrev pub toward_zero : ℤ → ℤ
toward_zero (pos n) = pos (n / 2 ^ 149)
toward_zero (negsuc n) = minus ((n + 1) / 2 ^ 149)

-- `a + b` is `c`.
abbrev pub IsSum : ℤ → ℤ → ℤ → Type 0
IsSum a b c = pos_part a + pos_part b + neg_part c ≡ pos_part c + neg_part a + neg_part b

-- Less than `n` away from 0.
abbrev pub IsBelow : ℕ → ℤ → Type 0
IsBelow n z = pos_part z + neg_part z < n

-- `value` gives the parts of a float that is `finite`. A sum of such floats that is one is exact,
-- and a conversion to int32_t that the type holds rounds toward zero.
pub record IsBinary32 {F : Type 0} (f : Floats F) (finite : F → Bool) (value : F → ℤ) : Type 0 where
  pub half_value : value f.half ≡ pos (2 ^ 148)
  pub half_finite : finite f.half ≡ true
  pub minus_half_value : value f.minus_half ≡ negsuc (2 ^ 148 - 1)
  pub minus_half_finite : finite f.minus_half ≡ true
  pub is_nonneg_lem : (x : F) → finite x ≡ true → f.is_nonneg x ≡ not (ltb_ℤ (value x) (pos 0))
  pub add_exact :
      (x y z : F)
      → finite x ≡ true
      → finite y ≡ true
      → finite z ≡ true
      → IsSum (value x) (value y) (value z)
      → (finite (f.add x y) ≡ true) × (value (f.add x y) ≡ value z)
  pub trunc_lem :
      (x : F)
      → finite x ≡ true
      → IsBelow (2 ^ 31 * 2 ^ 149) (value x)
      → f.trunc x ≡ toward_zero (value x)

-- `n` is the whole number between 100 and 300 that is nearest to a number of parts.
pub record IsNearest (z : ℤ) (n : ℕ) : Type 0 where
  pub low : 100 ≤ n
  pub high : n ≤ 300
  pub near :
      ((z ≤ℤ pos (100 * 2 ^ 149)) × (n ≡ 100))
      ⊎ (((pos (300 * 2 ^ 149) ≤ℤ z) × (n ≡ 300))
          ⊎ ((z ≤ℤ pos (n * 2 ^ 149 + 2 ^ 148))
              × (pos (n * 2 ^ 149) ≤ℤ pos (pos_part z + 2 ^ 148))))

-- The half that is added.
abbrev pub half_of : {F : Type 0} → Floats F → (F → ℤ) → F → F
half_of f value x = if ltb_ℤ (value x) (pos 0) then f.minus_half else f.half

-- As `clamp_setpoint` does.
abbrev clamped : ℤ → ℤ
clamped dc = if ltb_ℤ dc (pos 100) then pos 100 else if ltb_ℤ (pos 300) dc then pos 300 else dc

nearest_up : (m n : ℕ) → pos n ≡ clamped (pos ((m + 2 ^ 148) / 2 ^ 149)) → IsNearest (pos m) n
nearest_up m n e = record {
  low = ground (arith, e);
  high = ground (arith, e);
  near = ground (arith, e);
}

clamped-minus : (k : ℕ) → clamped (minus k) ≡ pos 100
clamped-minus zero = refl
clamped-minus (suc k) = ground arith

pos_value : (m n : ℕ) → pos m ≡ pos n → m ≡ n
pos_value m n e = ap pos_part e

nearest_down : (m n : ℕ) → pos n ≡ pos 100 → IsNearest (negsuc m) n
nearest_down m n e =
    let floor : n ≡ 100 = pos_value n 100 e in
    record {
      low = omega (arith, floor);
      high = omega (arith, floor);
      near = inl (omega arith, floor);
    }

-- The sum of a value and its half, rounded toward zero and clamped.
rounds :
    (z s : ℤ) (n : ℕ)
    → IsSum z (if ltb_ℤ z (pos 0) then negsuc (2 ^ 148 - 1) else pos (2 ^ 148)) s
    → pos n ≡ clamped (toward_zero s)
    → IsNearest z n
rounds (pos m) (pos k) n e c =
    let sum : m + 2 ^ 148 ≡ k = ground (arith, e) in
    nearest_up m n (c ∙ ap (λ t. clamped (pos (t / 2 ^ 149))) (sym sum))
rounds (pos m) (negsuc k) n e c = absurd (ground (arith, e))
rounds (negsuc m) (pos k) n e c = absurd (ground (arith, e))
rounds (negsuc m) (negsuc k) n e c = nearest_down m n (c ∙ clamped-minus ((k + 1) / 2 ^ 149))

module _ {F : Type 0} (f : Floats F) (finite : F → Bool) (value : F → ℤ)
    (laws : IsBinary32 f finite value) where
  half_value_lem :
      (x : F)
      → value (half_of f value x)
        ≡ (if ltb_ℤ (value x) (pos 0) then negsuc (2 ^ 148 - 1) else pos (2 ^ 148))
  half_value_lem x = elim (Bool-cases (ltb_ℤ (value x) (pos 0))) [
    | inl e ↦ rw e laws.minus_half_value
    | inr e ↦ rw e laws.half_value
  ]

  half_of-finite : (x : F) → finite (half_of f value x) ≡ true
  half_of-finite x = elim (Bool-cases (ltb_ℤ (value x) (pos 0))) [
    | inl e ↦ rw e laws.minus_half_finite
    | inr e ↦ rw e laws.half_finite
  ]

  half_chosen :
      (x : F)
      → finite x ≡ true
      → (if f.is_nonneg x then f.half else f.minus_half) ≡ half_of f value x
  half_chosen x real = elim (Bool-cases (ltb_ℤ (value x) (pos 0))) [
    | inl e ↦ rw (laws.is_nonneg_lem x real, e) refl
    | inr e ↦ rw (laws.is_nonneg_lem x real, e) refl
  ]

  nearest_lem :
      (x sum : F)
      → finite x ≡ true
      → finite sum ≡ true
      → IsSum (value x) (value (half_of f value x)) (value sum)
      → IsBelow (2 ^ 31 * 2 ^ 149) (value sum)
      → nearest f x ≡ toward_zero (value sum)
  unfolding nearest
  nearest_lem x sum real sum_real exact small =
      let (added_real, added) =
        laws.add_exact x (half_of f value x) sum real (half_of-finite x) sum_real exact in
      ap (λ h. f.trunc (f.add x h)) (half_chosen x real)
      ∙ laws.trunc_lem (f.add x (half_of f value x)) added_real
          (subst (IsBelow (2 ^ 31 * 2 ^ 149)) (sym added) small)
      ∙ ap toward_zero added

  -- A client's write of a setpoint raises coil 12 over a register 12 that holds the whole tenth of a
  -- degree nearest to the float that was written, kept between 10 and 30 degrees, leaves the other
  -- coils and registers alone and starts the hold. The float is finite, its sum with the half is
  -- a float, and an int32_t holds it.
  pub setpoint_write_rounds :
      (z : State F Slave.State) (s : Slave.State)
      → IsValid s
      → (data32 now i : ℕ) (sum : F) → finite (f.from_word data32) ≡ true
      → finite sum ≡ true
      → IsSum
          (value (f.from_word data32))
          (value (half_of f value (f.from_word data32)))
          (value sum)
      → IsBelow (2 ^ 31 * 2 ^ 149) (value sum)
      → let (z', t) = zcl_device_cb f (setpoint_written data32) now (bridge_init z, s) in
        (z'.pending.setpoint_hold_until ≡ now + setpoint_write_hold_ms)
        × (coil t.coils i ≡ (cmd_setpoint == i || coil s.coils i))
        × IsNearest (value (f.from_word data32)) (reg t cmd_setpoint)
        × (reg t i ≡ (if cmd_setpoint == i then reg t cmd_setpoint else reg s i))
  unfolding clamp_setpoint
  setpoint_write_rounds z s v data32 now i sum real sum_real exact small =
      let x = f.from_word data32 in
      let (held, raised, written, low, high, others) = setpoint_write_lem f z s v data32 now i in
      (
        held,
        raised,
        rounds (value x) (value sum) _
            (subst (λ h. IsSum (value x) h (value sum)) (half_value_lem x) exact)
            (written ∙ ap clamped (nearest_lem x sum real sum_real exact small)),
        elim (Bool-cases (cmd_setpoint == i)) [
          | inl e ↦ rw e (
              ap (reg (zcl_device_cb f (setpoint_written data32) now (bridge_init z, s)).1)
                (ground (arith, e)))
          | inr e ↦ rw e (others e)
        ],
      )
