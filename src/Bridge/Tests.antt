-- ===== src/Bridge/Tests.antt =====
-- src/flexit_bridge.c and src/zigbee_ep.c on concrete values. A float is a whole number here, in
-- tenths: enough for the values that the program converts.
use flexit_cs60_control.Shared.{
  All, Bool, not, suc, ltb, if◌then◌else◌, ◌^◌, ◌-◌, ℕ, ◌+◌, ◌*◌, ◌/◌, ◌≡◌, refl, ap, true, false,
  List, [], ◌∷◌, ◌++◌, arith, replicate, set, coil,
}
use flexit_cs60_control.Shared.Int.{ℤ, pos, negsuc, pos_part, neg_part, ltb_ℤ}
use flexit_cs60_control.Accum.{Accum}
use flexit_cs60_control.Mirror
use flexit_cs60_control.Mirror.Decode.{World}
use flexit_cs60_control.Slave
use flexit_cs60_control.Slave.{init}
use flexit_cs60_control.Slave.Commands.{reg}
use flexit_cs60_control.Zigbee.Declared.{IsDeclared, publish_tick-IsDeclared}
use flexit_cs60_control.Zigbee.{Floats, State, boot, no_pending, set_setpoint}
use flexit_cs60_control.Zigbee.Shape.{IsShaped}
use flexit_cs60_control.Zigbee.Model.{
  ClusterId, basic_cluster, identify_cluster, fan_control_cluster, binary_input_cluster,
  temp_measurement_cluster, analog_input_cluster, analog_value_cluster,
}
use flexit_cs60_control.Zigbee.Publish.{
  Attr, measured_value, analog_value, publish_tick, temp_unknown,
}
use flexit_cs60_control.Zigbee.Write.{
  zcl_device_cb, handle_setpoint_write, fan_mode_written, setpoint_written,
}
use flexit_cs60_control.Zigbee.Ticks.{later_ticks, stale_once}
use flexit_cs60_control.Zigbee.Hold.{hold_lem, readback_overtakes_write}
use flexit_cs60_control.Bridge.{bridge_init}
use flexit_cs60_control.Bridge.Commands.{fan_mode_write_lem}
use flexit_cs60_control.Bridge.Rounding.{
  IsBinary32, IsNearest, minus, toward_zero, setpoint_write_rounds,
}

-- Tenths of a unit, not below 0.
abbrev tenths : Floats ℕ
tenths = record {
  of_int = λ z. elim z [ pos n ↦ n * 10 | negsuc n ↦ 0 ];
  tenth = λ x. x / 10;
  add = λ x y. x + y;
  half = 5;
  minus_half = 5;
  is_nonneg = λ x. true;
  trunc = λ x. pos (x / 10);
  from_word = λ n. n * 10;
}

abbrev endpoint : State ℕ Slave.State
endpoint = bridge_init (boot tenths)

endpoint-IsShaped : IsShaped (no_pending tenths)
endpoint-IsShaped = record {
  temp_cc = refl;
  temp_dirty = refl;
  temp_last_ms = refl;
  analog_val = refl;
  analog_dirty = refl;
  binary_val = refl;
  binary_dirty = refl;
}

abbrev ears : Accum × World
ears = (record { buf = replicate 256 0; len = 0 }, record { state = Mirror.boot; calls = 0 })

abbrev block : List ℕ
block =
    set (205 ∷ 2 ∷ 0 ∷ 0 ∷ 215 ∷ 192 ∷ 63537 ∷ 65486 ∷ 310 ∷ 0 ∷ 80 ∷ 15 ∷ 60 ∷ replicate 72 0) 78 1

abbrev status : Mirror.State
status = record Mirror.boot { fc10_frames = 7; temp_supply_air_x10 = pos 192; mode = 2 }

init-IsValid : Slave.IsValid init
init-IsValid = omega arith

fan_mode_write_lem_example :
    let (z', t) = zcl_device_cb tenths (fan_mode_written 2) 900 (bridge_init (boot tenths), init) in
    (z' ≡ bridge_init (boot tenths)) × (coil t.coils 0 ≡ true) × (reg t 0 ≡ 2)
fan_mode_write_lem_example = fan_mode_write_lem tenths (boot tenths) init init-IsValid 2 900 0

-- `p - q`
abbrev minus_by : ℕ → ℕ → ℤ
minus_by p q = if ltb p q then minus (q - p) else pos (p - q)

-- Numbers of 2 ^ -149ths that add up exactly; a word counts quarters.
abbrev exact : Floats ℤ
exact = record {
  of_int =
      λ z. elim z [ pos n ↦ pos (n * 2 ^ 149) | negsuc n ↦ negsuc (n * 2 ^ 149 + (2 ^ 149 - 1)) ];
  tenth = λ x. elim x [ pos n ↦ pos (n / 10) | negsuc n ↦ minus ((n + 1) / 10) ];
  add = λ x y. minus_by (pos_part x + pos_part y) (neg_part x + neg_part y);
  half = pos (2 ^ 148);
  minus_half = negsuc (2 ^ 148 - 1);
  is_nonneg = λ x. not (ltb_ℤ x (pos 0));
  trunc = toward_zero;
  from_word = λ n. pos (n * 2 ^ 147);
}

minus_by_lem : (p q : ℕ) (z : ℤ) → p + neg_part z ≡ pos_part z + q → minus_by p q ≡ z
minus_by_lem p q (pos n) e =
    let enough : ltb p q ≡ false = ground (arith, e) in rw enough (ap pos (omega (arith, e)))
minus_by_lem p q (negsuc n) e =
    let short : ltb p q ≡ true = ground (arith, e) in
    let d : q - p ≡ suc n = omega (arith, e) in rw short (ap minus d)

exact-IsBinary32 : IsBinary32 exact (λ x. true) (λ x. x)
exact-IsBinary32 = record {
  half_value = refl;
  half_finite = refl;
  minus_half_value = refl;
  minus_half_finite = refl;
  is_nonneg_lem = λ x real. refl;
  add_exact = λ x y z fx fy fz e.
      (refl, minus_by_lem (pos_part x + pos_part y) (neg_part x + neg_part y) z (omega (arith, e)));
  trunc_lem = λ x real h. refl;
}

-- 215.5 tenths, with 216 behind the half.
setpoint_write_rounds_example :
    let (z', t) = zcl_device_cb exact (setpoint_written 862) 900 (bridge_init (boot exact), init) in
    (z'.pending.setpoint_hold_until ≡ 5900)
    × (coil t.coils 12 ≡ true)
    × IsNearest (pos (862 * 2 ^ 147)) (reg t 12)
    × (reg t 12 ≡ reg t 12)
setpoint_write_rounds_example =
    setpoint_write_rounds exact (λ x. true) (λ x. x) exact-IsBinary32 (boot exact) init init-IsValid
      862 900 12 (pos (864 * 2 ^ 147)) refl refl refl (omega arith)

hold_lem_example :
    let q = (handle_setpoint_write tenths 2150 900 (boot tenths, init)).0.pending in
    set_setpoint tenths (pos 205) 1000 q ≡ q
hold_lem_example = hold_lem tenths 2150 900 1000 (pos 205) (boot tenths) init

abbrev latched : State ℕ Slave.State
latched = record (boot tenths) {
  pending = record (no_pending tenths) { setpoint_val = 2050; setpoint_dirty = true };
}

readback_overtakes_write_example :
    let z' = (handle_setpoint_write tenths 2150 900 (latched, init)).0 in
    (before : List (Attr ℕ)) × (after : List (Attr ℕ)) × ((publish_tick 1000 true z').1
      ≡ before ++ (analog_value 7 2050 ∷ []) ++ after)
readback_overtakes_write_example =
    readback_overtakes_write tenths 2150 900 1000 true latched init refl

-- A supply temperature that was shown at 1000 ms.
abbrev heard : State ℕ Slave.State
heard = record (boot tenths) {
  pending = record (no_pending tenths) { temp_last_ms = 1000 ∷ [] };
  temp_stale = false ∷ [];
}

stale_once_example :
    let (z', attrs) = publish_tick 61001 true heard in
    (z'.temp_stale ≡ true ∷ [])
    × ((rest : List (Attr ℕ)) × (attrs ≡ measured_value 2 temp_unknown ∷ rest))
    × All (λ attrs. attrs ≡ []) (later_ticks (90000 ∷ 90250 ∷ []) true z')
stale_once_example =
    stale_once 61001 (90000 ∷ 90250 ∷ []) true heard refl refl (omega arith) (omega arith)

-- The two clusters whose own descriptors report.
abbrev own_reports : ClusterId → Bool
own_reports basic_cluster = false
own_reports identify_cluster = false
own_reports fan_control_cluster = false
own_reports binary_input_cluster = false
own_reports temp_measurement_cluster = true
own_reports analog_input_cluster = true
own_reports analog_value_cluster = false

publish_tick-IsDeclared_example : All (IsDeclared own_reports ℕ) (publish_tick 61001 true heard).1
publish_tick-IsDeclared_example = publish_tick-IsDeclared own_reports 61001 true heard refl refl
