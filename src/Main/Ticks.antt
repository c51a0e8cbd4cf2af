-- ===== src/Main/Ticks.antt =====
-- src/main.c: what the rounds of the loop come to.
use flexit_cs60_control.Shared.{
  ℕ, zero, suc, ◌+◌, ◌-◌, ◌%◌, ◌^◌, ◌≤◌, ◌<◌, ◌≡◌, refl, ap, ◌∙◌, inl, inr, Bool, true, false, not,
  ◌||◌, List, [], ◌∷◌, arith, length, ltb, ◌==◌, if◌then◌else◌, Bool-cases, All,
}
use flexit_cs60_control.Zigbee.Network.{NetState, idle}
use flexit_cs60_control.Ble
use flexit_cs60_control.Ble.{
  Request, advertise, unpair, raise_security, disconnect, ensure_advertising, ble_is_connected,
}
use flexit_cs60_control.Main.{
  Leds, Moment, main_round, main_rounds, next_tick, green_led, slow_blink_ticks, adv_ensure_ticks,
}

-- Whether a round asks for advertising.
abbrev asks : List Request → Bool
asks [] = false
asks (advertise ∷ rs) = true
asks (unpair ∷ rs) = asks rs
asks (raise_security conn ∷ rs) = asks rs
asks (disconnect conn ∷ rs) = asks rs

-- Whether some round does.
abbrev pub advertises : List (List Request) → Bool
advertises [] = false
advertises (rs ∷ rounds) = asks rs || advertises rounds

abbrev pub Idle : List Moment → Type 0
Idle = All (λ m. m.net_state ≡ idle)

abbrev pub Unconnected : List Moment → Type 0
Unconnected = All (λ m. ble_is_connected m.ble ≡ false)

later_advertises :
    (rs : List Request) (rounds : List (List Request))
    → advertises rounds ≡ true
    → advertises (rs ∷ rounds) ≡ true
later_advertises rs rounds h = ground (arith, h)

check_now :
    (tick : ℕ) (ble : Ble.State) (rounds : List (List Request))
    → tick % adv_ensure_ticks ≡ 0
    → ble_is_connected ble ≡ false
    → advertises ((if tick % adv_ensure_ticks == 0 then ensure_advertising ble else []) ∷ rounds)
      ≡ true
unfolding ensure_advertising
check_now tick ble rounds h u = rw (h, u) refl

next_check :
    (tick k : ℕ)
    → (tick + suc k) % 2 ^ 32 % adv_ensure_ticks ≡ 0
    → (next_tick tick + k) % 2 ^ 32 % adv_ensure_ticks ≡ 0
next_check tick k h = ap (λ n. n % adv_ensure_ticks) (omega arith) ∙ h

-- The check falls k rounds from now.
checked_at :
    (k tick : ℕ) (failed : Bool) (ms : List Moment) (leds : Leds)
    → tick < 2 ^ 32
    → k < length ms
    → (tick + k) % 2 ^ 32 % adv_ensure_ticks ≡ 0
    → Unconnected ms
    → advertises (main_rounds failed tick ms leds).1 ≡ true
unfolding main_rounds main_round
checked_at k tick failed [] leds t l h u = absurd (omega (arith, l))
checked_at zero tick failed (m ∷ ms) leds t l h u =
    check_now tick m.ble
      (main_rounds failed (next_tick tick) ms (main_round failed tick m leds).0).1
      (omega (arith, t, h)) u.0
checked_at (suc k) tick failed (m ∷ ms) leds t l h u =
    later_advertises (main_round failed tick m leds).1
      (main_rounds failed (next_tick tick) ms (main_round failed tick m leds).0).1
      (checked_at k (next_tick tick) failed ms (main_round failed tick m leds).0 (omega arith)
        (omega (arith, l)) (next_check tick k h) u.1)

check_due :
    (tick : ℕ)
    → ltb (tick + (10 - tick % 10) % 10) (2 ^ 32) ≡ true
    → (tick + (10 - tick % 10) % 10) % 2 ^ 32 % adv_ensure_ticks ≡ 0
check_due tick h =
    let below : tick + (10 - tick % 10) % 10 < 2 ^ 32 = ground (arith, h) in omega (arith, below)

check_wraps : (tick : ℕ) → tick < 2 ^ 32 → (tick + (2 ^ 32 - tick)) % 2 ^ 32 % adv_ensure_ticks ≡ 0
check_wraps tick t = omega (arith, t)

wrap_near :
    (tick n : ℕ)
    → tick < 2 ^ 32
    → ltb (tick + (10 - tick % 10) % 10) (2 ^ 32) ≡ false
    → 10 ≤ n
    → 2 ^ 32 - tick < n
wrap_near tick n t h l =
    let over : 2 ^ 32 ≤ tick + (10 - tick % 10) % 10 = ground (arith, h) in omega (arith, over, l)

-- Without a client, ten rounds in a row ask for advertising at least once, also where the counter
-- of the rounds wraps.
pub main_rounds_advertise :
    (tick : ℕ) (failed : Bool) (ms : List Moment) (leds : Leds)
    → tick < 2 ^ 32
    → 10 ≤ length ms
    → Unconnected ms
    → advertises (main_rounds failed tick ms leds).1 ≡ true
main_rounds_advertise tick failed ms leds t l u =
    elim (Bool-cases (ltb (tick + (10 - tick % 10) % 10) (2 ^ 32))) [
      | inl h ↦
          checked_at ((10 - tick % 10) % 10) tick failed ms leds t (omega (arith, l))
            (check_due tick h) u
      | inr h ↦
          checked_at (2 ^ 32 - tick) tick failed ms leds t (wrap_near tick (length ms) t h l)
            (check_wraps tick t) u
    ]

green_stays :
    (net : NetState) (tick : ℕ) (green : Bool)
    → net ≡ idle
    → 0 < tick % slow_blink_ticks
    → green_led net tick green ≡ green
unfolding green_led
green_stays net tick green e h = rw e (ground (arith, h))

green_changes :
    (net : NetState) (tick : ℕ) (green : Bool)
    → net ≡ idle
    → tick % slow_blink_ticks ≡ 0
    → green_led net tick green ≡ not green
unfolding green_led
green_changes net tick green e h = rw (e, h) refl

-- An idle round is quiet between two changes of the slow blink.
quiet_rounds :
    (tick : ℕ) (failed : Bool) (ms : List Moment) (leds : Leds)
    → (tick + 9) % slow_blink_ticks + length ms ≤ 9
    → tick + length ms ≤ 2 ^ 32
    → Idle ms
    → (main_rounds failed tick ms leds).0.green ≡ leds.green
unfolding main_rounds main_round
quiet_rounds tick failed [] leds near t i = refl
quiet_rounds tick failed (m ∷ ms) leds near t i =
    quiet_rounds (next_tick tick) failed ms (main_round failed tick m leds).0
      (omega (arith, near, t)) (omega (arith, near, t)) i.1
    ∙ green_stays m.net_state tick leds.green i.0 (omega (arith, near))

-- The change falls k rounds from now.
changes_at :
    (k tick : ℕ) (failed : Bool) (ms : List Moment) (leds : Leds)
    → k < length ms
    → k < slow_blink_ticks
    → length ms ≤ k + slow_blink_ticks
    → (tick + k) % slow_blink_ticks ≡ 0
    → tick + length ms ≤ 2 ^ 32
    → Idle ms
    → (main_rounds failed tick ms leds).0.green ≡ not leds.green
unfolding main_rounds main_round
changes_at k tick failed [] leds l b near h t i = absurd (omega (arith, l))
changes_at zero tick failed (m ∷ ms) leds l b near h t i =
    quiet_rounds (next_tick tick) failed ms (main_round failed tick m leds).0
      (omega (arith, near, t, h)) (omega (arith, near, t)) i.1
    ∙ green_changes m.net_state tick leds.green i.0 (omega (arith, h))
changes_at (suc k) tick failed (m ∷ ms) leds l b near h t i =
    changes_at k (next_tick tick) failed ms (main_round failed tick m leds).0 (omega (arith, l))
      (omega (arith, b)) (omega (arith, near)) (omega (arith, h, t, l)) (omega (arith, t, l)) i.1
    ∙ ap not (green_stays m.net_state tick leds.green i.0 (omega (arith, h, b)))

-- While the Zigbee device is idle, the green LED changes once in any ten rounds in a row between
-- two wraps of their counter: it blinks slowly.
pub main_rounds_blink :
    (tick : ℕ) (failed : Bool) (ms : List Moment) (leds : Leds)
    → length ms ≡ 10
    → tick + 10 ≤ 2 ^ 32
    → Idle ms
    → (main_rounds failed tick ms leds).0.green ≡ not leds.green
main_rounds_blink tick failed ms leds l t i =
    changes_at ((10 - tick % 10) % 10) tick failed ms leds (omega (arith, l)) (omega arith)
      (omega (arith, l)) (omega arith) (omega (arith, l, t)) i
