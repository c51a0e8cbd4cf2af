-- ===== src/Main.antt =====
-- src/main.c: the initialisations and the loop that drives the LEDs and keeps the device
-- advertising.
pub mod Ticks
mod Tests
use flexit_cs60_control.Shared.{
  ℕ, ◌+◌, ◌%◌, ◌^◌, ◌≡◌, Bool, true, false, not, ◌||◌, List, [], ◌∷◌, ◌==◌, if◌then◌else◌,
}
use flexit_cs60_control.Shared.Int.{ℤ, pos, ltb_ℤ}
use flexit_cs60_control.Mirror
use flexit_cs60_control.Mirror.{cs60_link_up}
use flexit_cs60_control.Zigbee.Network.{NetState, idle, joining, joined}
use flexit_cs60_control.Ble
use flexit_cs60_control.Ble.{Request, ensure_advertising, ble_is_connected}

-- LED_SLOW_BLINK_TICKS, RED_BLINK_TICKS, ADV_ENSURE_TICKS, RS485_CS60_STALE_MS
abbrev pub slow_blink_ticks : ℕ
slow_blink_ticks = 10

abbrev pub red_blink_ticks : ℕ
red_blink_ticks = 5

abbrev pub adv_ensure_ticks : ℕ
adv_ensure_ticks = 10

abbrev pub rs485_cs60_stale_ms : ℕ
rs485_cs60_stale_ms = 5000

-- The logical levels of the three pins.
pub record Leds : Type 0 where
  pub red : Bool
  pub green : Bool
  pub blue : Bool

-- What a round of the loop reads: the states of the modules, and the uptime.
pub record Moment : Type 0 where
  pub mirror : Mirror.State
  pub net_state : NetState
  pub ble : Ble.State
  pub now : ℕ

abbrev pub negative : ℤ → Bool
negative z = ltb_ℤ z (pos 0)

-- The latch `init_failed`, from what the five initialisations return.
unfoldable pub init_failed : ℤ → ℤ → ℤ → ℤ → ℤ → Bool
init_failed uart slave ble zigbee bridge =
    negative uart || negative slave || negative ble || negative zigbee || negative bridge

unfoldable pub red_led : Bool → ℕ → Moment → Bool → Bool
red_led failed tick m red =
    if failed
    then true
    else if not (cs60_link_up rs485_cs60_stale_ms m.now m.mirror)
    then if tick % red_blink_ticks == 0 then not red else red
    else false

unfoldable pub green_led : NetState → ℕ → Bool → Bool
green_led joining tick green = not green
green_led joined tick green = true
green_led idle tick green = if tick % slow_blink_ticks == 0 then not green else green

-- The loop's body.
unfoldable pub main_round : Bool → ℕ → Moment → Leds → Leds × List Request
unfolding red_led green_led
main_round failed tick m leds = (
  record {
    red = red_led failed tick m leds.red;
    green = green_led m.net_state tick leds.green;
    blue = ble_is_connected m.ble;
  },
  if tick % adv_ensure_ticks == 0 then ensure_advertising m.ble else [],
)

-- `tick++` on a uint32_t.
abbrev pub next_tick : ℕ → ℕ
next_tick tick = (tick + 1) % 2 ^ 32

-- As many rounds as there are moments, with what each asks of the Bluetooth host.
unfoldable pub main_rounds : Bool → ℕ → List Moment → Leds → Leds × List (List Request)
unfolding main_round
main_rounds failed tick [] leds = (leds, [])
main_rounds failed tick (m ∷ ms) leds =
    let (leds', requests) = main_round failed tick m leds in
    let (end, later) = main_rounds failed (next_tick tick) ms leds' in (end, requests ∷ later)
