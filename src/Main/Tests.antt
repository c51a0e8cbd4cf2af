-- ===== src/Main/Tests.antt =====
-- Concrete runs of the model of src/main.c.
use flexit_cs60_control.Shared.{◌-◌, ◌^◌, ◌≡◌, refl, true, false, arith, replicate}
use flexit_cs60_control.Mirror
use flexit_cs60_control.Zigbee.Network.{idle}
use flexit_cs60_control.Ble.{ble_boot}
use flexit_cs60_control.Main.{Leds, Moment, main_rounds}
use flexit_cs60_control.Main.Ticks.{advertises, main_rounds_advertise}

abbrev dark : Leds
dark = record { red = false; green = false; blue = false }

abbrev boot_moment : Moment
boot_moment = record { mirror = Mirror.boot; net_state = idle; ble = ble_boot; now = 1000 }

-- Ten rounds across the wrap of their counter.
main_rounds_advertise_example :
    advertises (main_rounds false (2 ^ 32 - 4) (replicate 10 boot_moment) dark).1 ≡ true
main_rounds_advertise_example =
    main_rounds_advertise (2 ^ 32 - 4) false (replicate 10 boot_moment) dark (omega arith)
      (omega arith)
      (refl, (refl, (refl, (refl, (refl, (refl, (refl, (refl, (refl, (refl, tt))))))))))
