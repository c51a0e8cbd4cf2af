-- ===== src/Mirror/Tests.antt =====
-- src/panel_mirror.c on concrete frames, with the real checksum in the place of the platform's.
use flexit_cs60_control.Shared.{
  ℕ, ◌≡◌, ◌≢◌, ◌⊎◌, refl, ap, get_or-replicate, true, false, List, [], ◌∷◌, arith, replicate, set,
}
use flexit_cs60_control.Platform.Modbus.{platform}
use flexit_cs60_control.Accum.{Accum, contents}
use flexit_cs60_control.Mirror.{Slot, boot, counter_slots, no_slot}
use flexit_cs60_control.Mirror.Counters.{slot_at, chosen_slot, find_slot}
use flexit_cs60_control.Mirror.Search.{Missed}
use flexit_cs60_control.Mirror.Table.{Holds, IsTable, IsOldest}
use flexit_cs60_control.Mirror.Decode.{World, mirror_feed}
use flexit_cs60_control.Mirror.Reception.{counter_frame}
use flexit_cs60_control.Mirror.Writes.{counter_received}

abbrev start : Accum × World
start = (record { buf = replicate 256 0; len = 0 }, record { state = boot; calls = 0 })

-- The registers of a captured block: 20.5 degrees set, mode 2, no extract sensor, the filter alarm.
abbrev block : List ℕ
block =
    set (205 ∷ 2 ∷ 0 ∷ 0 ∷ 205 ∷ 192 ∷ 63537 ∷ 65486 ∷ 310 ∷ 0 ∷ 80 ∷ 15 ∷ 60 ∷ replicate 72 0) 78 1

boot_free : (j : ℕ) → (slot_at boot.counters j).used ≡ false
boot_free j = ap (λ (c : Slot). c.used) (get_or-replicate counter_slots j no_slot)

boot-IsTable : IsTable boot.counters
boot-IsTable = record {
  eight = refl;
  unique = λ b i j x y. absurd (ground (arith, boot_free i, x.1));
}

counter_received_example :
    let (a', w') = mirror_feed platform start.0 start.1 (counter_frame platform 0x00F0 17) in
    (contents a' ≡ [])
    × (w'.state.fc06_frames ≡ 1)
    × (w'.state.last_fc10_uptime_ms ≡ 0)
    × IsTable w'.state.counters
    × Holds w'.state.counters 0x00F0 17 1000
    × ((b v m : ℕ) → b ≢ 0x00F0 → Holds w'.state.counters b v m → Holds boot.counters b v m)
    × ((b v m : ℕ)
        → b ≢ 0x00F0
        → Holds boot.counters b v m
        → Holds w'.state.counters b v m
          ⊎ (Missed 0x00F0 boot.counters counter_slots × IsOldest boot.counters m))
counter_received_example =
    counter_received platform start.0 start.1 0x00F0 17 (omega arith) refl (omega arith)
      (omega arith) boot-IsTable

-- A full table, whose third slot is the oldest.
abbrev counted : ℕ → ℕ → Slot
counted addr at_ms = record { addr = addr; value = 1; at_ms = at_ms; used = true }

abbrev full : List Slot
full =
    counted 10 500
    ∷ counted 11 400
    ∷ counted 12 100
    ∷ counted 13 300
    ∷ counted 14 600
    ∷ counted 15 700
    ∷ counted 16 800
    ∷ counted 17 900
    ∷ []

-- The oldest entry of a full table goes.
full_evicts : chosen_slot 20 full ≡ 2
unfolding chosen_slot find_slot
full_evicts = refl
