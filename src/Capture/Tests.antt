-- ===== src/Capture/Tests.antt =====
-- tools/rs485-decode/main.go on a concrete capture.
use mathlib.Core.List.{foldl}
use Prim.Native.Nat.{bit_xor}
use flexit_cs60_control.Shared.{
  ℕ, zero, suc, ◌/◌, ◌%◌, ◌≡◌, refl, ap, ◌∙◌, true, inr, some, List, [], ◌∷◌, ◌++◌, arith, take,
  drop, replicate, ◌==◌, if◌then◌else◌, append-nil, take-append-drop,
}
use flexit_cs60_control.Platform.Modbus.{shift_crc, crc16_modbus, platform}
use flexit_cs60_control.Slave.Matcher.{read_coils, ack}
use flexit_cs60_control.Slave.Resync.{request}
use flexit_cs60_control.Slave.Respond.{stamp, put_regs}
use flexit_cs60_control.Mirror.Reception.{status_frame, counter_frame}
use flexit_cs60_control.Ble.{State, ble_boot}
use flexit_cs60_control.Ble.Stream.{Host}
use flexit_cs60_control.Capture.{
  crc_rounds, crc_from, crc16, crc_ok, candidate_lengths, first_frame, note_read, note, scan,
  analyse,
}
use flexit_cs60_control.Capture.Frames.{Traffic, asked, wrote, status, answered, stream, AllClear}
use flexit_cs60_control.Capture.Stream.{capture_file, forward_all, capture_told}

rounds_agree : (n crc : ℕ) → shift_crc n crc ≡ crc_rounds n crc
unfolding shift_crc crc_rounds
rounds_agree zero crc = refl
rounds_agree (suc n) crc =
    rounds_agree n (if crc % 2 == 1 then bit_xor (crc / 2) 0xA001 else crc / 2)

bytes_agree :
    (xs : List ℕ) (crc : ℕ) → foldl (λ crc b. shift_crc 8 (bit_xor crc b)) crc xs ≡ crc_from crc xs
unfolding crc_from
bytes_agree [] crc = refl
bytes_agree (x ∷ xs) crc =
    bytes_agree xs (shift_crc 8 (bit_xor crc x))
    ∙ ap (λ c. crc_from c xs) (rounds_agree 8 (bit_xor crc x))

-- The tool's checksum is CRC-16/MODBUS.
checksums_agree : (xs : List ℕ) → crc16_modbus xs ≡ crc16 xs
unfolding crc16_modbus crc16
checksums_agree xs = ap (λ c. c % 65536) (bytes_agree xs 0xFFFF)

-- A poll with its response, an ack of mode 2, a counter and a status block.
abbrev traffic : List Traffic
traffic =
    asked read_coils 0 40
    ∷ answered 2 1 (1 ∷ 0 ∷ 0 ∷ 0 ∷ 0 ∷ [])
    ∷ asked ack 0 2
    ∷ wrote 0xD1 7
    ∷ status (205 ∷ 2 ∷ 0 ∷ 0 ∷ 215 ∷ replicate 80 0)
    ∷ []

abbrev taking : Host
taking = record { nus_send = λ n payload. 0; gatt_mtu = 23 }

abbrev streaming : State
streaming = record ble_boot { current_conn = some 7; references = 1; stream_active = true }

abbrev bus : List ℕ
bus = stream platform traffic

traffic_clear : AllClear platform traffic
unfolding request stamp counter_frame status_frame put_regs crc16_modbus crc_ok crc16
traffic_clear = (tt, ((omega arith, omega arith, inr refl), (tt, (tt, (tt, tt)))))

-- Read in two chunks.
capture_told_example :
    let b = analyse (
      capture_file
        (forward_all taking streaming
          (take 13 bus ∷ drop 13 bus ∷ [])
          (record { notes = []; calls = 0 })).notes) in
    (b.valid ≡ 5) × (b.fc65s ≡ (0, 2) ∷ []) × (b.be_timeline ≡ (205, 215) ∷ [])
capture_told_example =
    capture_told taking streaming refl (λ n payload. refl) platform traffic
      (take 13 bus ∷ drop 13 bus ∷ []) 0 checksums_agree (omega arith) traffic_clear
      (ap (λ t. take 13 bus ++ t) (append-nil (drop 13 bus)) ∙ take-append-drop 13 bus)

-- A response that shows coil 0 up in one byte: a valid frame, of which no coil is reported.
abbrev short_response : List ℕ
short_response = stamp platform (1 ∷ 1 ∷ 1 ∷ 1 ∷ [])

short_response_unseen : let a = analyse short_response in (a.valid ≡ 1) × (a.coil_events ≡ [])
unfolding analyse crc16 scan stamp first_frame candidate_lengths crc16_modbus note
short_response_unseen = (refl, refl)

-- A read of register `reg` and its response.
abbrev read_of : ℕ → ℕ → List ℕ
read_of reg val =
    stamp platform (1 ∷ 3 ∷ 0 ∷ reg ∷ 0 ∷ 1 ∷ []) ++ stamp platform (1 ∷ 3 ∷ 2 ∷ 0 ∷ val ∷ [])

-- A first read of 0 is reported where nothing was read before, and not behind another.
first_zero_reported : (analyse (read_of 1 0)).fc03_trans ≡ (65537, 0) ∷ []
unfolding analyse crc16 scan stamp first_frame candidate_lengths crc16_modbus note note_read
first_zero_reported = refl

later_zero_unseen : (analyse (read_of 0 5 ++ read_of 1 0)).fc03_trans ≡ (65536, 5) ∷ []
unfolding analyse crc16 scan stamp first_frame candidate_lengths crc16_modbus note note_read
later_zero_unseen = refl
