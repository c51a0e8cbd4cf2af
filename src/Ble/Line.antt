-- ===== src/Ble/Line.antt =====
-- src/ble_transport.c, `format_state_line`: the status as one line of text. A `snprintf` into
-- `cap` bytes keeps the first `cap - 1` bytes of its text; what lies behind `pos` is never sent.
use Prim.Native.String.{String}
use flexit_cs60_control.Shared.{
  ℕ, zero, suc, ◌+◌, ◌-◌, ◌/◌, ◌%◌, ◌^◌, Bool, true, false, not, ◌&&◌, List, [], ◌∷◌, ◌++◌, length,
  take, ltb, leb, ◌==◌, if◌then◌else◌, has_bit,
}
use flexit_cs60_control.Shared.Int.{ℤ, pos, negsuc}
use flexit_cs60_control.Shared.Text.{codes, dec, hex4}
use flexit_cs60_control.Mirror
use flexit_cs60_control.Mirror.{Slot, counter_slots}
use flexit_cs60_control.Mirror.Counters.{slot_at}
use flexit_cs60_control.Slave.{Snapshot}

-- A number of tenths with its decimal point.
unfoldable pub tenths : ℕ → List ℕ
tenths n = dec (n / 10) ++ (b'.' ∷ dec (n % 10))

unfoldable pub temp_x10 : ℤ → Bool → List ℕ
unfolding tenths
temp_x10 x10 false = codes "n/a"
temp_x10 (pos n) true = tenths n
temp_x10 (negsuc n) true = b'-' ∷ tenths (suc n)

-- `format_temp_x10` into the 16 bytes of its callers' buffers.
unfoldable pub format_temp_x10 : ℤ → Bool → List ℕ
unfolding temp_x10
format_temp_x10 x10 present = take 15 (temp_x10 x10 present)

-- `label`, the value, and what follows.
abbrev pub put : String → List ℕ → List ℕ → List ℕ
put label value rest = codes label ++ (value ++ rest)

abbrev pub flag : Bool → List ℕ
flag b = if b then dec 1 else dec 0

unfoldable pub counts_text : Mirror.State → List ℕ
counts_text s = put " PCT_COOL=" (dec s.pct_cooling) (
    put " PCT_HX=" (dec s.pct_heat_exchanger) (
      put " PCT_HEAT=" (dec s.pct_heating) (
        put " PCT_FAN=" (dec s.pct_supply_fan) (
          put " UNK1=0x" (hex4 s.unknown_1) (
            put " UNK2=0x" (hex4 s.unknown_2) (
              put " FC10=" (dec s.fc10_frames) (
                put " FC06=" (dec s.fc06_frames) (
                  put " CRCERR=" (dec s.crc_failures)
                    (put " LAST_MS=" (dec s.last_fc10_uptime_ms) [])))))))))

-- The five texts of the line in front of the counters.
unfoldable pub status_text : Mirror.State → List ℕ
status_text s = put "MODE=" (dec s.mode) (
    put " SET=" (format_temp_x10 s.temp_setpoint_x10 true) (
      put " SET2=" (format_temp_x10 s.temp_setpoint_2_x10 true) (
        put " T_SUP=" (format_temp_x10 s.temp_supply_air_x10 true) (
          put " T_EXT=" (format_temp_x10 s.temp_extract_air_x10 (has_bit s.sensors_present 0)) (
            put " T_OUT=" (format_temp_x10 s.temp_outdoor_air_x10 true) (
              put " T_RET=" (format_temp_x10 s.temp_return_water_x10 (has_bit s.sensors_present 1))
                (counts_text s)))))))

unfoldable pub queued_text : Snapshot → List ℕ
queued_text sl =
    if sl.pending_mode == 0xFFFF
    then codes " MODE_QUEUED=none"
    else put " MODE_QUEUED=" (dec sl.pending_mode) []

unfoldable pub acked_text : Snapshot → List ℕ
acked_text sl =
    if sl.last_acked_mode == 0xFFFF
    then codes " MODE_ACKED=none"
    else put " MODE_ACKED=" (dec sl.last_acked_mode) (put "@" (dec sl.last_ack_uptime_ms) [])

unfoldable pub slave_text : Snapshot → List ℕ
slave_text sl = put " SLV_FC01=" (dec sl.fc01_serviced) (
    put " SLV_FC03=" (dec sl.fc03_serviced) (
      put " SLV_FC04=" (dec sl.fc04_serviced)
        (put " SLV_FC65=" (dec sl.fc65_acks) (put " SLV_COIL0=" (flag sl.coil0_pending) []))))

unfoldable pub setpoint_text : Snapshot → List ℕ
unfolding tenths
setpoint_text sl =
    let reads =
      put " SP_COIL12=" (flag sl.coil_setpoint_pending)
        (put " SP_READS=" (dec sl.setpoint_reads) []) in
    if sl.pending_setpoint == 0xFFFF
    then put " SP_QUEUED=none" [] reads
    else put " SP_QUEUED=" (tenths sl.pending_setpoint)
        (put " SP_REG=" (dec sl.reg_setpoint_value) reads)

-- The age is a difference of uint64_t.
unfoldable pub slot_text : ℕ → Slot → List ℕ
slot_text now c =
    put " CNT[0x" (hex4 c.addr) (
      put "]=" (dec c.value) (put "@" (dec ((2 ^ 64 + now - c.at_ms) % 2 ^ 64 / 1000)) (codes "s")))

-- A text is appended if it fits with its NUL, and else left out.
unfoldable pub append_part : ℕ → List ℕ → List ℕ → List ℕ
append_part cap line part =
    if ltb (length line) (cap - 1) && ltb (length part) (cap - length line)
    then line ++ part
    else line

-- The loop over the counters, `n` rounds from slot `i` on; one that does not fit is cut.
unfoldable pub append_slots : ℕ → ℕ → List Slot → ℕ → ℕ → List ℕ → List ℕ
append_slots cap now t zero i line = line
append_slots cap now t (suc n) i line =
    let c = slot_at t i in
    let part = slot_text now c in
    let skipped = append_slots cap now t n (i + 1) line in
    let longer = append_slots cap now t n (i + 1) (line ++ part) in
    if not (ltb (length line) (cap - 1))
    then line
    else if not c.used
    then skipped
    else if leb (cap - length line) (length part)
    then take (cap - 1) (line ++ part)
    else longer

unfoldable pub finish : ℕ → List ℕ → List ℕ
finish cap line = if ltb (length line) (cap - 1) then line ++ (10 ∷ []) else line

-- The bytes that are sent, from the two snapshots and the uptime.
unfoldable pub format_state_line : ℕ → Mirror.State → Snapshot → ℕ → List ℕ
format_state_line cap s sl now =
    let line0 = take (cap - 1) (status_text s) in
    let line1 = append_part cap line0 (queued_text sl) in
    let line2 = append_part cap line1 (acked_text sl) in
    let line3 = append_part cap line2 (slave_text sl) in
    let line4 = append_part cap line3 (setpoint_text sl) in
    finish cap (append_slots cap now s.counters counter_slots 0 line4)
