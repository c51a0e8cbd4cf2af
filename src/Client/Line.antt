-- ===== src/Client/Line.antt =====
-- The state line of src/ble_transport.c, taken apart by tools/ble-client/main.go.
use flexit_cs60_control.Shared.{
  ℕ, suc, ◌+◌, ◌-◌, ◌/◌, ◌%◌, ◌^◌, ◌<◌, ◌≡◌, refl, ap, ◌∙◌, inl, inr, Bool-cases, Bool, true, false,
  List, [], ◌∷◌, ◌++◌, zero, ◌==◌, All, length, has_bit,
}
use flexit_cs60_control.Shared.Int.{ℤ, pos, negsuc}
use flexit_cs60_control.Shared.Text.{codes, dec, hex4}
use flexit_cs60_control.Mirror
use flexit_cs60_control.Mirror.{Slot, counter_slots}
use flexit_cs60_control.Mirror.Counters.{slot_at}
use flexit_cs60_control.Slave.{Snapshot}
use flexit_cs60_control.Ble.Line.{tenths, temp_x10, format_temp_x10, flag, format_state_line}
use flexit_cs60_control.Ble.Fields.{whole_line, format_state_line-whole_line}
use flexit_cs60_control.Client.{parse_line, fields_from}
use flexit_cs60_control.Client.Words.{
  Plain, Plain-append, Plain-take, dec-Plain, hex4-Plain, Entry, IsEntry, counter_keys,
  parse_line-rendered, plain_test-Plain, plain_test,
}
use flexit_cs60_control.Client.Entries.{
  status_entries, or_none, queued_entry, acked_entry, slave_entries, setpoint_entries, slot_entry,
  slot_entries, entries, line_rendered,
}

tenths-Plain : (n : ℕ) → Plain (tenths n)
unfolding tenths
tenths-Plain n =
    Plain-append (dec (n / 10)) (b'.' ∷ dec (n % 10)) (dec-Plain (n / 10))
      ((refl, refl), dec-Plain (n % 10))

temp_x10-Plain : (x10 : ℤ) (present : Bool) → Plain (temp_x10 x10 present)
unfolding temp_x10
temp_x10-Plain x10 false = plain_test-Plain (codes "n/a") refl
temp_x10-Plain (pos n) true = tenths-Plain n
temp_x10-Plain (negsuc n) true = ((refl, refl), tenths-Plain (suc n))

temp-Plain : (x10 : ℤ) (present : Bool) → Plain (format_temp_x10 x10 present)
unfolding format_temp_x10
temp-Plain x10 present = Plain-take 15 (temp_x10 x10 present) (temp_x10-Plain x10 present)

flag-Plain : (b : Bool) → Plain (flag b)
flag-Plain true = dec-Plain 1
flag-Plain false = dec-Plain 0

or_none-Plain : (n : ℕ) (text : List ℕ) → Plain text → Plain (or_none n text)
or_none-Plain n text h = elim (Bool-cases (n == 0xFFFF)) [
  | inl e ↦ rw e (plain_test-Plain (codes "none") refl)
  | inr e ↦ rw e h
]

All-append : (xs ys : List Entry) → All IsEntry xs → All IsEntry ys → All IsEntry (xs ++ ys)
All-append [] ys h k = k
All-append (x ∷ xs) ys (h, t) k = (h, All-append xs ys t k)

-- A literal key.
keyed : (key val : List ℕ) → plain_test key ≡ true → Plain val → IsEntry (key, val)
keyed key val h v = (plain_test-Plain key h, v)

hex-Plain : (n : ℕ) → Plain (codes "0x" ++ hex4 n)
hex-Plain n = ((refl, refl), ((refl, refl), hex4-Plain n))

status-All : (s : Mirror.State) → All IsEntry (status_entries s)
status-All s = (
  keyed (codes "MODE") (dec s.mode) refl (dec-Plain s.mode),
  (
    keyed (codes "SET") _ refl (temp-Plain s.temp_setpoint_x10 true),
    (
      keyed (codes "SET2") _ refl (temp-Plain s.temp_setpoint_2_x10 true),
      (
        keyed (codes "T_SUP") _ refl (temp-Plain s.temp_supply_air_x10 true),
        (
          keyed (codes "T_EXT") _ refl
              (temp-Plain s.temp_extract_air_x10 (has_bit s.sensors_present 0)),
          (
            keyed (codes "T_OUT") _ refl (temp-Plain s.temp_outdoor_air_x10 true),
            (
              keyed (codes "T_RET") _ refl
                  (temp-Plain s.temp_return_water_x10 (has_bit s.sensors_present 1)),
              (
                keyed (codes "PCT_COOL") _ refl (dec-Plain s.pct_cooling),
                (
                  keyed (codes "PCT_HX") _ refl (dec-Plain s.pct_heat_exchanger),
                  (
                    keyed (codes "PCT_HEAT") _ refl (dec-Plain s.pct_heating),
                    (
                      keyed (codes "PCT_FAN") _ refl (dec-Plain s.pct_supply_fan),
                      (
                        keyed (codes "UNK1") (codes "0x" ++ hex4 s.unknown_1) refl
                            (hex-Plain s.unknown_1),
                        (
                          keyed (codes "UNK2") (codes "0x" ++ hex4 s.unknown_2) refl
                              (hex-Plain s.unknown_2),
                          (
                            keyed (codes "FC10") _ refl (dec-Plain s.fc10_frames),
                            (
                              keyed (codes "FC06") _ refl (dec-Plain s.fc06_frames),
                              (
                                keyed (codes "CRCERR") _ refl (dec-Plain s.crc_failures),
                                (
                                  keyed (codes "LAST_MS") _ refl (dec-Plain s.last_fc10_uptime_ms),
                                  tt,
                                ),
                              ),
                            ),
                          ),
                        ),
                      ),
                    ),
                  ),
                ),
              ),
            ),
          ),
        ),
      ),
    ),
  ),
)

slave-All : (sl : Snapshot) → All IsEntry (slave_entries sl)
slave-All sl = (
  keyed (codes "SLV_FC01") _ refl (dec-Plain sl.fc01_serviced),
  (
    keyed (codes "SLV_FC03") _ refl (dec-Plain sl.fc03_serviced),
    (
      keyed (codes "SLV_FC04") _ refl (dec-Plain sl.fc04_serviced),
      (
        keyed (codes "SLV_FC65") _ refl (dec-Plain sl.fc65_acks),
        (keyed (codes "SLV_COIL0") _ refl (flag-Plain sl.coil0_pending), tt),
      ),
    ),
  ),
)

acked-IsEntry : (sl : Snapshot) → IsEntry (acked_entry sl)
acked-IsEntry sl = keyed (codes "MODE_ACKED") _ refl (
    or_none-Plain sl.last_acked_mode _ (
      Plain-append (dec sl.last_acked_mode) (b'@' ∷ dec sl.last_ack_uptime_ms)
        (dec-Plain sl.last_acked_mode) ((refl, refl), dec-Plain sl.last_ack_uptime_ms)))

setpoint-All : (sl : Snapshot) → All IsEntry (setpoint_entries sl)
setpoint-All sl =
    let tail : All IsEntry (
        (codes "SP_COIL12", flag sl.coil_setpoint_pending)
        ∷ (codes "SP_READS", dec sl.setpoint_reads)
        ∷ []) =
      (
        keyed (codes "SP_COIL12") _ refl (flag-Plain sl.coil_setpoint_pending),
        (keyed (codes "SP_READS") _ refl (dec-Plain sl.setpoint_reads), tt),
      ) in
    (
      keyed (codes "SP_QUEUED") _ refl
          (or_none-Plain sl.pending_setpoint _ (tenths-Plain sl.pending_setpoint)),
      elim (Bool-cases (sl.pending_setpoint == 0xFFFF)) [
        | inl e ↦ rw e tail
        | inr e ↦ rw e ((keyed (codes "SP_REG") _ refl (dec-Plain sl.reg_setpoint_value), tail))
      ],
    )

slot-IsEntry : (now : ℕ) (c : Slot) → IsEntry (slot_entry now c)
slot-IsEntry now c =
    let age = (2 ^ 64 + now - c.at_ms) % 2 ^ 64 / 1000 in
    (
      Plain-append (codes "CNT[0x") (hex4 c.addr ++ codes "]")
          (plain_test-Plain (codes "CNT[0x") refl)
          (Plain-append (hex4 c.addr) (codes "]") (hex4-Plain c.addr)
            (plain_test-Plain (codes "]") refl)),
      Plain-append (dec c.value) (b'@' ∷ (dec age ++ codes "s")) (dec-Plain c.value) (
        (refl, refl),
        Plain-append (dec age) (codes "s") (dec-Plain age) (plain_test-Plain (codes "s") refl),
      ),
    )

slots-All : (now : ℕ) (t : List Slot) (n i : ℕ) → All IsEntry (slot_entries now t n i)
slots-All now t zero i = tt
slots-All now t (suc n) i = elim (Bool-cases (slot_at t i).used) [
  | inl e ↦ rw e ((slot-IsEntry now (slot_at t i), slots-All now t n (i + 1)))
  | inr e ↦ rw e (slots-All now t n (i + 1))
]

entries-All : (s : Mirror.State) (sl : Snapshot) (now : ℕ) → All IsEntry (entries s sl now)
entries-All s sl now =
    let e1 = status_entries s in
    let e2 = e1 ++ queued_entry sl ∷ [] in
    let e3 = e2 ++ acked_entry sl ∷ [] in
    let e4 = e3 ++ slave_entries sl in
    let e5 = e4 ++ setpoint_entries sl in
    let queued : Plain (or_none sl.pending_mode (dec sl.pending_mode)) =
      or_none-Plain sl.pending_mode _ (dec-Plain sl.pending_mode) in
    let one =
      All-append e1 (queued_entry sl ∷ []) (status-All s)
        (keyed (codes "MODE_QUEUED") _ refl queued, tt) in
    let two = All-append e2 (acked_entry sl ∷ []) one (acked-IsEntry sl, tt) in
    let three = All-append e3 (slave_entries sl) two (slave-All sl) in
    let four = All-append e4 (setpoint_entries sl) three (setpoint-All sl) in
    All-append e5 (slot_entries now s.counters counter_slots 0) four
      (slots-All now s.counters counter_slots 0)

blank_first : (s : List ℕ) → parse_line s ≡ parse_line (b' ' ∷ s)
unfolding parse_line fields_from
blank_first s = refl

-- The client reads from the state line what the firmware put into it: a line that fits its buffer
-- of 512 bytes parses to the keys and values of the panel's state, of the slave's counters and
-- commands and of the counters in use, in their order, with the counters' keys apart.
pub parse_line-format_state_line :
    (s : Mirror.State) (sl : Snapshot) (now : ℕ)
    → length (whole_line s sl now) + 1 < 512
    → parse_line (format_state_line 512 s sl now)
      ≡ record { kv = entries s sl now; cnt_keys = counter_keys (entries s sl now) }
parse_line-format_state_line s sl now h =
    ap parse_line (format_state_line-whole_line 512 s sl now h)
    ∙ blank_first (whole_line s sl now ++ 10 ∷ [])
    ∙ ap (λ t. parse_line (t ++ 10 ∷ [])) (line_rendered s sl now)
    ∙ parse_line-rendered (entries s sl now) (entries-All s sl now)
