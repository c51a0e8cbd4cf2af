-- ===== src/Client/Entries.antt =====
-- The keys and values of the state line of src/ble_transport.c, and the line as they make it.
use flexit_cs60_control.Shared.{
  ℕ, suc, ◌+◌, ◌-◌, ◌/◌, ◌%◌, ◌^◌, ◌≡◌, refl, ap, ap₂, sym, ◌∙◌, inl, inr, Bool-cases, true, List,
  [], ◌∷◌, ◌++◌, zero, append-nil, append_assoc, ◌==◌, if◌then◌else◌, has_bit,
}
use flexit_cs60_control.Shared.Text.{codes, dec, hex4}
use flexit_cs60_control.Mirror
use flexit_cs60_control.Mirror.{Slot, counter_slots}
use flexit_cs60_control.Mirror.Counters.{slot_at}
use flexit_cs60_control.Slave.{Snapshot}
use flexit_cs60_control.Ble.Line.{
  tenths, format_temp_x10, flag, counts_text, status_text, queued_text, acked_text, slave_text,
  setpoint_text, slot_text,
}
use flexit_cs60_control.Ble.Fields.{slots_text, whole_line}
use flexit_cs60_control.Client.Words.{Entry, rendered, rendered-append}

-- What the line tells: keys and values.
abbrev pub status_entries : Mirror.State → List Entry
status_entries s =
    (codes "MODE", dec s.mode)
    ∷ (codes "SET", format_temp_x10 s.temp_setpoint_x10 true)
    ∷ (codes "SET2", format_temp_x10 s.temp_setpoint_2_x10 true)
    ∷ (codes "T_SUP", format_temp_x10 s.temp_supply_air_x10 true)
    ∷ (codes "T_EXT", format_temp_x10 s.temp_extract_air_x10 (has_bit s.sensors_present 0))
    ∷ (codes "T_OUT", format_temp_x10 s.temp_outdoor_air_x10 true)
    ∷ (codes "T_RET", format_temp_x10 s.temp_return_water_x10 (has_bit s.sensors_present 1))
    ∷ (codes "PCT_COOL", dec s.pct_cooling)
    ∷ (codes "PCT_HX", dec s.pct_heat_exchanger)
    ∷ (codes "PCT_HEAT", dec s.pct_heating)
    ∷ (codes "PCT_FAN", dec s.pct_supply_fan)
    ∷ (codes "UNK1", codes "0x" ++ hex4 s.unknown_1)
    ∷ (codes "UNK2", codes "0x" ++ hex4 s.unknown_2)
    ∷ (codes "FC10", dec s.fc10_frames)
    ∷ (codes "FC06", dec s.fc06_frames)
    ∷ (codes "CRCERR", dec s.crc_failures)
    ∷ (codes "LAST_MS", dec s.last_fc10_uptime_ms)
    ∷ []

-- "none" for a value that was never set.
abbrev pub or_none : ℕ → List ℕ → List ℕ
or_none n text = if n == 0xFFFF then codes "none" else text

abbrev pub queued_entry : Snapshot → Entry
queued_entry sl = (codes "MODE_QUEUED", or_none sl.pending_mode (dec sl.pending_mode))

abbrev pub acked_entry : Snapshot → Entry
acked_entry sl = (
  codes "MODE_ACKED",
  or_none sl.last_acked_mode (dec sl.last_acked_mode ++ (b'@' ∷ dec sl.last_ack_uptime_ms)),
)

abbrev pub slave_entries : Snapshot → List Entry
slave_entries sl =
    (codes "SLV_FC01", dec sl.fc01_serviced)
    ∷ (codes "SLV_FC03", dec sl.fc03_serviced)
    ∷ (codes "SLV_FC04", dec sl.fc04_serviced)
    ∷ (codes "SLV_FC65", dec sl.fc65_acks)
    ∷ (codes "SLV_COIL0", flag sl.coil0_pending)
    ∷ []

-- The register is left out while no setpoint was queued.
abbrev pub setpoint_entries : Snapshot → List Entry
setpoint_entries sl =
    (codes "SP_QUEUED", or_none sl.pending_setpoint (tenths sl.pending_setpoint))
    ∷ ((if sl.pending_setpoint == 0xFFFF
          then []
          else (codes "SP_REG", dec sl.reg_setpoint_value) ∷ [])
        ++ ((codes "SP_COIL12", flag sl.coil_setpoint_pending)
            ∷ (codes "SP_READS", dec sl.setpoint_reads)
            ∷ []))

abbrev pub slot_entry : ℕ → Slot → Entry
slot_entry now c = (
  codes "CNT[0x" ++ (hex4 c.addr ++ codes "]"),
  dec c.value ++ (b'@' ∷ (dec ((2 ^ 64 + now - c.at_ms) % 2 ^ 64 / 1000) ++ codes "s")),
)

-- The counters in use, from slot `i` on.
abbrev pub slot_entries : ℕ → List Slot → ℕ → ℕ → List Entry
slot_entries now t zero i = []
slot_entries now t (suc n) i =
    (if (slot_at t i).used then slot_entry now (slot_at t i) ∷ [] else [])
    ++ slot_entries now t n (i + 1)

abbrev pub entries : Mirror.State → Snapshot → ℕ → List Entry
entries s sl now =
    status_entries s
    ++ queued_entry sl ∷ []
    ++ acked_entry sl ∷ []
    ++ slave_entries sl
    ++ setpoint_entries sl
    ++ slot_entries now s.counters counter_slots 0

status_rendered : (s : Mirror.State) → b' ' ∷ status_text s ≡ rendered (status_entries s)
unfolding status_text counts_text
status_rendered s = refl

slot_rendered : (now : ℕ) (c : Slot) → slot_text now c ≡ rendered (slot_entry now c ∷ [])
unfolding slot_text hex4
slot_rendered now c = simp append-nil

slots_rendered :
    (now : ℕ) (t : List Slot) (n i : ℕ) → slots_text now t n i ≡ rendered (slot_entries now t n i)
slots_rendered now t zero i = refl
slots_rendered now t (suc n) i = elim (Bool-cases (slot_at t i).used) [
  | inl e ↦ rw e (
      ap (λ r. slot_text now (slot_at t i) ++ r) (slots_rendered now t n (i + 1))
      ∙ ap (λ r. r ++ rendered (slot_entries now t n (i + 1))) (slot_rendered now (slot_at t i))
      ∙ sym (rendered-append (slot_entry now (slot_at t i) ∷ []) (slot_entries now t n (i + 1))))
  | inr e ↦ rw e (slots_rendered now t n (i + 1))
]

queued_rendered : (sl : Snapshot) → queued_text sl ≡ rendered (queued_entry sl ∷ [])
unfolding queued_text
queued_rendered sl = elim (Bool-cases (sl.pending_mode == 0xFFFF)) [
  | inl e ↦ rw e refl
  | inr e ↦ rw e refl
]

acked_rendered : (sl : Snapshot) → acked_text sl ≡ rendered (acked_entry sl ∷ [])
unfolding acked_text
acked_rendered sl = elim (Bool-cases (sl.last_acked_mode == 0xFFFF)) [
  | inl e ↦ rw e refl
  | inr e ↦ rw e (
      ap (λ t. codes " MODE_ACKED=" ++ t)
        (sym (append_assoc (dec sl.last_acked_mode) (b'@' ∷ dec sl.last_ack_uptime_ms) [])))
]

slave_rendered : (sl : Snapshot) → slave_text sl ≡ rendered (slave_entries sl)
unfolding slave_text
slave_rendered sl = refl

setpoint_rendered : (sl : Snapshot) → setpoint_text sl ≡ rendered (setpoint_entries sl)
unfolding setpoint_text
setpoint_rendered sl = elim (Bool-cases (sl.pending_setpoint == 0xFFFF)) [
  | inl e ↦ rw e refl
  | inr e ↦ rw e refl
]

-- The whole line, with a blank in front.
pub line_rendered :
    (s : Mirror.State) (sl : Snapshot) (now : ℕ)
    → b' ' ∷ whole_line s sl now ≡ rendered (entries s sl now)
line_rendered s sl now =
    let e1 = status_entries s in
    let e2 = e1 ++ queued_entry sl ∷ [] in
    let e3 = e2 ++ acked_entry sl ∷ [] in
    let e4 = e3 ++ slave_entries sl in
    let e5 = e4 ++ setpoint_entries sl in
    sym (
      rendered-append e5 (slot_entries now s.counters counter_slots 0)
      ∙ ap₂ (λ (x y : List ℕ). x ++ y)
          (rendered-append e4 (setpoint_entries sl)
            ∙ ap₂ (λ (x y : List ℕ). x ++ y)
                (rendered-append e3 (slave_entries sl)
                  ∙ ap₂ (λ (x y : List ℕ). x ++ y)
                      (rendered-append e2 (acked_entry sl ∷ [])
                        ∙ ap₂ (λ (x y : List ℕ). x ++ y)
                            (rendered-append e1 (queued_entry sl ∷ [])
                              ∙ ap₂ (λ (x y : List ℕ). x ++ y) (sym (status_rendered s))
                                  (sym (queued_rendered sl)))
                            (sym (acked_rendered sl)))
                      (sym (slave_rendered sl)))
                (sym (setpoint_rendered sl)))
          (sym (slots_rendered now s.counters counter_slots 0)))
