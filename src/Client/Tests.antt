-- ===== src/Client/Tests.antt =====
-- The state line at boot, as tools/ble-client/main.go takes it apart.
use flexit_cs60_control.Shared.{◌+◌, ◌<◌, ◌≡◌, refl, [], ◌∷◌, length, ltb→lt, has_bit, coil}
use flexit_cs60_control.Shared.Text.{codes, dec, digits, hex4}
use flexit_cs60_control.Mirror
use flexit_cs60_control.Slave.{init, snapshot}
use flexit_cs60_control.Ble.Line.{
  format_state_line, status_text, format_temp_x10, temp_x10, tenths, counts_text, queued_text,
  acked_text, slave_text, setpoint_text,
}
use flexit_cs60_control.Ble.Fields.{whole_line}
use flexit_cs60_control.Client.{parse_line, kv_get}
use flexit_cs60_control.Client.Words.{counter_keys}
use flexit_cs60_control.Client.Entries.{entries}
use flexit_cs60_control.Client.Line.{parse_line-format_state_line}

boot_fits : length (whole_line Mirror.boot (snapshot init) 1000) + 1 < 512
unfolding status_text format_temp_x10 temp_x10 tenths counts_text dec digits hex4 queued_text
    acked_text slave_text setpoint_text snapshot has_bit coil
boot_fits = ltb→lt _ 512 refl

parse_line-format_state_line_example :
    parse_line (format_state_line 512 Mirror.boot (snapshot init) 1000) ≡ record {
      kv = entries Mirror.boot (snapshot init) 1000;
      cnt_keys = counter_keys (entries Mirror.boot (snapshot init) 1000);
    }
parse_line-format_state_line_example =
    parse_line-format_state_line Mirror.boot (snapshot init) 1000 boot_fits

-- What stands behind a key, and the empty text for a key that is not there.
looked_up : kv_get (codes "B") ((codes "A", codes "1") ∷ (codes "B", codes "2") ∷ []) [] ≡ codes "2"
unfolding kv_get
looked_up = refl
