-- ===== src/Ble.antt =====
-- src/ble_transport.c: the connection, the stream switch and what is armed. The children hold the
-- streaming, the status line, the commands and the proofs.
pub mod Stream
pub mod Line
pub mod Parse
pub mod Command
pub mod Fields
pub mod Replies
pub mod Bounds
pub mod Reach
mod Tests
use flexit_cs60_control.Shared.{
  ℕ, ◌+◌, ◌-◌, Bool, true, false, not, ◌||◌, Option, none, some, List, [], ◌∷◌, ltb, ◌==◌,
  if◌then◌else◌,
}
use flexit_cs60_control.Shared.Int.{ℤ, pos, negsuc}

-- `current_conn` as the number of the connection, `stream_active`, the references that
-- `bt_conn_ref` took and `bt_conn_unref` has not given back, whether `adv_restart_work` is
-- submitted, and the delay of `clearbond_work` in milliseconds.
pub record State : Type 0 where
  pub current_conn : Option ℕ
  pub stream_active : Bool
  pub references : ℕ
  pub adv_restart_work : Bool
  pub clearbond_work : Option ℕ

abbrev pub ble_boot : State
ble_boot = record {
  current_conn = none;
  stream_active = false;
  references = 0;
  adv_restart_work = false;
  clearbond_work = none;
}

-- What is asked of the Bluetooth host.
pub data Request : Type 0 where
  advertise unpair : Request
  raise_security disconnect : ℕ → Request

abbrev pub is_connected : Option ℕ → Bool
is_connected none = false
is_connected (some c) = true

abbrev pub is_conn : Option ℕ → ℕ → Bool
is_conn none conn = false
is_conn (some c) conn = c == conn

-- BT_SECURITY_L3
abbrev pub security_l3 : ℕ
security_l3 = 3

-- `connected`; `err` is the callback's, `sec` the answer of `bt_conn_set_security`.
unfoldable pub connected : ℕ → ℕ → ℕ → State → State × List Request
connected conn err sec s =
    let s' = record s { current_conn = some conn; references = s.references + 1 } in
    if err == 0
    then (s', raise_security conn ∷ (if sec == 0 then [] else disconnect conn ∷ []))
    else (s, [])

unfoldable pub disconnected : ℕ → State → State
disconnected conn s =
    let gone = is_conn s.current_conn conn in
    record s {
      stream_active = false;
      current_conn = if gone then none else s.current_conn;
      references = if gone then s.references - 1 else s.references;
      adv_restart_work = true;
    }

-- `security_changed` leaves the state; a link that is not authenticated is dropped.
unfoldable pub security_changed : ℕ → ℕ → ℕ → List Request
security_changed conn level err =
    if not (err == 0) || ltb level security_l3 then disconnect conn ∷ [] else []

-- `ble_transport_ensure_advertising`, and `ble_transport_is_connected`.
unfoldable pub ensure_advertising : State → List Request
ensure_advertising s = if is_connected s.current_conn then [] else advertise ∷ []

abbrev pub ble_is_connected : State → Bool
ble_is_connected s = is_connected s.current_conn

-- `adv_restart_work_handler`
unfoldable pub adv_restart_work_handler : State → State × List Request
unfolding ensure_advertising
adv_restart_work_handler s = (record s { adv_restart_work = false }, ensure_advertising s)

abbrev pub drop_link : Option ℕ → List Request
drop_link none = []
drop_link (some c) = disconnect c ∷ []

-- `clearbond_work_fn`, whose delay has run out.
unfoldable pub clearbond_work_fn : State → State × List Request
clearbond_work_fn s = (record s { clearbond_work = none }, unpair ∷ drop_link s.current_conn)

abbrev pub succeeded : ℤ → Bool
succeeded (pos n) = n == 0
succeeded (negsuc n) = false

-- `ble_transport_init`, from what the registrations of the two callback tables, `bt_enable` and
-- `bt_nus_init` return; a failure of `settings_load` changes nothing.
unfoldable pub ble_transport_init : ℤ → ℤ → ℤ → ℤ → ℤ × List Request
ble_transport_init auth info enable nus =
    if not (succeeded auth)
    then (auth, [])
    else if not (succeeded info)
    then (info, [])
    else if not (succeeded enable)
    then (enable, [])
    else if not (succeeded nus)
    then (nus, [])
    else (pos 0, advertise ∷ [])
