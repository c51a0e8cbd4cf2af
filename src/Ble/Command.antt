-- ===== src/Ble/Command.antt =====
-- src/ble_transport.c, `nus_received`: what a command does. Log lines are left out.
use flexit_cs60_control.Shared.{
  ℕ, ◌+◌, ◌/◌, ◌%◌, ◌^◌, Bool, true, false, some, List, get_or, if◌then◌else◌,
}
use flexit_cs60_control.Shared.Int.{ℤ, word16}
use flexit_cs60_control.Shared.Text.{codes, dec, dec_int, is_digit}
use flexit_cs60_control.Platform.{Platform}
use flexit_cs60_control.Mirror
use flexit_cs60_control.Slave
use flexit_cs60_control.Slave.{Status, ok, einval, queue_mode, queue_setpoint}
use flexit_cs60_control.Zigbee.Network.{NetState, idle, joining, joined, Net, factory_reset}
use flexit_cs60_control.Ble.{State}
use flexit_cs60_control.Ble.Stream.{Host, Air, notify}
use flexit_cs60_control.Ble.Line.{format_state_line, put}
use flexit_cs60_control.Ble.Parse.{
  Command, stream, state, zbstate, stop, zbreset, clearbond, mode, setpoint, unknown, command,
  argument, Libc, parse_tenths, clamp_dc,
}

-- All that a command reaches: the modules' states, the notifications, and the clock's calls.
pub record Device : Type 0 where
  pub ble : State
  pub air : Air
  pub slave : Slave.State
  pub mirror : Mirror.State
  pub net : Net
  pub calls : ℕ

abbrev pub net_text : NetState → List ℕ
net_text joining = codes "JOINING (pairing window open)"
net_text joined = codes "JOINED"
net_text idle = codes "IDLE (not joined)"

abbrev pub mode_bad_arg : List ℕ
mode_bad_arg = codes "mode: bad arg\n"

abbrev pub setpoint_bad_arg : List ℕ
setpoint_bad_arg = codes "setpoint: bad arg\n"

abbrev pub mode_queued : ℤ → List ℕ
mode_queued n = put "mode: queued=" (dec_int n) (codes "\n")

abbrev pub setpoint_queued : ℕ → List ℕ
setpoint_queued dc =
    put "setpoint: queued=" (dec (dc / 10)) (put "." (dec (dc % 10)) (codes " C\n"))

-- The reply to a queued mode.
abbrev pub mode_reply : Status → ℤ → List ℕ
mode_reply ok n = mode_queued n
mode_reply einval n = mode_bad_arg

module _ (h : Host) where
  -- A reply, sent once.
  abbrev pub say : List ℕ → Device → Device
  say text d = record d { air = notify h text d.air }

  unfoldable pub mode_command : Libc → List ℕ → Device → Device
  mode_command libc payload d =
      let arg = argument 4 payload in
      let n = libc.atoi arg in
      let (r, s) = queue_mode (word16 n) d.slave in
      if is_digit (get_or arg 0 0)
      then say (mode_reply r n) (record d { slave = s })
      else say mode_bad_arg d

  unfoldable pub setpoint_command : List ℕ → Device → Device
  setpoint_command payload d =
      let arg = argument 8 payload in
      let dc = clamp_dc (parse_tenths arg) in
      if is_digit (get_or arg 0 0)
      then say (setpoint_queued dc) (record d { slave = (queue_setpoint (dc % 2 ^ 16) d.slave).1 })
      else say setpoint_bad_arg d

  -- `scheduled` says whether ZBOSS takes a factory reset.
  unfoldable pub run_command : Platform → Libc → Bool → Command → List ℕ → Device → Device
  unfolding mode_command setpoint_command
  run_command p libc scheduled stream payload d = record d {
    ble = record d.ble { stream_active = true };
  }
  run_command p libc scheduled state payload d =
      let line =
        format_state_line 512 (Mirror.snapshot d.mirror) (Slave.snapshot d.slave)
          (p.uptime d.calls) in
      say line (record d { calls = d.calls + 1 })
  run_command p libc scheduled zbstate payload d =
      say (put "zbstate: " (net_text d.net.net_state) (codes "\n")) d
  run_command p libc scheduled stop payload d = record d {
    ble = record d.ble { stream_active = false };
  }
  run_command p libc scheduled zbreset payload d =
      let told = say (codes "zbreset: leaving Zigbee network, clearing NVRAM, rebooting\n") d in
      record told { net = factory_reset scheduled told.net }
  run_command p libc scheduled clearbond payload d =
      let told =
        say (codes "clearbond: removing bond, disconnecting (re-pair on next connect)\n") d in
      record told { ble = record told.ble { clearbond_work = some 300 } }
  run_command p libc scheduled mode payload d = mode_command libc payload d
  run_command p libc scheduled setpoint payload d = setpoint_command payload d
  run_command p libc scheduled unknown payload d = d

  unfoldable pub nus_received : Platform → Libc → Bool → List ℕ → Device → Device
  nus_received p libc scheduled payload d = run_command p libc scheduled (command payload) payload d
