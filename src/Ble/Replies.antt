-- ===== src/Ble/Replies.antt =====
-- What the two commands with an argument do, in src/ble_transport.c.
use flexit_cs60_control.Shared.{
  ℕ, ◌+◌, ◌/◌, ◌%◌, ◌^◌, ◌≤◌, ◌<◌, ◌≡◌, refl, ap, sym, ◌∙◌, subst, Bool, true, List, [], ◌∷◌, ◌++◌,
  arith, length, get_or, take_all, length-append, leb, if◌then◌else◌, append-nil,
}
use flexit_cs60_control.Shared.Int.{ℤ, pos}
use flexit_cs60_control.Shared.Text.{
  codes, is_digit, dec, digits, scan, scan-dec, tens, length-dec, dec_head,
}
use flexit_cs60_control.Platform.{Platform}
use flexit_cs60_control.Slave
use flexit_cs60_control.Slave.{Status, ok, einval, queue_mode, queue_setpoint}
use flexit_cs60_control.Ble.Stream.{Host, notify}
use flexit_cs60_control.Ble.Line.{tenths}
use flexit_cs60_control.Ble.Parse.{command, skip_blanks, argument, Libc, parse_tenths, clamp_dc}
use flexit_cs60_control.Ble.Command.{
  Device, mode_bad_arg, mode_queued, setpoint_queued, mode_reply, mode_command, setpoint_command,
  run_command, nus_received,
}

skip_none : (s : List ℕ) → is_digit (get_or s 0 0) ≡ true → skip_blanks s ≡ s
unfolding skip_blanks
skip_none [] h = refl
skip_none (c ∷ s) h = ground (arith, h)

dec_digit : (d : ℕ) → d < 10 → dec d ≡ (b'0' + d) ∷ []
unfolding dec digits
dec_digit d h = ground arith

-- The argument behind one blank, where the buffer has room for it.
mode_argument :
    (s : List ℕ)
    → length s ≤ 10
    → is_digit (get_or s 0 0) ≡ true
    → argument 4 (codes "mode " ++ s) ≡ s
unfolding argument skip_blanks
mode_argument s h d = ap skip_blanks (take_all 10 s h) ∙ skip_none s d

setpoint_argument :
    (s : List ℕ)
    → length s ≤ 6
    → is_digit (get_or s 0 0) ≡ true
    → argument 8 (codes "setpoint " ++ s) ≡ s
unfolding argument skip_blanks
setpoint_argument s h d = ap skip_blanks (take_all 6 s h) ∙ skip_none s d

scan-dec_only : (n : ℕ) → n < tens 20 → scan (dec n) 0 ≡ (n, [])
scan-dec_only n h = ap (λ t. scan t 0) (sym (append_nil (dec n))) ∙ scan-dec n [] h refl
  where
    append_nil : (xs : List ℕ) → xs ++ [] ≡ xs
    append_nil xs = rw append-nil refl

parse_tenths-tenths : (n : ℕ) → n < tens 20 → parse_tenths (tenths n) ≡ n
unfolding parse_tenths tenths
parse_tenths-tenths n h = ground (
  arith,
  scan-dec (n / 10) (b'.' ∷ dec (n % 10)) (omega arith) refl,
  dec_digit (n % 10) (omega arith),
)

dec_only_head : (n : ℕ) → is_digit (get_or (dec n) 0 0) ≡ true
dec_only_head n = subst (λ t. is_digit (get_or t 0 0) ≡ true) (append-nil (dec n)) (dec_head n [])

mode_reply-queue_mode :
    (m : ℕ) (n : ℤ) (s : Slave.State)
    → mode_reply (queue_mode m s).0 n ≡ (if leb m 3 then mode_queued n else mode_bad_arg)
unfolding queue_mode
mode_reply-queue_mode m n s = ground arith

length-tenths : (n : ℕ) → n < 10000 → length (tenths n) ≤ 6
unfolding tenths
length-tenths n small = omega (
  arith,
  length-append (dec (n / 10)) (b'.' ∷ dec (n % 10)),
  length-dec 2 (n / 10) (omega arith),
  length-dec 0 (n % 10) (omega arith),
)

clamped : (n : ℕ) → clamp_dc n % 2 ^ 16 ≡ clamp_dc n
clamped n = ground arith

module _ (h : Host) (p : Platform) (libc : Libc) (scheduled : Bool) (d : Device) where
  -- The command, once its argument is known.
  mode_command_known :
      (payload s : List ℕ) (n : ℕ)
      → argument 4 payload ≡ s
      → is_digit (get_or s 0 0) ≡ true
      → libc.atoi s ≡ pos n
      → let t = mode_command h libc payload d in
        (t.slave ≡ (queue_mode (n % 65536) d.slave).1)
        × (t.air ≡ notify h (if leb (n % 65536) 3 then mode_queued (pos n) else mode_bad_arg) d.air)
  unfolding mode_command
  mode_command_known payload s n a head value =
      rw (a, head, value)
        (refl, ap (λ t. notify h t d.air) (mode_reply-queue_mode (n % 65536) (pos n) d.slave))

  -- "mode N" for a number N below 2 ^ 31: the slave is given N modulo 65536, which it takes if
  -- that is at most 3; the reply then names N itself, and else it is the complaint.
  pub mode_command_lem :
      (n : ℕ)
      → n < 2 ^ 31
      → let t = nus_received h p libc scheduled (codes "mode " ++ dec n) d in
        (t.slave ≡ (queue_mode (n % 65536) d.slave).1)
        × (t.air ≡ notify h (if leb (n % 65536) 3 then mode_queued (pos n) else mode_bad_arg) d.air)
  unfolding nus_received run_command command
  mode_command_lem n small =
      let value : scan (dec n) 0 ≡ (n, []) = scan-dec_only n (omega arith) in
      let head = dec_only_head n in
      mode_command_known (codes "mode " ++ dec n) (dec n) n
        (mode_argument (dec n) (length-dec 9 n (omega arith)) head) head
        (libc.atoi_lem (dec n) head (subst (λ r. r.0 < 2 ^ 31) (sym value) small)
          ∙ ap (λ r. pos r.0) value)

  setpoint_command_known :
      (payload s : List ℕ) (n : ℕ)
      → argument 8 payload ≡ s
      → is_digit (get_or s 0 0) ≡ true
      → parse_tenths s ≡ n
      → let t = setpoint_command h payload d in
        (t.slave ≡ (queue_setpoint (clamp_dc n % 2 ^ 16) d.slave).1)
        × (t.air ≡ notify h (setpoint_queued (clamp_dc n)) d.air)
  unfolding setpoint_command
  setpoint_command_known payload s n a head value = rw (a, head, value) (refl, refl)

  -- A temperature of up to 999.9 degrees, printed as the status line prints it, is read back:
  -- "setpoint T" gives the slave T in tenths, clamped to 10.0 .. 30.0 degrees, and the reply names
  -- the clamped temperature.
  pub setpoint_command_lem :
      (n : ℕ)
      → n < 10000
      → let t = nus_received h p libc scheduled (codes "setpoint " ++ tenths n) d in
        (t.slave ≡ (queue_setpoint (clamp_dc n) d.slave).1)
        × (t.air ≡ notify h (setpoint_queued (clamp_dc n)) d.air)
  unfolding nus_received run_command command tenths
  setpoint_command_lem n small =
      let head : is_digit (get_or (tenths n) 0 0) ≡ true =
        dec_head (n / 10) (b'.' ∷ dec (n % 10)) in
      let r =
        setpoint_command_known (codes "setpoint " ++ tenths n) (tenths n) n
          (setpoint_argument (tenths n) (length-tenths n small) head) head
          (parse_tenths-tenths n (omega arith)) in
      (r.0 ∙ ap (λ v. (queue_setpoint v d.slave).1) (clamped n), r.1)
