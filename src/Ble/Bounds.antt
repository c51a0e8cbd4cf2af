-- ===== src/Ble/Bounds.antt =====
-- src/ble_transport.c: how large a number the "setpoint" command can read, and what the slave is
-- given then.
use flexit_cs60_control.Shared.{
  ℕ, zero, suc, ◌+◌, ◌-◌, ◌*◌, ◌%◌, ◌^◌, ◌≤◌, ◌<◌, ◌≡◌, refl, inl, inr, ◌⊎◌, Bool, List, [], ◌∷◌,
  arith, length, get_or, take, drop, length-take, length-drop, Bool-cases,
}
use flexit_cs60_control.Shared.Text.{is_digit, scan}
use flexit_cs60_control.Platform.{Platform}
use flexit_cs60_control.Slave.{queue_setpoint}
use flexit_cs60_control.Ble.Stream.{Host}
use flexit_cs60_control.Ble.Parse.{
  setpoint, command, skip_blanks, argument, Libc, parse_tenths, clamp_dc,
}
use flexit_cs60_control.Ble.Command.{Device, setpoint_command, run_command, nus_received}

-- `m` times ten, `k` times.
abbrev shifted : ℕ → ℕ → ℕ
shifted zero m = m
shifted (suc k) m = shifted k (m * 10)

shifted_grows : (k n m : ℕ) → n < m → n < shifted k m
shifted_grows zero n m h = h
shifted_grows (suc k) n m h = shifted_grows k n (m * 10) (omega (arith, h))

scan-shifted : (s : List ℕ) (k n m : ℕ) → n < m → length s ≤ k → (scan s n).0 < shifted k m
unfolding scan
scan-shifted [] k n m h l = shifted_grows k n m h
scan-shifted (c ∷ s) zero n m h l = absurd (omega (arith, l))
scan-shifted (c ∷ s) (suc k) n m h l = elim (Bool-cases (is_digit c)) [
  | inl digit ↦ rw digit (
      scan-shifted s k (n * 10 + (c - b'0')) (m * 10) (ground (arith, digit, h)) (omega (arith, l)))
  | inr other ↦ rw other (shifted_grows (suc k) n m h)
]

length-skip_blanks : (s : List ℕ) → length (skip_blanks s) ≤ length s
unfolding skip_blanks
length-skip_blanks [] = omega arith
length-skip_blanks (c ∷ s) = ground (arith, length-skip_blanks s)

length-argument : (payload : List ℕ) → length (argument 8 payload) ≤ 7
unfolding argument
length-argument payload = omega (
  arith,
  length-skip_blanks (drop 8 (take 15 payload)),
  length-drop 8 (take 15 payload),
  length-take 15 payload,
)

parse_tenths-lt : (arg : List ℕ) → length arg ≤ 7 → parse_tenths arg < 10 ^ 8
unfolding parse_tenths
parse_tenths-lt arg l = ground (arith, scan-shifted arg 7 0 1 (omega arith) l)

module _ (h : Host) (p : Platform) (libc : Libc) (scheduled : Bool) where
  slave_bounded :
      (payload : List ℕ) (d : Device)
      → let t = setpoint_command h payload d in
        (t.slave ≡ d.slave)
        ⊎ ((dc : ℕ) × (100 ≤ dc) × (dc ≤ 300) × (t.slave ≡ (queue_setpoint dc d.slave).1))
  unfolding setpoint_command
  slave_bounded payload d = elim (Bool-cases (is_digit (get_or (argument 8 payload) 0 0))) [
    | inl digit ↦ rw digit (
        let dc = clamp_dc (parse_tenths (argument 8 payload)) in
        inr (dc % 2 ^ 16, ground arith, ground arith, refl))
    | inr other ↦ rw other (inl refl)
  ]

  -- No payload of a "setpoint" command overflows an int, and the slave is either left alone or
  -- given a temperature between 10.0 and 30.0 degrees.
  pub setpoint_command-bounded :
      (payload : List ℕ) (d : Device)
      → command payload ≡ setpoint
      → let t = nus_received h p libc scheduled payload d in
        (parse_tenths (argument 8 payload) < 2 ^ 31)
        × ((t.slave ≡ d.slave)
            ⊎ ((dc : ℕ) × (100 ≤ dc) × (dc ≤ 300) × (t.slave ≡ (queue_setpoint dc d.slave).1)))
  unfolding nus_received run_command
  setpoint_command-bounded payload d c = rw c (
    omega (arith, parse_tenths-lt (argument 8 payload) (length-argument payload)),
    slave_bounded payload d,
  )
