-- ===== src/Slave/Commands.antt =====
-- What the operations of src/flexit_slave.c do to the coils and registers, seen as tables.
use flexit_cs60_control.Shared.{
  ℕ, ◌+◌, ◌<◌, ◌≡◌, inl, inr, not, ◌&&◌, ◌||◌, List, arith, length, get_or, set, get_or-set_self,
  get_or-set_ne, ltb, leb, ◌==◌, if◌then◌else◌, coil, coil-set_coil, coil-clear_coil, Bool-cases,
  ==_iff,
}
use flexit_cs60_control.Slave.{
  State, ok, einval, IsValid, queue_mode, queue_setpoint, bump, reg_count, cmd_mode, cmd_setpoint,
}
use flexit_cs60_control.Slave.Handle.{setpoint_read, acknowledge}

-- Register `i` of a slave.
abbrev pub reg : State → ℕ → ℕ
reg s i = get_or s.regs i 0

reg-set :
    (regs : List ℕ) (i j v : ℕ)
    → i < length regs
    → get_or (set regs i v) j 0 ≡ (if i == j then v else get_or regs j 0)
reg-set regs i j v h = elim (Bool-cases (i == j)) [
  | inl e ↦ rw (e, ← (==_iff i j).0 e) (get_or-set_self regs i v 0 h)
  | inr e ↦ rw e (get_or-set_ne regs i j v 0 (ground arith))
]

module _ {s : State} (v : IsValid s) where
  -- A mode in range raises coil 0 over register 0 and is remembered; the other coils and registers
  -- are left alone. A mode out of range changes nothing.
  pub queue_mode_lem :
      (mode i : ℕ)
      → let (r, t) = queue_mode mode s in
        let done = leb mode 3 in
        (r ≡ (if done then ok else einval))
        × (coil t.coils i ≡ ((done && cmd_mode == i) || coil s.coils i))
        × (reg t i ≡ (if done && cmd_mode == i then mode else reg s i))
        × (t.pending_mode ≡ (if done then mode else s.pending_mode))
        × (t.pending_setpoint ≡ s.pending_setpoint)
  unfolding queue_mode
  queue_mode_lem mode i = ground (
    arith,
    coil-set_coil s.coils cmd_mode i v.coil_bytes,
    reg-set s.regs cmd_mode i mode,
    v.two_bytes,
    v.sixteen_regs,
  )

  -- A setpoint raises coil 12 over register 12 and is remembered; all else is left alone.
  pub queue_setpoint_lem :
      (value i : ℕ)
      → let (r, t) = queue_setpoint value s in
        (r ≡ ok)
        × (coil t.coils i ≡ (cmd_setpoint == i || coil s.coils i))
        × (reg t i ≡ (if cmd_setpoint == i then value else reg s i))
        × (t.pending_setpoint ≡ value)
        × (t.pending_mode ≡ s.pending_mode)
  unfolding queue_setpoint
  queue_setpoint_lem value i = ground (
    arith,
    coil-set_coil s.coils cmd_setpoint i v.coil_bytes,
    reg-set s.regs cmd_setpoint i value,
    v.two_bytes,
    v.sixteen_regs,
  )

  -- An ack stamps its register and clears its coil if it names one of the sixteen, and leaves the
  -- other coils and registers alone; only an ack of register 0 is remembered, with its time.
  pub acknowledge_lem :
      (addr value now i : ℕ)
      → let t = acknowledge addr value now s in
        let hit = ltb addr reg_count && addr == i in
        (coil t.coils i ≡ (not hit && coil s.coils i))
        × (reg t i ≡ (if hit then value else reg s i))
        × (t.last_acked_mode ≡ (if addr == cmd_mode then value else s.last_acked_mode))
        × (t.last_ack_uptime_ms ≡ (if addr == cmd_mode then now else s.last_ack_uptime_ms))
        × (t.pending_mode ≡ s.pending_mode)
        × (t.pending_setpoint ≡ s.pending_setpoint)
  unfolding acknowledge
  acknowledge_lem addr value now i = ground (
    arith,
    coil-clear_coil s.coils addr i v.coil_bytes,
    reg-set s.regs addr i value,
    v.two_bytes,
    v.sixteen_regs,
  )

  -- A read that covers register 12 takes coil 12 down and is counted, if the coil was up; no other
  -- coil and no register changes.
  pub setpoint_read_lem :
      (addr qty i : ℕ)
      → let t = setpoint_read addr qty s in
        let covers = leb addr cmd_setpoint && ltb cmd_setpoint (addr + qty) in
        (coil t.coils i ≡ (not (covers && cmd_setpoint == i) && coil s.coils i))
        × (t.regs ≡ s.regs)
        × (t.setpoint_reads ≡ (
            if covers && coil s.coils cmd_setpoint
            then bump s.setpoint_reads
            else s.setpoint_reads))
  unfolding setpoint_read
  setpoint_read_lem addr qty i =
      ground (arith, coil-clear_coil s.coils cmd_setpoint i v.coil_bytes, v.two_bytes)
