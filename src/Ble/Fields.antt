-- ===== src/Ble/Fields.antt =====
-- src/ble_transport.c, `format_state_line`: what its buffer bounds, and what it leaves out.
use flexit_cs60_control.Shared.{
  ℕ, zero, suc, ◌+◌, ◌-◌, ◌<◌, ◌≡◌, sym, subst, ◌∙◌, inl, inr, not, List, [], ◌∷◌, ◌++◌, arith,
  length, take, take_all, length-take, length-append, ltb, leb, if◌then◌else◌, Bool-cases,
  append_assoc, append-nil,
}
use flexit_cs60_control.Mirror
use flexit_cs60_control.Mirror.{Slot, counter_slots}
use flexit_cs60_control.Mirror.Counters.{slot_at}
use flexit_cs60_control.Slave.{Snapshot}
use flexit_cs60_control.Ble.Line.{
  status_text, queued_text, acked_text, slave_text, setpoint_text, slot_text, append_part,
  append_slots, finish, format_state_line,
}

-- The counters in use among `n` slots from slot `i` on, each as it is printed.
abbrev pub slots_text : ℕ → List Slot → ℕ → ℕ → List ℕ
slots_text now t zero i = []
slots_text now t (suc n) i =
    (if (slot_at t i).used then slot_text now (slot_at t i) else []) ++ slots_text now t n (i + 1)

-- The line without any bound, but for its line end.
abbrev pub whole_line : Mirror.State → Snapshot → ℕ → List ℕ
whole_line s sl now =
    status_text s
    ++ queued_text sl
    ++ acked_text sl
    ++ slave_text sl
    ++ setpoint_text sl
    ++ slots_text now s.counters counter_slots 0

append_part-bounded :
    (cap : ℕ) (line part : List ℕ) → length line < cap → length (append_part cap line part) < cap
unfolding append_part
append_part-bounded cap line part h = ground (arith, length-append line part)

append_slots-bounded :
    (cap now : ℕ) (t : List Slot) (n i : ℕ) (line : List ℕ)
    → length line < cap
    → length (append_slots cap now t n i line) < cap
unfolding append_slots
append_slots-bounded cap now t zero i line h = h
append_slots-bounded cap now t (suc n) i line h =
    let part = slot_text now (slot_at t i) in
    ground (
      arith,
      length-append line part,
      length-take (cap - 1) (line ++ part),
      append_slots-bounded cap now t n (i + 1) line h,
      append_slots-bounded cap now t n (i + 1) (line ++ part),
    )

finish-bounded : (cap : ℕ) (line : List ℕ) → length line < cap → length (finish cap line) < cap
unfolding finish
finish-bounded cap line h = ground (arith, length-append line (10 ∷ []))

append_part-fits :
    (cap : ℕ) (line part : List ℕ)
    → length (line ++ part) + 1 < cap
    → append_part cap line part ≡ line ++ part
unfolding append_part
append_part-fits cap line part h = ground (arith, length-append line part)

-- The two tests of the loop, for lengths that fit.
taken :
    {A : Type 0}
    → (cap l p r : ℕ) (x y z : A) → l + (p + r) + 1 < cap
    → (if not (ltb l (cap - 1)) then x else if leb (cap - l) p then y else z) ≡ z
taken cap l p r x y z h = ground (arith, h)

not_full :
    {A : Type 0}
    → (cap l r : ℕ) (x y : A) → l + r + 1 < cap
    → (if not (ltb l (cap - 1)) then x else y) ≡ y
not_full cap l r x y h = ground (arith, h)

append_slots-fits :
    (cap now : ℕ) (t : List Slot) (n i : ℕ) (line : List ℕ)
    → length (line ++ slots_text now t n i) + 1 < cap
    → append_slots cap now t n i line ≡ line ++ slots_text now t n i
unfolding append_slots
append_slots-fits cap now t zero i line h = sym (append-nil line)
append_slots-fits cap now t (suc n) i line h = elim (Bool-cases (slot_at t i).used) [
  | inl used ↦
      let part = slot_text now (slot_at t i) in
      let rest = slots_text now t n (i + 1) in
      let all : length (line ++ (part ++ rest)) + 1 < cap = rw used at h in
      let lens : length line + (length part + length rest) + 1 < cap =
        omega (arith, length-append line (part ++ rest), length-append part rest, all) in
      let go =
        append_slots-fits cap now t n (i + 1) (line ++ part)
          (subst (λ l. length l + 1 < cap) (sym (append_assoc line part rest)) all) in
      rw used (
        taken cap (length line) (length part) (length rest) line (take (cap - 1) (line ++ part))
          (append_slots cap now t n (i + 1) (line ++ part)) lens
        ∙ go
        ∙ append_assoc line part rest)
  | inr unused ↦
      let rest = slots_text now t n (i + 1) in
      let all : length (line ++ rest) + 1 < cap = rw unused at h in
      let lens : length line + length rest + 1 < cap =
        omega (arith, length-append line rest, all) in
      rw unused (
        not_full cap (length line) (length rest) line (append_slots cap now t n (i + 1) line) lens
        ∙ append_slots-fits cap now t n (i + 1) line all)
]

finish-fits : (cap : ℕ) (line : List ℕ) → length line + 1 < cap → finish cap line ≡ line ++ 10 ∷ []
unfolding finish
finish-fits cap line h = ground arith

-- What fits as a whole fits as far as it goes.
shorter : (cap : ℕ) (xs ys : List ℕ) → length (xs ++ ys) + 1 < cap → length xs + 1 < cap
shorter cap xs ys h = omega (arith, length-append xs ys)

module _ (cap : ℕ) (s : Mirror.State) (sl : Snapshot) (now : ℕ) where
  -- Whatever the state, the line leaves room for a NUL in a buffer of `cap` bytes, so that nothing
  -- is written behind the buffer.
  pub format_state_line-bounded : 0 < cap → length (format_state_line cap s sl now) < cap
  unfolding format_state_line
  format_state_line-bounded room =
      let start : length (take (cap - 1) (status_text s)) < cap =
        omega (arith, length-take (cap - 1) (status_text s)) in
      let one = append_part-bounded cap (take (cap - 1) (status_text s)) (queued_text sl) start in
      finish-bounded cap _ (
        append_slots-bounded cap now s.counters counter_slots 0 _ (
          append_part-bounded cap _ (setpoint_text sl) (
            append_part-bounded cap _ (slave_text sl)
              (append_part-bounded cap _ (acked_text sl) one))))

  -- If the line as it would be without a bound leaves room for its line end and a NUL, every part
  -- of it is sent, in order, with the counters in use and the line end behind.
  pub format_state_line-whole_line :
      length (whole_line s sl now) + 1 < cap
      → format_state_line cap s sl now ≡ whole_line s sl now ++ 10 ∷ []
  unfolding format_state_line
  format_state_line-whole_line h =
      let t1 = status_text s ++ queued_text sl in
      let t2 = t1 ++ acked_text sl in
      let t3 = t2 ++ slave_text sl in
      let t4 = t3 ++ setpoint_text sl in
      let h4 = shorter cap t4 (slots_text now s.counters counter_slots 0) h in
      let h3 = shorter cap t3 (setpoint_text sl) h4 in
      let h2 = shorter cap t2 (slave_text sl) h3 in
      let h1 = shorter cap t1 (acked_text sl) h2 in
      let h0 = shorter cap (status_text s) (queued_text sl) h1 in
      rw
        (
          take_all (cap - 1) (status_text s) (omega (arith, h0)),
          append_part-fits cap (status_text s) (queued_text sl) h1,
          append_part-fits cap t1 (acked_text sl) h2,
          append_part-fits cap t2 (slave_text sl) h3,
          append_part-fits cap t3 (setpoint_text sl) h4,
          append_slots-fits cap now s.counters counter_slots 0 t4 h,
        )
        (finish-fits cap (whole_line s sl now) h)
