-- ===== src/Slave/Invariant.antt =====
-- Every operation of the slave keeps the sizes of its tables and the widths of what they hold.
use flexit_cs60_control.Shared.{
  ℕ, ◌+◌, ◌&&◌, ◌<◌, ◌≡◌, refl, ◌∙◌, inl, inr, Option, none, some, List, arith, length, set, ltb,
  leb, ◌==◌, be16-lt, Below, Below-set, length-set, coil, clear_coil, length-set_coil,
  length-clear_coil, set_coil-Below, clear_coil-Below, Bool-cases,
}
use flexit_cs60_control.Platform.{Platform}
use flexit_cs60_control.Accum.{Accum, contents}
use flexit_cs60_control.Accum.Buffer
use flexit_cs60_control.Accum.Keeps.{feed_keeps}
use flexit_cs60_control.Slave.{
  State, IsValid, init, queue_mode, queue_setpoint, reg_count, cmd_mode, cmd_setpoint,
}
use flexit_cs60_control.Slave.Handle.{
  World, Send, transmit, reply, handle_fc01_request, handle_fc03_request, handle_fc04_request,
  handle_fc65_broadcast, setpoint_read, acknowledge,
}
use flexit_cs60_control.Slave.Decode.{
  accum_size, try_decode_at_front, match_frame, crc_ok, fc_req_len, bump_crc_failure, slave_feed,
}
use flexit_cs60_control.Slave.Matcher.{
  Request, read_coils, read_holding, read_input, ack, handler, respond, decode_kind, decode_short,
  matcher-IsDecoder,
}

pub init-IsValid : IsValid init
init-IsValid = omega arith

-- The same tables.
tables : {s t : State} → t.coils ≡ s.coils → t.regs ≡ s.regs → IsValid s → IsValid t
tables ec er v = record {
  two_bytes = rw ec v.two_bytes;
  coil_bytes = rw ec v.coil_bytes;
  sixteen_regs = rw er v.sixteen_regs;
  reg_words = rw er v.reg_words;
}

module _ {s : State} (v : IsValid s) where
  pub queue_mode-IsValid : (mode : ℕ) → IsValid (queue_mode mode s).1
  unfolding queue_mode
  queue_mode-IsValid mode = elim (Bool-cases (ltb 3 mode)) [
    | inl e ↦ rw e v
    | inr e ↦ rw e (record {
      two_bytes = length-set_coil s.coils cmd_mode ∙ v.two_bytes;
      coil_bytes = set_coil-Below s.coils cmd_mode v.coil_bytes;
      sixteen_regs = length-set s.regs cmd_mode mode ∙ v.sixteen_regs;
      reg_words = Below-set 65536 s.regs cmd_mode mode (ground arith) v.reg_words;
    })
  ]

  pub queue_setpoint-IsValid : (value : ℕ) → value < 65536 → IsValid (queue_setpoint value s).1
  unfolding queue_setpoint
  queue_setpoint-IsValid value h = record {
    two_bytes = length-set_coil s.coils cmd_setpoint ∙ v.two_bytes;
    coil_bytes = set_coil-Below s.coils cmd_setpoint v.coil_bytes;
    sixteen_regs = length-set s.regs cmd_setpoint value ∙ v.sixteen_regs;
    reg_words = Below-set 65536 s.regs cmd_setpoint value h v.reg_words;
  }

  clear_coil-IsValid : (i : ℕ) → IsValid (record s { coils = clear_coil s.coils i })
  clear_coil-IsValid i = record {
    two_bytes = length-clear_coil s.coils i ∙ v.two_bytes;
    coil_bytes = clear_coil-Below s.coils i v.coil_bytes;
    sixteen_regs = v.sixteen_regs;
    reg_words = v.reg_words;
  }

  set_reg-IsValid : (i value : ℕ) → value < 65536 → IsValid (record s { regs = set s.regs i value })
  set_reg-IsValid i value h = record {
    two_bytes = v.two_bytes;
    coil_bytes = v.coil_bytes;
    sixteen_regs = length-set s.regs i value ∙ v.sixteen_regs;
    reg_words = Below-set 65536 s.regs i value h v.reg_words;
  }

module _ {s : State} (v : IsValid s) where
  acknowledge-IsValid :
      (addr value now : ℕ) → value < 65536 → IsValid (acknowledge addr value now s)
  unfolding acknowledge
  acknowledge-IsValid addr value now h =
      let stamped = clear_coil-IsValid (set_reg-IsValid v addr value h) addr in
      elim (Bool-cases (ltb addr reg_count)) [
        | inl e ↦ elim (Bool-cases (addr == cmd_mode)) [
          | inl m ↦ rw (e, m) (tables refl refl stamped)
          | inr m ↦ rw (e, m) (tables refl refl stamped)
        ]
        | inr e ↦ rw e v
      ]

  setpoint_read-IsValid : (addr qty : ℕ) → IsValid (setpoint_read addr qty s)
  unfolding setpoint_read
  setpoint_read-IsValid addr qty =
      elim (Bool-cases
        (leb addr cmd_setpoint && ltb cmd_setpoint (addr + qty) && coil s.coils cmd_setpoint)) [
          | inl e ↦ rw e (tables refl refl (clear_coil-IsValid v cmd_setpoint))
          | inr e ↦ rw e v
        ]

module _ (p : Platform) (send : Send) where
  transmit-IsValid :
      (resp : List ℕ) (w : World) → IsValid w.state → IsValid (transmit p send resp w).state
  unfolding transmit
  transmit-IsValid resp w v = elim (Bool-cases (send w.calls resp == 0)) [
    | inl e ↦ rw e v
    | inr e ↦ rw e (tables refl refl v)
  ]

  reply-IsValid :
      (o : Option (List ℕ)) (f : State → State) (w : World)
      → ((s : State) → IsValid s → IsValid (f s))
      → IsValid w.state
      → IsValid (reply p send o f w).state
  unfolding reply
  reply-IsValid none f w h v = v
  reply-IsValid (some r) f w h v = transmit-IsValid r (record w { state = f w.state }) (h w.state v)

  handler-IsValid :
      (k : Request) (w : World) (frame : List ℕ)
      → Below 256 frame
      → IsValid w.state
      → IsValid (handler p send k frame w).state
  unfolding handle_fc01_request handle_fc03_request handle_fc04_request handle_fc65_broadcast
  handler-IsValid read_coils w frame b v = reply-IsValid _ _ w (λ s h. tables refl refl h) v
  handler-IsValid read_holding w frame b v =
      reply-IsValid _ _ w (λ s h. setpoint_read-IsValid (tables refl refl h) _ _) v
  handler-IsValid read_input w frame b v = reply-IsValid _ _ w (λ s h. tables refl refl h) v
  handler-IsValid ack w frame b v =
      acknowledge-IsValid (tables refl refl v) _ _ _ (be16-lt frame 4 b)

  respond-IsValid :
      (o : Option Request) (w : World) (xs : List ℕ)
      → Below 256 xs
      → IsValid w.state
      → IsValid (respond p send o w xs).1.state
  unfolding respond match_frame bump_crc_failure
  respond-IsValid none w xs b v = v
  respond-IsValid (some k) w xs b v = elim (Bool-cases (ltb (length xs) fc_req_len)) [
    | inl e ↦ rw e v
    | inr e ↦ elim (Bool-cases (crc_ok p xs fc_req_len)) [
      | inl c ↦ rw (e, c) (handler-IsValid k w xs b v)
      | inr c ↦ rw (e, c) (tables refl refl v)
    ]
  ]

  decode-IsValid :
      (w : World) (xs : List ℕ)
      → Below 256 xs
      → IsValid w.state
      → IsValid (try_decode_at_front p send w xs).1.state
  decode-IsValid w xs b v = elim (Bool-cases (ltb (length xs) 2)) [
    | inl e ↦ rw (decode_short p send w xs (ground arith)) v
    | inr e ↦ rw (decode_kind p send w xs (ground arith)) (respond-IsValid _ w xs b v)
  ]

  -- Whatever bytes arrive, the slave's tables keep their sizes and hold bytes and words.
  pub slave_feed-IsValid :
      (a : Accum) (w : World) (src : List ℕ)
      → Buffer.IsValid accum_size a
      → Below 256 (contents a)
      → Below 256 src
      → IsValid w.state
      → IsValid (slave_feed p send a w src).1.state
  unfolding slave_feed
  slave_feed-IsValid a w src va ba bs v =
      (feed_keeps (try_decode_at_front p send) (λ w. IsValid w.state) decode-IsValid
        (matcher-IsDecoder p send) va w src ba bs v).1
