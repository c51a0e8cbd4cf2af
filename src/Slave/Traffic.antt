-- ===== src/Slave/Traffic.antt =====
-- What src/flexit_slave.c puts on the bus, whatever it receives.
use flexit_cs60_control.Shared.{
  ℕ, ◌+◌, ◌*◌, ◌/◌, ◌%◌, ◌^◌, ◌≤◌, ◌≡◌, refl, ap, sym, ◌∙◌, ◌⊎◌, inl, inr, Bool, true, ◌||◌, Option,
  none, some, List, [], ◌∷◌, ◌++◌, arith, length, get_or, ltb, ◌==◌, if◌then◌else◌, be16, All,
  Below, length-append, length-replicate, replicate, false, Bool-cases,
}
use flexit_cs60_control.Platform.{Platform}
use flexit_cs60_control.Accum.{Accum, contents}
use flexit_cs60_control.Accum.Buffer
use flexit_cs60_control.Accum.Keeps.{feed_keeps}
use flexit_cs60_control.Slave.{State, slave_addr, reg_count}
use flexit_cs60_control.Slave.Respond.{
  stamp, resp_buf_size, build_fc01_response, build_fc03_response, build_fc04_response, put_regs,
  pack_coils, input_regs, input_reg_count,
}
use flexit_cs60_control.Slave.Responses.{crc_ok-stamp, length-pack_coils, length-put_regs}
use flexit_cs60_control.Slave.Handle.{
  World, Send, transmit, reply, setpoint_read, acknowledge, handle_fc01_request,
  handle_fc03_request, handle_fc04_request, handle_fc65_broadcast,
}
use flexit_cs60_control.Slave.Decode.{
  accum_size, fc_req_len, crc_ok, match_frame, bump_crc_failure, try_decode_at_front, slave_feed,
}
use flexit_cs60_control.Slave.Matcher.{
  Request, read_coils, read_holding, read_input, ack, handler, respond, opened, decode_kind,
  decode_short, matcher-IsDecoder,
}

-- The codes of the reads of coils, of holding and of input registers.
abbrev pub IsRead : ℕ → Type 0
IsRead fc = (fc ≡ 0x01) ⊎ ((fc ≡ 0x03) ⊎ (fc ≡ 0x04))

module _ (p : Platform) where
  -- A frame fit for the bus: it names the slave, answers one of the three reads, has as many bytes
  -- as it says, its checksum is right, and it fits the buffer.
  pub record IsResponse (frame : List ℕ) : Type 0 where
    pub from_us : get_or frame 0 0 ≡ slave_addr
    pub to_read : IsRead (get_or frame 1 0)
    pub sized : length frame ≡ get_or frame 2 0 + 5
    pub checked : crc_ok p frame (length frame) ≡ true
    pub fits : length frame ≤ resp_buf_size

  length-stamp : (frame : List ℕ) → length (stamp p frame) ≡ length frame + 2
  unfolding stamp
  length-stamp frame = length-append frame _

  stamped_count :
      (fc bc : ℕ) (body : List ℕ) → get_or (stamp p (slave_addr ∷ fc ∷ bc ∷ body)) 2 0 ≡ bc
  unfolding stamp
  stamped_count fc bc body = refl

  stamp-IsResponse :
      (fc bc : ℕ) (body : List ℕ)
      → IsRead fc
      → bc ≡ length body
      → length body + 5 ≤ resp_buf_size
      → IsResponse (stamp p (slave_addr ∷ fc ∷ bc ∷ body))
  stamp-IsResponse fc bc body read size h = record {
    from_us = unfold stamp in refl;
    to_read = unfold stamp in read;
    sized =
        omega (arith, length-stamp (slave_addr ∷ fc ∷ bc ∷ body), size)
        ∙ ap (λ n. n + 5) (sym (stamped_count fc bc body));
    checked =
        rw (length-stamp (slave_addr ∷ fc ∷ bc ∷ body))
          (crc_ok-stamp p (slave_addr ∷ fc ∷ bc ∷ body));
    fits = omega (arith, length-stamp (slave_addr ∷ fc ∷ bc ∷ body));
  }

  -- What a builder returns, if it returns a frame.
  abbrev Good : Option (List ℕ) → Type 0
  Good none = Unit
  Good (some r) = IsResponse r

  Good-if : (b : Bool) (o : Option (List ℕ)) → (b ≡ false → Good o) → Good (if b then none else o)
  Good-if true o h = tt
  Good-if false o h = h refl

  build_fc01-Good :
      (s : State) (start qty : ℕ) → Good (build_fc01_response p s resp_buf_size start qty)
  unfolding build_fc01_response
  build_fc01-Good s start qty =
      let bc = (qty + 7) / 8 in
      let bits = pack_coils s.coils start qty 0 (replicate bc 0) in
      let size : length bits ≡ bc =
        length-pack_coils s.coils start qty 0 (replicate bc 0) ∙ length-replicate bc 0 in
      Good-if (qty == 0 || ltb 2000 qty) _ λ e. Good-if (ltb resp_buf_size (3 + bc + 2)) _ λ f.
        stamp-IsResponse 0x01 (bc % 256) bits (inl refl) (ground (arith, size, f))
          (ground (arith, size))

  build_fc03-Good :
      (s : State) (addr qty : ℕ) → Good (build_fc03_response p s resp_buf_size addr qty)
  unfolding build_fc03_response
  build_fc03-Good s addr qty = Good-if (qty == 0 || ltb 8 qty) _ λ e.
      Good-if (ltb reg_count (addr + qty)) _ λ f.
        Good-if (ltb resp_buf_size (3 + qty * 2 + 2)) _ λ g.
          stamp-IsResponse 0x03 (qty * 2 % 256) (put_regs s.regs addr qty) (inr (inl refl))
            (ground (arith, length-put_regs s.regs addr qty, g))
            (ground (arith, length-put_regs s.regs addr qty))

  build_fc04-Good : (addr qty : ℕ) → Good (build_fc04_response p resp_buf_size addr qty)
  unfolding build_fc04_response
  build_fc04-Good addr qty = Good-if (qty == 0 || ltb input_reg_count qty) _ λ e.
      Good-if (ltb input_reg_count (addr + qty)) _ λ f.
        Good-if (ltb resp_buf_size (3 + qty * 2 + 2)) _ λ g.
          stamp-IsResponse 0x04 (qty * 2 % 256) (put_regs input_regs addr qty) (inr (inr refl))
            (ground (arith, length-put_regs input_regs addr qty, g))
            (ground (arith, length-put_regs input_regs addr qty))

-- Every frame on the bus is a response, and each is counted by its service counter.
pub record Accounted (p : Platform) (w : World) : Type 0 where
  pub responses : All (IsResponse p) w.sent
  pub counted :
      (w.state.fc01_serviced + w.state.fc03_serviced + w.state.fc04_serviced) % 2 ^ 32
      ≡ length w.sent % 2 ^ 32

All-snoc :
    (p : Platform) (frames : List (List ℕ)) (f : List ℕ)
    → All (IsResponse p) frames
    → IsResponse p f
    → All (IsResponse p) (frames ++ f ∷ [])
All-snoc p [] f h k = (k, tt)
All-snoc p (g ∷ frames) f h k = (h.0, All-snoc p frames f h.1 k)

-- The counters that a service bumps, and no other, move the sum.
abbrev serviced : State → ℕ
serviced s = (s.fc01_serviced + s.fc03_serviced + s.fc04_serviced) % 2 ^ 32

serviced-setpoint_read :
    (addr qty : ℕ) (s : State) → serviced (setpoint_read addr qty s) ≡ serviced s
unfolding setpoint_read
serviced-setpoint_read addr qty s = ground arith

serviced-acknowledge :
    (addr value now : ℕ) (s : State) → serviced (acknowledge addr value now s) ≡ serviced s
unfolding acknowledge
serviced-acknowledge addr value now s = ground arith

module _ (p : Platform) (send : Send) where
  transmit-Accounted :
      (resp : List ℕ) (w : World)
      → IsResponse p resp
      → All (IsResponse p) w.sent
      → serviced w.state ≡ (length w.sent + 1) % 2 ^ 32
      → Accounted p (transmit p send resp w)
  unfolding transmit
  transmit-Accounted resp w r all c = record {
    responses = All-snoc p w.sent resp all r;
    counted = ground (arith, length-append w.sent (resp ∷ []));
  }

  reply-Accounted :
      (o : Option (List ℕ)) (f : State → State) (w : World)
      → Good p o
      → serviced (f w.state) ≡ (serviced w.state + 1) % 2 ^ 32
      → Accounted p w
      → Accounted p (reply p send o f w)
  unfolding reply
  reply-Accounted none f w g e h = h
  reply-Accounted (some r) f w g e h =
      transmit-Accounted r (record w { state = f w.state }) g h.responses
        (e ∙ omega (arith, h.counted))

  handler-Accounted :
      (k : Request) (frame : List ℕ) (w : World)
      → Accounted p w
      → Accounted p (handler p send k frame w)
  unfolding handle_fc01_request handle_fc03_request handle_fc04_request handle_fc65_broadcast
  handler-Accounted read_coils frame w h =
      reply-Accounted _ _ w (build_fc01-Good p w.state (be16 frame 2) (be16 frame 4)) (omega arith)
        h
  handler-Accounted read_holding frame w h =
      reply-Accounted _ _ w (build_fc03-Good p w.state (be16 frame 2) (be16 frame 4))
        (serviced-setpoint_read (be16 frame 2) (be16 frame 4) _ ∙ omega arith) h
  handler-Accounted read_input frame w h =
      reply-Accounted _ _ w (build_fc04-Good p (be16 frame 2) (be16 frame 4)) (omega arith) h
  handler-Accounted ack frame w h = record {
    responses = h.responses;
    counted = serviced-acknowledge (be16 frame 2) (be16 frame 4) (p.uptime w.calls) _ ∙ h.counted;
  }

  respond-Accounted :
      (o : Option Request) (w : World) (xs : List ℕ)
      → Accounted p w
      → Accounted p (respond p send o w xs).1
  unfolding respond match_frame bump_crc_failure
  respond-Accounted none w xs h = h
  respond-Accounted (some k) w xs h = elim (Bool-cases (ltb (length xs) fc_req_len)) [
    | inl e ↦ rw e h
    | inr e ↦ elim (Bool-cases (crc_ok p xs fc_req_len)) [
      | inl c ↦ rw (e, c) (handler-Accounted k xs w h)
      | inr c ↦ rw (e, c) (record { responses = h.responses; counted = h.counted })
    ]
  ]

  decode-Accounted :
      (w : World) (xs : List ℕ) → Accounted p w → Accounted p (try_decode_at_front p send w xs).1
  decode-Accounted w xs h = elim (Bool-cases (ltb (length xs) 2)) [
    | inl e ↦ rw (decode_short p send w xs (ground arith)) h
    | inr e ↦ rw (decode_kind p send w xs (ground arith)) (respond-Accounted (opened xs) w xs h)
  ]

  -- Whatever bytes arrive, every frame handed to the bus is a response of the slave: to one of the
  -- three reads, with as many bytes as it says, and with a right checksum. The three service
  -- counters together count the frames, up to their width, if both held before.
  pub slave_feed-Accounted :
      (a : Accum) (w : World) (src : List ℕ)
      → Buffer.IsValid accum_size a
      → Below 256 (contents a)
      → Below 256 src
      → Accounted p w
      → Accounted p (slave_feed p send a w src).1
  unfolding slave_feed
  slave_feed-Accounted a w src va ba bs h =
      (feed_keeps (try_decode_at_front p send) (Accounted p) (λ w xs _. decode-Accounted w xs)
        (matcher-IsDecoder p send) va w src ba bs h).1
