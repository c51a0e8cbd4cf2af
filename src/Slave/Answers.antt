-- ===== src/Slave/Answers.antt =====
-- How src/flexit_slave.c answers the requests that make up the command cycles.
use flexit_cs60_control.Shared.{
  ℕ, ◌+◌, ◌/◌, ◌≤◌, ◌<◌, ◌≡◌, refl, ap, sym, subst, ◌∙◌, false, some, List, [], ◌∷◌, ◌++◌, arith,
  if◌then◌else◌, ◌==◌, put_be16, coil, leb, ltb, not, ◌&&◌,
}
use flexit_cs60_control.Platform.{Platform}
use flexit_cs60_control.Accum.{Accum, contents}
use flexit_cs60_control.Accum.Buffer
use flexit_cs60_control.Slave.{State, IsValid, slave_addr, cmd_mode, cmd_setpoint, bump}
use flexit_cs60_control.Slave.Respond.{
  stamp, resp_buf_size, build_fc01_response, build_fc03_response, put_regs,
}
use flexit_cs60_control.Slave.Responses.{build_fc01_response_lem}
use flexit_cs60_control.Slave.Handle.{
  World, Send, transmit, reply, setpoint_read, acknowledge, handle_fc01_request,
  handle_fc03_request, handle_fc65_broadcast,
}
use flexit_cs60_control.Slave.Decode.{accum_size}
use flexit_cs60_control.Slave.Matcher.{read_coils, read_holding, ack, handler}
use flexit_cs60_control.Slave.Resync.{request, request_words}
use flexit_cs60_control.Slave.Commands.{reg, acknowledge_lem, setpoint_read_lem}
use flexit_cs60_control.Slave.Exchange.{exchange, exchange_lem}

setpoint_read_pending :
    (addr qty : ℕ) (s : State)
    → ((setpoint_read addr qty s).pending_mode ≡ s.pending_mode)
      × ((setpoint_read addr qty s).pending_setpoint ≡ s.pending_setpoint)
unfolding setpoint_read
setpoint_read_pending addr qty s = ground arith

module _ (p : Platform) (send : Send) where
  one_register :
      (s : State) (addr : ℕ)
      → addr < 16
      → build_fc03_response p s resp_buf_size addr 1
        ≡ some (stamp p (slave_addr ∷ 0x03 ∷ 2 ∷ put_be16 (reg s addr)))
  unfolding build_fc03_response put_regs
  one_register s addr h = ground arith

  -- A response went out and the commands stand as they stood; coils may differ.
  pub record Answered (resp : List ℕ) (w t : World) : Type 0 where
    pub sent : t.sent ≡ w.sent ++ resp ∷ []
    pub regs : t.state.regs ≡ w.state.regs
    pub pending_mode : t.state.pending_mode ≡ w.state.pending_mode
    pub pending_setpoint : t.state.pending_setpoint ≡ w.state.pending_setpoint

  transmit-Answered :
      (resp : List ℕ) (w w' : World)
      → w'.sent ≡ w.sent
      → w'.state.regs ≡ w.state.regs
      → w'.state.pending_mode ≡ w.state.pending_mode
      → w'.state.pending_setpoint ≡ w.state.pending_setpoint
      → Answered resp w (transmit p send resp w')
  unfolding transmit
  transmit-Answered resp w w' hs hr hm hp = ground arith

  coils-transmit :
      (resp : List ℕ) (w : World) → (transmit p send resp w).state.coils ≡ w.state.coils
  unfolding transmit
  coils-transmit resp w = ground arith

  reads-transmit :
      (resp : List ℕ) (w : World)
      → (transmit p send resp w).state.setpoint_reads ≡ w.state.setpoint_reads
  unfolding transmit
  reads-transmit resp w = ground arith

  module _ (r : Accum × World) (v : Buffer.IsValid accum_size r.0) (e : contents r.0 ≡ []) where
    -- A poll of the first `qty` coils shows them, and changes no coil.
    pub poll_lem :
        (qty : ℕ)
        → 0 < qty
        → qty ≤ 472
        → let t = (exchange p send r read_coils 0 qty).1 in
          (bits : List ℕ) × ((j : ℕ) → j < qty → j < 16 → coil bits j ≡ coil r.1.state.coils j)
          × Answered (stamp p (slave_addr ∷ 0x01 ∷ (qty + 7) / 8 ∷ bits)) r.1 t
          × (t.state.coils ≡ r.1.state.coils)
    poll_lem qty h k =
        let (bits, built, size, shown) =
          build_fc01_response_lem p r.1.state 0 qty h k (omega arith) in
        let resp = stamp p (slave_addr ∷ 0x01 ∷ (qty + 7) / 8 ∷ bits) in
        let w' = record r.1 {
          state = record r.1.state { fc01_serviced = bump r.1.state.fc01_serviced };
        } in
        let served : (exchange p send r read_coils 0 qty).1 ≡ transmit p send resp w' =
          (exchange_lem p send r read_coils 0 qty v e).2 ∙ answer qty k built in
        (
          bits,
          λ j below few. shown j ∙ ground arith,
          subst (Answered resp r.1) (sym served)
              (transmit-Answered resp r.1 w' refl refl refl refl),
          ap (λ (t : World). t.state.coils) served ∙ coils-transmit resp w',
        )
      where
        answer :
            (qty : ℕ)
            → qty ≤ 472
            → {resp : List ℕ} → build_fc01_response p r.1.state resp_buf_size 0 qty ≡ some resp
            → handler p send read_coils (request p read_coils 0 qty) r.1
              ≡ transmit p send resp (record r.1 {
                state = record r.1.state { fc01_serviced = bump r.1.state.fc01_serviced };
              })
        answer qty k built =
            unfold handle_fc01_request reply in
            rw (
              (request_words p read_coils 0 qty (omega arith) (omega arith)).0,
              (request_words p read_coils 0 qty (omega arith) (omega arith)).1,
              built,
            )

    -- A read of one register carries it, and takes coil 12 down if it is register 12.
    pub read_lem :
        (addr : ℕ)
        → addr < 16
        → IsValid r.1.state
        → let t = (exchange p send r read_holding addr 1).1 in
          let covers = leb addr cmd_setpoint && ltb cmd_setpoint (addr + 1) in
          Answered (stamp p (slave_addr ∷ 0x03 ∷ 2 ∷ put_be16 (reg r.1.state addr))) r.1 t
          × ((i : ℕ)
              → coil t.state.coils i
                ≡ (not (covers && cmd_setpoint == i) && coil r.1.state.coils i))
          × (t.state.setpoint_reads ≡ (
              if covers && coil r.1.state.coils cmd_setpoint
              then bump r.1.state.setpoint_reads
              else r.1.state.setpoint_reads))
    read_lem addr h valid =
        let w' = record r.1 {
          state =
              setpoint_read addr 1
                (record r.1.state { fc03_serviced = bump r.1.state.fc03_serviced });
        } in
        let resp = stamp p (slave_addr ∷ 0x03 ∷ 2 ∷ put_be16 (reg r.1.state addr)) in
        let served : (exchange p send r read_holding addr 1).1 ≡ transmit p send resp w' =
          (exchange_lem p send r read_holding addr 1 v e).2 ∙ answer addr h in
        let valid' : IsValid (record r.1.state { fc03_serviced = bump r.1.state.fc03_serviced }) =
          record {
            two_bytes = valid.two_bytes;
            coil_bytes = valid.coil_bytes;
            sixteen_regs = valid.sixteen_regs;
            reg_words = valid.reg_words;
          } in
        (
          subst (Answered resp r.1) (sym served) (
              transmit-Answered resp r.1 w' refl (setpoint_read_lem valid' addr 1 0).1
                (setpoint_read_pending addr 1 _).0 (setpoint_read_pending addr 1 _).1),
          λ i.
              ap (λ (t : World). coil t.state.coils i) served
              ∙ ap (λ c. coil c i) (coils-transmit resp w')
              ∙ (setpoint_read_lem valid' addr 1 i).0,
          ap (λ (t : World). t.state.setpoint_reads) served
              ∙ reads-transmit resp w'
              ∙ (setpoint_read_lem valid' addr 1 0).2,
        )
      where
        answer :
            (addr : ℕ)
            → addr < 16
            → handler p send read_holding (request p read_holding addr 1) r.1
              ≡ transmit p send
                  (stamp p (slave_addr ∷ 0x03 ∷ 2 ∷ put_be16 (reg r.1.state addr)))
                  (record r.1 {
                    state =
                        setpoint_read addr 1
                          (record r.1.state { fc03_serviced = bump r.1.state.fc03_serviced });
                  })
        answer addr h =
            unfold handle_fc03_request reply in
            rw (
              (request_words p read_holding addr 1 (omega arith) (omega arith)).0,
              (request_words p read_holding addr 1 (omega arith) (omega arith)).1,
              one_register r.1.state addr h,
            )

    -- An ack of register 0 stamps it, clears coil 0 and is remembered.
    pub ack_lem :
        (value : ℕ)
        → value < 65536
        → IsValid r.1.state
        → let t = (exchange p send r ack cmd_mode value).1 in
          (t.sent ≡ r.1.sent)
          × (coil t.state.coils 0 ≡ false)
          × (reg t.state 0 ≡ value)
          × (t.state.last_acked_mode ≡ value)
          × (t.state.pending_mode ≡ r.1.state.pending_mode)
    ack_lem value h valid =
        let s' = record r.1.state { fc65_acks = bump r.1.state.fc65_acks } in
        let valid' : IsValid s' = record {
          two_bytes = valid.two_bytes;
          coil_bytes = valid.coil_bytes;
          sixteen_regs = valid.sixteen_regs;
          reg_words = valid.reg_words;
        } in
        let (down, stamped, acked, at, pending, other) =
          acknowledge_lem valid' cmd_mode value (p.uptime r.1.calls) 0 in
        let w' = record r.1 {
          state = acknowledge cmd_mode value (p.uptime r.1.calls) s';
          calls = r.1.calls + 1;
        } in
        let served : (exchange p send r ack cmd_mode value).1 ≡ w' =
          (exchange_lem p send r ack cmd_mode value v e).2 ∙ answer value h in
        (
          ap (λ (t : World). t.sent) served,
          ap (λ (t : World). coil t.state.coils 0) served ∙ down,
          ap (λ (t : World). reg t.state 0) served ∙ stamped,
          ap (λ (t : World). t.state.last_acked_mode) served ∙ acked,
          ap (λ (t : World). t.state.pending_mode) served ∙ pending,
        )
      where
        answer :
            (value : ℕ)
            → value < 65536
            → handler p send ack (request p ack cmd_mode value) r.1 ≡ record r.1 {
              state =
                  acknowledge cmd_mode value
                    (p.uptime r.1.calls)
                    (record r.1.state { fc65_acks = bump r.1.state.fc65_acks });
              calls = r.1.calls + 1;
            }
        answer value h =
            unfold handle_fc65_broadcast in
            rw (
              (request_words p ack cmd_mode value (omega arith) h).0,
              (request_words p ack cmd_mode value (omega arith) h).1,
            )
