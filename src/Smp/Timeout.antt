-- ===== src/Smp/Timeout.antt =====
-- tools/ble-client/smp.go, `call`: what is left behind by a call that timed out.
use flexit_cs60_control.Shared.{
  ℕ, ◌+◌, ◌%◌, ◌^◌, ◌≤◌, ◌<◌, ◌≡◌, ◌≢◌, refl, ap, sym, ◌∙◌, true, Option, none, some, List, [], ◌∷◌,
  ◌++◌, arith, length, drop, leb, length-append, append_assoc,
}
use flexit_cs60_control.Smp.{
  Header, encode_header, Transport, append_fragment, notified, request_frame, call, fetch,
}
use flexit_cs60_control.Smp.Assembly.{
  InRange, decode_header-encode_header, on_notify-later, on_notify-first, append_more,
  length-encode_header,
}

-- The bytes of an unfinished response go in front of the next response.
behind_fragment :
    (answer : List ℕ → List (List ℕ)) (op group id : ℕ) (payload0 old frame : List ℕ)
    (t : Transport)
    → t.resp_buf ≡ old
    → 0 < length old
    → t.resp_want ≤ length (old ++ frame)
    → answer (request_frame op group id t.seq payload0) ≡ frame ∷ []
    → (call answer op group id payload0 t).0 ≡ some (drop 8 (old ++ frame))
unfolding call fetch append_fragment
behind_fragment answer op group id payload0 old frame t e some_bytes enough answered =
    let drained : Transport = record t { seq = (t.seq + 1) % 2 ^ 8; resp_ch = none } in
    let begun : 0 < length t.resp_buf = omega (arith, ap length e, some_bytes) in
    let whole : leb t.resp_want (length (t.resp_buf ++ frame)) ≡ true =
      ground (arith, enough, ap (λ b. length (b ++ frame)) e) in
    ap (λ c. (fetch (notified c drained)).0) answered
    ∙ ap (λ (u : Transport). (fetch u).0) (on_notify-later frame drained begun)
    ∙ rw whole (ap (λ b. some (drop 8 (b ++ frame))) e)

-- A call whose response stays unfinished.
unfinished :
    (answer : List ℕ → List (List ℕ)) (op group id : ℕ) (payload0 : List ℕ) (t : Transport)
    (h : Header) (part : List ℕ)
    → InRange h
    → t.resp_buf ≡ []
    → length part < h.len
    → answer (request_frame op group id t.seq payload0) ≡ (encode_header h ++ part) ∷ []
    → call answer op group id payload0 t ≡ (
      none,
      record {
        seq = (t.seq + 1) % 2 ^ 8;
        resp_buf = encode_header h ++ part;
        resp_want = 8 + h.len;
        resp_ch = none;
      },
    )
unfolding call fetch
unfinished answer op group id payload0 t h part r empty short answered =
    let f = encode_header h ++ part in
    let drained : Transport = record t { seq = (t.seq + 1) % 2 ^ 8; resp_ch = none } in
    let here : drained.resp_buf ++ f ≡ f = ap (λ b. b ++ f) empty in
    ap (λ c. fetch (notified c drained)) answered
    ∙ ap fetch (
        on_notify-first f drained h empty (decode_header-encode_header h part r)
        ∙ append_more f (8 + h.len) drained (
            rw here
              (omega (arith, length-append (encode_header h) part, length-encode_header h, short)))
        ∙ ap (λ b. record drained { resp_buf = b; resp_want = 8 + h.len }) here)

one_result : (o : Option (List ℕ)) (xs ys : List ℕ) → o ≡ some xs → o ≡ some ys → xs ≡ ys
one_result o xs ys e f = cc

drop_header : (h : Header) (rest : List ℕ) → drop 8 (encode_header h ++ rest) ≡ rest
unfolding encode_header
drop_header h rest = refl

-- Two calls in a row, the first of a transport with nothing unfinished. If the first response stops
-- behind its header and `part` of its payload, the call times out. The second call's response then
-- comes as a whole, and with at least as many bytes as the first one lacks: the call returns `part`
-- and the whole frame behind it, which is not the response's payload.
pub call_after_timeout :
    (answer1 answer2 : List ℕ → List (List ℕ)) (op group id : ℕ) (payload1 payload2 : List ℕ)
    (t : Transport) (h1 h2 : Header) (part payload : List ℕ)
    → InRange h1
    → t.resp_buf ≡ []
    → length part < h1.len
    → h1.len ≤ length part + 8 + length payload
    → answer1 (request_frame op group id t.seq payload1) ≡ (encode_header h1 ++ part) ∷ []
    → answer2 (request_frame op group id ((t.seq + 1) % 2 ^ 8) payload2)
      ≡ (encode_header h2 ++ payload) ∷ []
    → let (first, t') = call answer1 op group id payload1 t in
      let second = (call answer2 op group id payload2 t').0 in
      (first ≡ none)
      × (second ≡ some (part ++ (encode_header h2 ++ payload)))
      × (second ≢ some payload)
call_after_timeout answer1 answer2 op group id payload1 payload2 t h1 h2 part payload r empty short
      enough once then_whole =
    let stopped = unfinished answer1 op group id payload1 t h1 part r empty short once in
    let old = encode_header h1 ++ part in
    let frame = encode_header h2 ++ payload in
    let left : Transport = record {
      seq = (t.seq + 1) % 2 ^ 8;
      resp_buf = old;
      resp_want = 8 + h1.len;
      resp_ch = none;
    } in
    let sizes : (length old ≡ 8 + length part) × (length frame ≡ 8 + length payload) = (
      omega (arith, length-append (encode_header h1) part, length-encode_header h1),
      omega (arith, length-append (encode_header h2) payload, length-encode_header h2),
    ) in
    let mixed : (call answer2 op group id payload2 left).0 ≡ some (part ++ frame) =
      behind_fragment answer2 op group id payload2 old frame left refl (omega (arith, sizes.0))
        (omega (arith, sizes.0, sizes.1, length-append old frame, enough)) then_whole
      ∙ ap some (
          ap (drop 8) (append_assoc (encode_header h1) part frame)
          ∙ drop_header h1 (part ++ frame)) in
    (
      ap (λ (c : Option (List ℕ) × Transport). c.0) stopped,
      rw stopped mixed,
      λ e. absurd (
          omega (
            arith,
            length-append part frame,
            sizes.1,
            ap length (
                one_result _ _ _ mixed (
                  ap
                    (λ (c : Option (List ℕ) × Transport). (call answer2 op group id payload2 c.1).0)
                    (sym stopped)
                  ∙ e)),
          )),
    )
