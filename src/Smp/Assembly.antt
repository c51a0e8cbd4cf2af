-- ===== src/Smp/Assembly.antt =====
-- tools/ble-client/smp.go, `onNotify` and `call`: a response that comes in fragments.
use flexit_cs60_control.Shared.{
  ℕ, ◌+◌, ◌%◌, ◌^◌, ◌<◌, ◌≡◌, refl, ap, sym, ◌∙◌, true, false, none, some, List, [], ◌∷◌, ◌++◌,
  arith, length, leb, ◌==◌, All, joined, length-append, append_assoc, append-nil,
}
use flexit_cs60_control.Smp.{
  Header, encode_header, decode_header, Transport, offer, append_fragment, on_notify, notified,
  request_frame, call, fetch,
}

-- The fields fit a byte or two.
pub record InRange (h : Header) : Type 0 where
  pub op : h.op < 256
  pub flags : h.flags < 256
  pub len : h.len < 65536
  pub group : h.group < 65536
  pub seq : h.seq < 256
  pub id : h.id < 256

-- A header is read back, whatever follows it.
pub decode_header-encode_header :
    (h : Header) (rest : List ℕ) → InRange h → decode_header (encode_header h ++ rest) ≡ some h
unfolding decode_header encode_header
decode_header-encode_header h rest r = ground arith

no_fragment : (fs : List (List ℕ)) → All (λ f. 0 < length f) fs → length (joined fs) ≡ 0 → fs ≡ []
no_fragment [] all e = refl
no_fragment (f ∷ fs) (some_bytes, all) e =
    absurd (omega (arith, e, some_bytes, length-append f (joined fs)))

pub on_notify-later :
    (f : List ℕ) (t : Transport)
    → 0 < length t.resp_buf
    → on_notify f t ≡ append_fragment f t.resp_want t
unfolding on_notify
on_notify-later f t h =
    let begun : (length t.resp_buf == 0) ≡ false = ground (arith, h) in rw begun refl

pub on_notify-first :
    (f : List ℕ) (t : Transport) (h : Header)
    → t.resp_buf ≡ []
    → decode_header f ≡ some h
    → on_notify f t ≡ append_fragment f (8 + h.len) t
unfolding on_notify
on_notify-first f t h e d =
    let first : (length t.resp_buf == 0) ≡ true = ap (λ (b : List ℕ). length b == 0) e in
    rw (first, d) refl

-- What is left when a frame has arrived as a whole.
abbrev pub delivered : List ℕ → Transport → Transport
delivered frame t = record t { resp_buf = []; resp_want = 0; resp_ch = offer frame t.resp_ch }

append_last :
    (f frame : List ℕ) (want : ℕ) (t : Transport)
    → t.resp_buf ++ f ≡ frame
    → length frame ≡ want
    → append_fragment f want t ≡ delivered frame t
unfolding append_fragment
append_last f frame want t e l =
    let whole : leb want (length frame) ≡ true = ground (arith, l) in rw (e, whole) refl

pub append_more :
    (f : List ℕ) (want : ℕ) (t : Transport)
    → length (t.resp_buf ++ f) < want
    → append_fragment f want t ≡ record t { resp_buf = t.resp_buf ++ f; resp_want = want }
unfolding append_fragment
append_more f want t h =
    let short : leb want (length (t.resp_buf ++ f)) ≡ false = ground (arith, h) in rw short refl

-- Fragments that together are what is wanted.
gathered :
    (f : List ℕ) (fs : List (List ℕ)) (frame : List ℕ) (want : ℕ) (t : Transport)
    → 0 < length f
    → All (λ f. 0 < length f) fs
    → t.resp_buf ++ (f ++ joined fs) ≡ frame
    → length frame ≡ want
    → notified fs (append_fragment f want t) ≡ delivered frame t
gathered f [] frame want t some_bytes all e l =
    append_last f frame want t (ap (λ r. t.resp_buf ++ r) (sym (append-nil f)) ∙ e) l
gathered f (g ∷ fs) frame want t some_bytes (more, all) e l =
    let whole : length (t.resp_buf ++ (f ++ (g ++ joined fs))) ≡ want = ap length e ∙ l in
    let size : length (t.resp_buf ++ f) < want = omega (
      arith,
      whole,
      more,
      length-append t.resp_buf f,
      length-append t.resp_buf (f ++ (g ++ joined fs)),
      length-append f (g ++ joined fs),
      length-append g (joined fs),
    ) in
    let t1 : Transport = record t { resp_buf = t.resp_buf ++ f; resp_want = want } in
    ap (notified (g ∷ fs)) (append_more f want t size)
    ∙ ap (notified fs)
        (on_notify-later g t1 (omega (arith, some_bytes, length-append t.resp_buf f)))
    ∙ gathered g fs frame want t1 more all (append_assoc t.resp_buf f (g ++ joined fs) ∙ e) l

pub length-encode_header : (h : Header) → length (encode_header h) ≡ 8
unfolding encode_header
length-encode_header h = refl

module _ (h : Header) (payload : List ℕ) (r : InRange h) (sized : h.len ≡ length payload)
    (rest : List ℕ) (fs : List (List ℕ)) (whole : rest ++ joined fs ≡ payload)
    (all : All (λ f. 0 < length f) fs) where
  notified_lem :
      (t : Transport)
      → t.resp_buf ≡ []
      → notified ((encode_header h ++ rest) ∷ fs) t ≡ delivered (encode_header h ++ payload) t
  notified_lem t empty =
      let f = encode_header h ++ rest in
      let frame = encode_header h ++ payload in
      ap (notified fs) (on_notify-first f t h empty (decode_header-encode_header h rest r))
      ∙ gathered f fs frame (8 + h.len) t
          (omega (arith, length-append (encode_header h) rest, length-encode_header h)) all
          (ap (λ b. b ++ (f ++ joined fs)) empty
            ∙ append_assoc (encode_header h) rest (joined fs)
            ∙ ap (λ b. encode_header h ++ b) whole)
          (omega (arith, length-append (encode_header h) payload, length-encode_header h, sized))

  -- A call whose response comes in fragments that are not empty, the first with the whole header,
  -- returns the response's payload, with whatever was left in the channel drained; the transport
  -- is then ready for the next call, and its sequence number has moved on.
  pub call_lem :
      (answer : List ℕ → List (List ℕ)) (op group id : ℕ) (payload0 : List ℕ) (t : Transport)
      → t.resp_buf ≡ []
      → answer (request_frame op group id t.seq payload0) ≡ (encode_header h ++ rest) ∷ fs
      → call answer op group id payload0 t ≡ (
        some payload,
        record { seq = (t.seq + 1) % 2 ^ 8; resp_buf = []; resp_want = 0; resp_ch = none },
      )
  unfolding call fetch encode_header
  call_lem answer op group id payload0 t empty answered =
      let drained : Transport = record t { seq = (t.seq + 1) % 2 ^ 8; resp_ch = none } in
      ap (λ c. fetch (notified c drained)) answered ∙ ap fetch (notified_lem drained empty)
