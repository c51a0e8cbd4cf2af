-- ===== src/Smp.antt =====
-- tools/ble-client/smp.go: the framing of SMP, the calls over it, and the upload of an image. The
-- CBOR payloads, coded by a package, are taken as they are.
pub mod Assembly
pub mod Timeout
pub mod Upload
pub mod Confirm
mod Tests
use flexit_cs60_control.Shared.{
  ℕ, zero, suc, ◌+◌, ◌-◌, ◌^◌, ◌%◌, Bool, ◌||◌, Option, none, some, List, [], ◌∷◌, ◌++◌, length,
  get_or, take, drop, ltb, leb, ◌==◌, if◌then◌else◌, be16, put_be16,
}

pub record Header : Type 0 where
  pub op : ℕ
  pub flags : ℕ
  pub len : ℕ
  pub group : ℕ
  pub seq : ℕ
  pub id : ℕ

unfoldable pub encode_header : Header → List ℕ
encode_header h = h.op ∷ h.flags ∷ put_be16 h.len ++ put_be16 h.group ++ h.seq ∷ h.id ∷ []

unfoldable pub decode_header : List ℕ → Option Header
decode_header b =
    if ltb (length b) 8
    then none
    else some (record {
      op = get_or b 0 0;
      flags = get_or b 1 0;
      len = be16 b 2;
      group = be16 b 4;
      seq = get_or b 6 0;
      id = get_or b 7 0;
    })

-- `smpTransport`; `resp_ch` is a channel of one place.
pub record Transport : Type 0 where
  pub seq : ℕ
  pub resp_buf : List ℕ
  pub resp_want : ℕ
  pub resp_ch : Option (List ℕ)

-- A send that is dropped where the channel is full.
abbrev pub offer : List ℕ → Option (List ℕ) → Option (List ℕ)
offer full none = some full
offer full (some old) = some old

-- What follows the test for a first fragment, with `want` as it is then.
unfoldable pub append_fragment : List ℕ → ℕ → Transport → Transport
append_fragment buf want t =
    let full = t.resp_buf ++ buf in
    if leb want (length full)
    then record t { resp_buf = []; resp_want = 0; resp_ch = offer full t.resp_ch }
    else record t { resp_buf = full; resp_want = want }

unfoldable pub on_notify : List ℕ → Transport → Transport
on_notify buf t =
    if length t.resp_buf == 0
    then elim (decode_header buf) [ none ↦ t | some h ↦ append_fragment buf (8 + h.len) t ]
    else append_fragment buf t.resp_want t

abbrev pub notified : List (List ℕ) → Transport → Transport
notified [] t = t
notified (f ∷ fs) t = notified fs (on_notify f t)

-- The frame of a request.
unfoldable pub request_frame : ℕ → ℕ → ℕ → ℕ → List ℕ → List ℕ
request_frame op group id seq payload =
    encode_header (record {
      op = op;
      flags = 0;
      len = length payload % 2 ^ 16;
      group = group;
      seq = seq;
      id = id;
    })
    ++ payload

-- The wait for the channel, and the payload behind the header.
unfoldable pub fetch : Transport → Option (List ℕ) × Transport
fetch t = elim t.resp_ch [
  | none ↦ (none, t)
  | some resp ↦ (some (drop 8 resp), record t { resp_ch = none })
]

-- `call`, where `answer` gives the notifications that come before the timeout; `none` is the
-- timeout, or a write that fails, which brings no notification.
unfoldable pub call :
    (List ℕ → List (List ℕ)) → ℕ → ℕ → ℕ → List ℕ → Transport → Option (List ℕ) × Transport
call answer op group id payload t =
    let frame = request_frame op group id t.seq payload in
    let drained = record t { seq = (t.seq + 1) % 2 ^ 8; resp_ch = none } in
    fetch (notified (answer frame) drained)

-- `chunkSize`; an MTU of 0 is an unknown one.
unfoldable pub chunk_size : ℕ → ℕ
chunk_size mtu = if ltb 96 mtu then mtu - 96 else 128

-- What an upload call brings: an error instead of a response, or its "rc", 0 where there is none,
-- and its "off".
pub data Reply : Type 0 where
  no_reply : Reply
  answer : ℕ → Option ℕ → Reply

pub data Outcome : Type 0 where
  uploaded failed running : Outcome

-- `int(n)` of a uint64_t is not above `off`.
abbrev pub stalls : ℕ → ℕ → Bool
stalls n off = leb n off || leb (2 ^ 63) n

-- The rest of a round from the response on; `go_on` is the loop from the next offset on.
unfoldable pub resume : {S : Type 0} → (ℕ → Outcome × S) → ℕ → ℕ → S → Reply → Outcome × S
resume go_on off end s no_reply = (failed, s)
resume go_on off end s (answer zero none) = go_on end
resume go_on off end s (answer zero (some n)) =
    let rest = go_on n in if stalls n off then (failed, s) else rest
resume go_on off end s (answer (suc code) off') = (failed, s)

-- Where the chunk from `off` on ends.
abbrev pub chunk_end : ℕ → ℕ → ℕ → ℕ
chunk_end size total off = if ltb total (off + size) then total else off + size

module _ {S : Type 0} (serve : ℕ → List ℕ → S → Reply × S) (size : ℕ) (file : List ℕ) where
  -- The loop of `imageUpload` from `off` on; `running` means that the fuel ran out.
  unfoldable pub upload : ℕ → ℕ → S → Outcome × S
  upload zero off s = (running, s)
  upload (suc fuel) off s =
      let end = chunk_end size (length file) off in
      let (reply, s') = serve off (take (end - off) (drop off file)) s in
      let rest = resume (λ n. upload fuel n s') off end s' reply in
      if ltb off (length file) then rest else (uploaded, s)

-- `imageUpload` of a file, on as much fuel as it has bytes, and one.
unfoldable pub image_upload :
    {S : Type 0} → (ℕ → List ℕ → S → Reply × S) → ℕ → List ℕ → S → Outcome × S
image_upload serve mtu file s = upload serve (chunk_size mtu) file (length file + 1) 0 s
