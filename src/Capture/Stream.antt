-- ===== src/Capture/Stream.antt =====
-- From the bus over the Bluetooth stream (src/ble_transport.c, `ble_transport_forward_rs485`) into a
-- capture file (tools/ble-client/main.go, `cmdStream`) and its analysis
-- (tools/rs485-decode/main.go).
use flexit_cs60_control.Shared.{
  ℕ, ◌+◌, ◌≡◌, refl, ap, sym, ◌∙◌, subst, true, ◌&&◌, none, List, [], ◌∷◌, ◌++◌, inl, inr, length,
  take, ◌==◌, All, joined, append-nil, append_assoc,
}
use flexit_cs60_control.Platform.{Platform}
use flexit_cs60_control.Ble.{State, is_connected}
use flexit_cs60_control.Ble.Stream.{Host, Air, chunk_max, forward_rs485, forward_rs485-Forwarded}
use flexit_cs60_control.Capture.{crc16, analyse}
use flexit_cs60_control.Capture.Frames.{Traffic, stream, AllClear}
use flexit_cs60_control.Capture.Notes.{InRange, acks, changes}
use flexit_cs60_control.Capture.Report.{analyse_lem}

joined-append : (xs ys : List (List ℕ)) → joined (xs ++ ys) ≡ joined xs ++ joined ys
joined-append [] ys = refl
joined-append (x ∷ xs) ys =
    ap (λ t. x ++ t) (joined-append xs ys) ∙ sym (append_assoc x (joined xs) (joined ys))

-- `f.Write` of every notification, in the order in which they come.
unfoldable pub capture_file : List (List ℕ) → List ℕ
capture_file notes = joined notes

module _ (h : Host) (s : State) where
  -- The chunks of the drain worker, forwarded one after the other.
  abbrev pub forward_all : List (List ℕ) → Air → Air
  forward_all [] a = a
  forward_all (c ∷ cs) a = forward_all cs (forward_rs485 h c s a)

  module _ (on : (s.stream_active && is_connected s.current_conn) ≡ true)
      (taken : (n : ℕ) (payload : List ℕ) → (h.nus_send n payload == 0) ≡ true) where
    forwarded : (c : List ℕ) (a : Air) → joined (forward_rs485 h c s a).notes ≡ joined a.notes ++ c
    forwarded c a =
        let r = forward_rs485-Forwarded h c s a on in
        let all : joined r.chunks ≡ c = elim r.stopped [
          | inl e ↦
              sym (append-nil (joined r.chunks))
              ∙ ap (λ t. joined r.chunks ++ t) (sym e)
              ∙ r.in_order
          | inr refused ↦
              absurd (cc (taken (a.calls + length r.chunks) (take (chunk_max h.gatt_mtu) r.left)))
        ] in
        ap joined r.sent ∙ joined-append a.notes r.chunks ∙ ap (λ t. joined a.notes ++ t) all

    forwarded_all :
        (cs : List (List ℕ)) (a : Air)
        → joined (forward_all cs a).notes ≡ joined a.notes ++ joined cs
    forwarded_all [] a = sym (append-nil (joined a.notes))
    forwarded_all (c ∷ cs) a =
        forwarded_all cs (forward_rs485 h c s a)
        ∙ ap (λ t. t ++ joined cs) (forwarded c a)
        ∙ append_assoc (joined a.notes) c (joined cs)

    -- Whole frames on the bus, read by the drain worker in whatever chunks and streamed to a client
    -- that is connected, in notifications that the host all takes, end up in the capture file so
    -- that the analysis finds as many valid frames, every ack and each change of the setpoints.
    -- Responses must be to reads and must not begin with eight bytes that pass for a frame by
    -- accident; the checksum is that of the tool.
    pub capture_told :
        (p : Platform) (ts : List Traffic) (cs : List (List ℕ)) (calls : ℕ)
        → ((xs : List ℕ) → p.crc16 xs ≡ crc16 xs)
        → All InRange ts
        → AllClear p ts
        → joined cs ≡ stream p ts
        → let b =
            analyse (capture_file (forward_all cs (record { notes = []; calls = calls })).notes) in
          (b.valid ≡ length ts) × (b.fc65s ≡ acks ts) × (b.be_timeline ≡ changes none ts)
    unfolding capture_file
    capture_told p ts cs calls agrees r c whole =
        subst
          (λ bytes.
            let b = analyse bytes in
            (b.valid ≡ length ts) × (b.fc65s ≡ acks ts) × (b.be_timeline ≡ changes none ts))
          (sym (forwarded_all cs (record { notes = []; calls = calls }) ∙ whole))
          (analyse_lem p ts agrees r c)
