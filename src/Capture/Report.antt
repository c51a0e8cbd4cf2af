-- ===== src/Capture/Report.antt =====
-- What tools/rs485-decode/main.go reports of a capture of whole frames.
use flexit_cs60_control.Shared.{
  ℕ, ◌+◌, ◌≡◌, ap, ap₂, sym, ◌∙◌, Option, none, List, [], ◌∷◌, ◌++◌, arith, length, append_assoc,
  append-nil, All,
}
use flexit_cs60_control.Platform.{Platform}
use flexit_cs60_control.Capture.{crc16, count, Analysis, note, start, analyse}
use flexit_cs60_control.Capture.Frames.{Traffic, bytes, stream, AllClear}
use flexit_cs60_control.Capture.Decode.{noted, analyse-stream}
use flexit_cs60_control.Capture.Notes.{
  InRange, ack_of, acks, change, last_after, changes, note-Adds,
}

module _ (p : Platform) where
  noted_lem :
      (ts : List Traffic) (a : Analysis)
      → All InRange ts
      → let b = noted p ts a in
        (b.valid ≡ a.valid + length ts)
        × (b.fc65s ≡ a.fc65s ++ acks ts)
        × (b.be_timeline ≡ a.be_timeline ++ changes a.last_be ts)
  noted_lem [] a h = (omega arith, sym (append-nil a.fc65s), sym (append-nil a.be_timeline))
  noted_lem (t ∷ ts) a (h, hs) =
      let b = note (bytes p t) a in
      let s = note-Adds p t a h in
      let (count, acked, changed) = noted_lem ts b hs in
      (
        omega (arith, count, s.valid),
        acked ∙ ap (λ r. r ++ acks ts) s.fc65s ∙ append_assoc a.fc65s (ack_of t) (acks ts),
        changed
            ∙ ap₂ (λ (r : List (ℕ × ℕ)) (l : Option (ℕ × ℕ)). r ++ changes l ts) s.be_timeline
                s.last_be
            ∙ append_assoc a.be_timeline (change a.last_be t) (changes (last_after a.last_be t) ts),
      )

  -- A capture that is a stream of whole frames is reported as such: as many valid frames as were
  -- sent, every ack of a command with its register and value, in order, and the two setpoints of
  -- the status blocks each time they changed. Responses must be to reads and must not begin with
  -- eight bytes that pass for a frame by accident; the checksum is that of the tool.
  pub analyse_lem :
      (ts : List Traffic)
      → ((xs : List ℕ) → p.crc16 xs ≡ crc16 xs)
      → All InRange ts
      → AllClear p ts
      → let b = analyse (stream p ts) in
        (b.valid ≡ length ts) × (b.fc65s ≡ acks ts) × (b.be_timeline ≡ changes none ts)
  analyse_lem ts agrees h c =
      let (count, acked, changed) = noted_lem ts start h in
      let whole = analyse-stream p agrees ts c in
      (
        ap (λ (b : Analysis). b.valid) whole ∙ count ∙ omega arith,
        ap (λ (b : Analysis). b.fc65s) whole ∙ acked,
        ap (λ (b : Analysis). b.be_timeline) whole ∙ changed,
      )
