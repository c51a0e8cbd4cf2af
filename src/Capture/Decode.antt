-- ===== src/Capture/Decode.antt =====
-- What tools/rs485-decode/main.go makes of a capture of whole frames.
use flexit_cs60_control.Shared.{
  ℕ, zero, suc, ◌≤◌, ◌≡◌, refl, ap, ◌∙◌, true, List, [], ◌∷◌, ◌++◌, arith, length, drop,
  drop-append_right, ltb, length-append, put_le16, ◌-◌,
}
use flexit_cs60_control.Platform.{Platform}
use flexit_cs60_control.Slave.Respond.{stamp}
use flexit_cs60_control.Slave.Resync.{length-request}
use flexit_cs60_control.Mirror.Reception.{counter_frame, length-status_frame}
use flexit_cs60_control.Capture.{crc16, Analysis, note, scan, start, analyse}
use flexit_cs60_control.Capture.Frames.{
  Traffic, asked, wrote, status, answered, bytes, stream, Clear, AllClear, found, front,
}

-- The frames, noted one after the other.
abbrev pub noted : Platform → List Traffic → Analysis → Analysis
noted p [] a = a
noted p (t ∷ ts) a = noted p ts (note (bytes p t) a)

scan_end : (fuel : ℕ) (a : Analysis) → scan fuel [] a ≡ a
unfolding scan
scan_end zero a = refl
scan_end (suc fuel) a = refl

module _ (p : Platform) (agrees : (xs : List ℕ) → p.crc16 xs ≡ crc16 xs) where
  long_enough : (t : Traffic) → 4 ≤ length (bytes p t)
  unfolding counter_frame stamp
  long_enough (asked k x y) = omega (arith, length-request p k x y)
  long_enough (wrote addr value) = omega arith
  long_enough (status words) = omega (arith, length-status_frame p words)
  long_enough (answered slave fc payload) =
      omega
        (arith, length-append payload (put_le16 (p.crc16 (slave ∷ fc ∷ length payload ∷ payload))))

  scan_frame :
      (fuel : ℕ) (t : Traffic) (later : List ℕ) (a : Analysis)
      → Clear p t later
      → scan (suc fuel) (bytes p t ++ later) a ≡ scan fuel later (note (bytes p t) a)
  unfolding scan
  scan_frame fuel t later a c =
      let f = bytes p t in
      let more : ltb 3 (length (f ++ later)) ≡ true =
        ground (arith, long_enough t, length-append f later) in
      let none_over : length f - length f ≡ 0 = omega arith in
      let left : drop (length f) (f ++ later) ≡ later =
        drop-append_right (length f) f later (omega arith) ∙ ap (λ k. drop k later) none_over in
      rw (more, found p agrees t later c, front p agrees (length f) f later refl, left) refl

  -- A capture that is a stream of frames is taken apart into just these frames, in their order:
  -- requests, acks, writes, status blocks, and responses whose first eight bytes do not pass for a
  -- frame by accident.
  pub analyse-stream :
      (ts : List Traffic) → AllClear p ts → analyse (stream p ts) ≡ noted p ts start
  unfolding analyse
  analyse-stream ts c = scan_stream (length (stream p ts)) ts start c (omega arith)
    where
      scan_stream :
          (fuel : ℕ) (ts : List Traffic) (a : Analysis)
          → AllClear p ts
          → length (stream p ts) ≤ fuel
          → scan fuel (stream p ts) a ≡ noted p ts a
      scan_stream fuel [] a c h = scan_end fuel a
      scan_stream zero (t ∷ ts) a c h =
          absurd (omega (arith, h, long_enough t, length-append (bytes p t) (stream p ts)))
      scan_stream (suc fuel) (t ∷ ts) a (c, cs) h =
          scan_frame fuel t (stream p ts) a c
          ∙ scan_stream fuel ts (note (bytes p t) a) cs
              (omega (arith, h, long_enough t, length-append (bytes p t) (stream p ts)))
