-- ===== src/Capture/Frames.antt =====
-- The frames of the bus, as tools/rs485-decode/main.go finds them in a capture.
use flexit_cs60_control.Shared.{
  ℕ, ◌+◌, ◌-◌, ◌≤◌, ◌≡◌, refl, ap, sym, ◌∙◌, true, false, ◌||◌, some, List, [], ◌∷◌, ◌++◌, ◌⊎◌,
  arith, length, take, ltb, put_be16, put_le16, length-append, take-append, take_all, ==_iff,
  le16-put_le16, Bool-cases, inl, inr, ◌/◌, ◌%◌,
}
use flexit_cs60_control.Platform.{Platform}
use flexit_cs60_control.Slave.Respond.{stamp, put_regs}
use flexit_cs60_control.Slave.Responses.{le16-append}
use flexit_cs60_control.Slave.Matcher.{Request, read_coils, read_holding, read_input, ack, opens}
use flexit_cs60_control.Slave.Resync.{request}
use flexit_cs60_control.Mirror.Reception.{
  status_frame, counter_frame, status_head, length-status_frame,
}
use flexit_cs60_control.Capture.{crc16, crc_ok, candidate_lengths, first_frame}

-- What goes over the bus: a request to the slave or an ack of it, the write of one register, a
-- status block, the response of a slave to a read.
pub data Traffic : Type 0 where
  asked : Request → ℕ → ℕ → Traffic
  wrote : ℕ → ℕ → Traffic
  status : List ℕ → Traffic
  answered : ℕ → ℕ → List ℕ → Traffic

candidates_read :
    (a fc c : ℕ) (rest : List ℕ)
    → 1 ≤ fc
    → fc ≤ 4
    → candidate_lengths (a ∷ fc ∷ c ∷ rest) ≡ 8 ∷ (c + 5) ∷ []
unfolding candidate_lengths
candidates_read a fc c rest h k = ground arith

candidates_write : (a c : ℕ) (rest : List ℕ) → candidate_lengths (a ∷ 0x06 ∷ c ∷ rest) ≡ 8 ∷ []
unfolding candidate_lengths
candidates_write a c rest = ground arith

candidates_ack : (a c : ℕ) (rest : List ℕ) → candidate_lengths (a ∷ 0x65 ∷ c ∷ rest) ≡ 8 ∷ []
unfolding candidate_lengths
candidates_ack a c rest = ground arith

candidates_block :
    (a b c d e n : ℕ) (rest : List ℕ)
    → candidate_lengths (a ∷ 0x10 ∷ b ∷ c ∷ d ∷ e ∷ n ∷ rest) ≡ (n + 9) ∷ []
unfolding candidate_lengths
candidates_block a b c d e n rest = ground arith

module _ (p : Platform) where
  abbrev pub bytes : Traffic → List ℕ
  bytes (asked k x y) = request p k x y
  bytes (wrote addr value) = counter_frame p addr value
  bytes (status words) = status_frame p words
  bytes (answered slave fc payload) = stamp p (slave ∷ fc ∷ length payload ∷ payload)

  abbrev pub stream : List Traffic → List ℕ
  stream [] = []
  stream (t ∷ ts) = bytes t ++ stream ts

  -- A response is to a read, and its first eight bytes, where there are so many in front of
  -- `later`, are no frame, unless they are the response.
  abbrev pub Clear : Traffic → List ℕ → Type 0
  Clear (asked k x y) later = Unit
  Clear (wrote addr value) later = Unit
  Clear (status words) later = Unit
  Clear (answered slave fc payload) later =
      (1 ≤ fc)
      × (fc ≤ 4)
      × ((length payload ≡ 3)
          ⊎ (crc_ok (take 8 (bytes (answered slave fc payload) ++ later)) ≡ false))

  abbrev pub AllClear : List Traffic → Type 0
  AllClear [] = Unit
  AllClear (t ∷ ts) = Clear t (stream ts) × AllClear ts

  module _ (agrees : (xs : List ℕ) → p.crc16 xs ≡ crc16 xs) where
    crc_ok-stamp : (frame : List ℕ) → 2 ≤ length frame → crc_ok (stamp p frame) ≡ true
    unfolding crc_ok stamp
    crc_ok-stamp frame h =
        let n : length (frame ++ put_le16 (p.crc16 frame)) ≡ length frame + 2 =
          length-append frame (put_le16 (p.crc16 frame)) in
        let two : length frame + 2 - 2 ≡ length frame = omega arith in
        let small : ltb (length frame + 2) 4 ≡ false = ground arith in
        rw
          (
            n,
            small,
            two,
            take-append (length frame) frame (put_le16 (p.crc16 frame)) (omega arith),
            take_all (length frame) frame (omega arith),
          )
          ((==_iff _ _).1 (
            sym (
              le16-append frame (put_le16 (p.crc16 frame))
              ∙ le16-put_le16 (p.crc16 frame) (p.crc16-lt frame)
              ∙ agrees frame)))

    pub front : (l : ℕ) (f later : List ℕ) → length f ≡ l → take l (f ++ later) ≡ f
    front l f later e = take-append l f later (omega (arith, e)) ∙ take_all l f (omega (arith, e))

    first_frame_hit :
        (l : ℕ) (f later : List ℕ) (ls : List ℕ)
        → length f ≡ l
        → 4 ≤ l
        → crc_ok f ≡ true
        → first_frame (f ++ later) (l ∷ ls) ≡ some l
    unfolding first_frame
    first_frame_hit l f later ls e h ok =
        let long : ltb (length (f ++ later)) l ≡ false = ground (arith, e, length-append f later) in
        let enough : ltb l 4 ≡ false = ground (arith, h) in
        rw (long, enough, front l f later e, ok) refl

    first_frame_miss :
        (l : ℕ) (rest ls : List ℕ)
        → crc_ok (take l rest) ≡ false
        → first_frame rest (l ∷ ls) ≡ first_frame rest ls
    unfolding first_frame
    first_frame_miss l rest ls bad = elim (Bool-cases (ltb (length rest) l || ltb l 4)) [
      | inl e ↦ rw e refl
      | inr e ↦ rw (e, bad) refl
    ]

    -- A frame of eight bytes whose first candidate is eight.
    eight :
        (six : List ℕ) (later ls : List ℕ)
        → length six ≡ 6
        → candidate_lengths (stamp p six ++ later) ≡ 8 ∷ ls
        → first_frame (stamp p six ++ later) (candidate_lengths (stamp p six ++ later))
          ≡ some (length (stamp p six))
    unfolding stamp
    eight six later ls e candidates =
        let size : length (stamp p six) ≡ 8 =
          length-append six (put_le16 (p.crc16 six)) ∙ omega (arith, e) in
        ap (first_frame (stamp p six ++ later)) candidates
        ∙ first_frame_hit 8 (stamp p six) later ls size (omega arith)
            (crc_ok-stamp six (omega (arith, e)))
        ∙ ap some (sym size)

    asked_found :
        (k : Request) (x y : ℕ) (later : List ℕ)
        → first_frame (request p k x y ++ later) (candidate_lengths (request p k x y ++ later))
          ≡ some (length (request p k x y))
    unfolding request stamp
    asked_found read_coils x y later =
        eight ((opens read_coils).0 ∷ 1 ∷ put_be16 x ++ put_be16 y) later
          (((x / 256) % 256 + 5) ∷ []) refl (candidates_read _ 1 _ _ (omega arith) (omega arith))
    asked_found read_holding x y later =
        eight ((opens read_holding).0 ∷ 3 ∷ put_be16 x ++ put_be16 y) later
          (((x / 256) % 256 + 5) ∷ []) refl (candidates_read _ 3 _ _ (omega arith) (omega arith))
    asked_found read_input x y later =
        eight ((opens read_input).0 ∷ 4 ∷ put_be16 x ++ put_be16 y) later
          (((x / 256) % 256 + 5) ∷ []) refl (candidates_read _ 4 _ _ (omega arith) (omega arith))
    asked_found ack x y later =
        eight (0x00 ∷ 0x65 ∷ put_be16 x ++ put_be16 y) later [] refl (candidates_ack _ _ _)

    wrote_found :
        (addr value : ℕ) (later : List ℕ)
        → first_frame
            (counter_frame p addr value ++ later)
            (candidate_lengths (counter_frame p addr value ++ later))
          ≡ some (length (counter_frame p addr value))
    unfolding counter_frame stamp
    wrote_found addr value later =
        eight (0x00 ∷ 0x06 ∷ put_be16 addr ++ put_be16 value) later [] refl (candidates_write _ _ _)

    status_found :
        (words later : List ℕ)
        → first_frame
            (status_frame p words ++ later)
            (candidate_lengths (status_frame p words ++ later))
          ≡ some (length (status_frame p words))
    unfolding status_frame stamp
    status_found words later =
        ap (first_frame (status_frame p words ++ later)) (candidates_block _ _ _ _ _ 0xAA _)
        ∙ first_frame_hit 179 (status_frame p words) later [] (length-status_frame p words)
            (omega arith) (crc_ok-stamp (status_head ++ put_regs words 0 85) (omega arith))
        ∙ ap some (sym (length-status_frame p words))

    length-answer :
        (slave fc : ℕ) (payload : List ℕ)
        → length (bytes (answered slave fc payload)) ≡ length payload + 5
    unfolding stamp
    length-answer slave fc payload =
        omega (
          arith,
          length-append payload (put_le16 (p.crc16 (slave ∷ fc ∷ length payload ∷ payload))),
        )

    answered_found :
        (slave fc : ℕ) (payload later : List ℕ)
        → Clear (answered slave fc payload) later
        → let f = bytes (answered slave fc payload) in
          first_frame (f ++ later) (candidate_lengths (f ++ later)) ≡ some (length f)
    unfolding stamp
    answered_found slave fc payload later (low, high, c) =
        let f = bytes (answered slave fc payload) in
        let n = length payload in
        let ok = crc_ok-stamp (slave ∷ fc ∷ n ∷ payload) (omega arith) in
        let size = length-answer slave fc payload in
        let hit = first_frame_hit (n + 5) f later [] size (omega arith) ok ∙ ap some (sym size) in
        ap (first_frame (f ++ later)) (candidates_read slave fc n _ low high) ∙ elim c [
          | inl e ↦
              first_frame_hit 8 f later ((n + 5) ∷ []) (omega (arith, size, e)) (omega arith) ok
              ∙ ap some (omega (arith, size, e))
          | inr bad ↦ first_frame_miss 8 (f ++ later) ((n + 5) ∷ []) bad ∙ hit
        ]

    -- Each frame is the first candidate that matches.
    pub found :
        (t : Traffic) (later : List ℕ)
        → Clear t later
        → first_frame (bytes t ++ later) (candidate_lengths (bytes t ++ later))
          ≡ some (length (bytes t))
    found (asked k x y) later c = asked_found k x y later
    found (wrote addr value) later c = wrote_found addr value later
    found (status words) later c = status_found words later
    found (answered slave fc payload) later c = answered_found slave fc payload later c
