-- ===== src/Capture/Notes.antt =====
-- What noting one frame adds to the report of tools/rs485-decode/main.go.
use flexit_cs60_control.Shared.{
  ℕ, ◌+◌, ◌*◌, ◌-◌, ◌≤◌, ◌<◌, ◌≡◌, refl, ap, sym, ◌∙◌, Bool, true, false, Option, some, List, [],
  ◌∷◌, ◌++◌, arith, length, take, drop, get_or, take_all, take-append, ◌==◌, leb, if◌then◌else◌,
  length-append, append-nil, be16, put_le16, Bool-cases, inl, inr, Below,
}
use flexit_cs60_control.Platform.{Platform}
use flexit_cs60_control.Slave.Respond.{stamp, put_regs}
use flexit_cs60_control.Slave.Responses.{be16-put_regs, length-put_regs}
use flexit_cs60_control.Slave.Matcher.{read_coils, read_holding, read_input, ack}
use flexit_cs60_control.Slave.Resync.{request, request_words}
use flexit_cs60_control.Mirror.Reception.{status_frame, counter_frame, status_head}
use flexit_cs60_control.Capture.{
  count, same_pair, note_coils, note_read, note_write, note_status, Analysis, note,
}
use flexit_cs60_control.Capture.Frames.{Traffic, asked, wrote, status, answered, bytes}

-- Words of sixteen bits.
abbrev pub InRange : Traffic → Type 0
InRange (asked k x y) = (x < 65536) × (y < 65536)
InRange (wrote addr value) = Unit
InRange (status words) = Below 65536 words
InRange (answered slave fc payload) = (1 ≤ fc) × (fc ≤ 4)

-- The acks among the frames.
abbrev pub ack_of : Traffic → List (ℕ × ℕ)
ack_of (asked ack reg val) = (reg, val) ∷ []
ack_of (asked read_coils x y) = []
ack_of (asked read_holding x y) = []
ack_of (asked read_input x y) = []
ack_of (wrote addr value) = []
ack_of (status words) = []
ack_of (answered slave fc payload) = []

abbrev pub acks : List Traffic → List (ℕ × ℕ)
acks [] = []
acks (t ∷ ts) = ack_of t ++ acks ts

-- The two setpoints of a status block, where they differ from the last ones.
abbrev pub setpoints_of : List ℕ → ℕ × ℕ
setpoints_of words = (get_or words 0 0, get_or words 4 0)

abbrev pub change : Option (ℕ × ℕ) → Traffic → List (ℕ × ℕ)
change last (status words) =
    if same_pair last (setpoints_of words) then [] else setpoints_of words ∷ []
change last (asked k x y) = []
change last (wrote addr value) = []
change last (answered slave fc payload) = []

abbrev pub last_after : Option (ℕ × ℕ) → Traffic → Option (ℕ × ℕ)
last_after last (status words) =
    if same_pair last (setpoints_of words) then last else some (setpoints_of words)
last_after last (asked k x y) = last
last_after last (wrote addr value) = last
last_after last (answered slave fc payload) = last

abbrev pub changes : Option (ℕ × ℕ) → List Traffic → List (ℕ × ℕ)
changes last [] = []
changes last (t ∷ ts) = change last t ++ changes (last_after last t) ts

-- What noting a frame adds.
pub record Adds (t : Traffic) (a b : Analysis) : Type 0 where
  pub valid : b.valid ≡ a.valid + 1
  pub fc65s : b.fc65s ≡ a.fc65s ++ ack_of t
  pub last_be : b.last_be ≡ last_after a.last_be t
  pub be_timeline : b.be_timeline ≡ a.be_timeline ++ change a.last_be t

-- What stays the same when a frame is noted that is no ack and no status block.
pub record Kept (a b : Analysis) : Type 0 where
  pub valid : b.valid ≡ a.valid
  pub fc65s : b.fc65s ≡ a.fc65s
  pub last_be : b.last_be ≡ a.last_be
  pub be_timeline : b.be_timeline ≡ a.be_timeline

note_coils-Kept : (f : List ℕ) (a : Analysis) → Kept a (note_coils f a)
unfolding note_coils
note_coils-Kept f a = ground arith

note_write-Kept : (f : List ℕ) (a : Analysis) → Kept a (note_write f a)
unfolding note_write
note_write-Kept f a = ground arith

note_read-Kept : (f : List ℕ) (a : Analysis) → Kept a (note_read f a)
unfolding note_read
note_read-Kept f a = ground arith

only_if :
    (b : Bool) (xs : List (ℕ × ℕ)) (x : ℕ × ℕ)
    → (if b then xs else xs ++ x ∷ []) ≡ xs ++ (if b then [] else x ∷ [])
only_if true xs x = sym (append-nil xs)
only_if false xs x = refl

-- A frame that is no ack and no status block.
plain-Adds :
    (f : List ℕ) (a : Analysis)
    → (get_or f 1 0 == 0x65) ≡ false
    → (get_or f 1 0 == 0x10) ≡ false
    → Kept (count (get_or f 1 0) a) (note f a)
unfolding note
plain-Adds f a h k =
    let a1 = count (get_or f 1 0) a in
    let c1 = note_coils-Kept f a1 in
    let c2 = note_read-Kept f a1 in
    let c3 = note_write-Kept f a1 in
    ground (
      arith, h, k, c1.valid, c1.fc65s, c1.last_be, c1.be_timeline, c2.valid, c2.fc65s, c2.last_be,
      c2.be_timeline, c3.valid, c3.fc65s, c3.last_be, c3.be_timeline,
    )

status_noted :
    (f : List ℕ) (a : Analysis) (first second : ℕ)
    → get_or f 0 0 ≡ 0
    → get_or f 1 0 ≡ 0x10
    → be16 f 2 ≡ 0xBE
    → 10 ≤ length (drop 7 (take (length f - 2) f))
    → be16 (drop 7 (take (length f - 2) f)) 0 ≡ first
    → be16 (drop 7 (take (length f - 2) f)) 8 ≡ second
    → let b = note f a in
      let now : ℕ × ℕ = (first, second) in
      (b.valid ≡ a.valid + 1)
      × (b.fc65s ≡ a.fc65s)
      × (b.last_be ≡ (if same_pair a.last_be now then a.last_be else some now))
      × (b.be_timeline
          ≡ (if same_pair a.last_be now then a.be_timeline else a.be_timeline ++ now ∷ []))
unfolding note note_status
status_noted f a first second h0 h1 h2 h3 h4 h5 =
    let long : leb 10 (length (drop 7 (take (length f - 2) f))) ≡ true = ground (arith, h3) in
    elim (Bool-cases (same_pair a.last_be (first, second))) [
      | inl e ↦ rw (h1, h0, h2, h4, h5, long, e) (refl, refl, refl, refl)
      | inr e ↦ rw (h1, h0, h2, h4, h5, long, e) (refl, refl, refl, refl)
    ]

module _ (p : Platform) where
  status_block :
      (words : List ℕ)
      → let f = status_frame p words in drop 7 (take (length f - 2) f) ≡ put_regs words 0 85
  unfolding status_frame stamp
  status_block words =
      let body = put_regs words 0 85 in
      let crc = put_le16 (p.crc16 (status_head ++ body)) in
      let size : length (status_frame p words) - 2 ≡ length (status_head ++ body) =
        omega (arith, length-append (status_head ++ body) crc) in
      ap (λ n. drop 7 (take n (status_frame p words))) size
      ∙ ap (drop 7) (
          take-append (length (status_head ++ body)) (status_head ++ body) crc (omega arith)
          ∙ take_all (length (status_head ++ body)) (status_head ++ body) (omega arith))

  status_opens :
      (words : List ℕ)
      → let f = status_frame p words in
        (get_or f 0 0 ≡ 0) × (get_or f 1 0 ≡ 0x10) × (be16 f 2 ≡ 0xBE)
  unfolding status_frame stamp
  status_opens words = (refl, refl, refl)

  ack_noted :
      (f : List ℕ) (a : Analysis) (reg val : ℕ)
      → get_or f 1 0 ≡ 0x65
      → be16 f 2 ≡ reg
      → be16 f 4 ≡ val
      → Adds (asked ack reg val) a (note f a)
  unfolding note
  ack_noted f a reg val h hr hv =
      rw (h, hr, hv)
        (record {
          valid = refl;
          fc65s = refl;
          last_be = refl;
          be_timeline = sym (append-nil a.be_timeline);
        })

  -- A frame that adds nothing but itself.
  unseen-Adds :
      (t : Traffic) (fc : ℕ) (a b : Analysis)
      → Kept (count fc a) b
      → ack_of t ≡ []
      → last_after a.last_be t ≡ a.last_be
      → change a.last_be t ≡ []
      → Adds t a b
  unseen-Adds t fc a b k none_acked same_last no_change = record {
    valid = k.valid;
    fc65s = k.fc65s ∙ sym (append-nil a.fc65s) ∙ ap (λ r. a.fc65s ++ r) (sym none_acked);
    last_be = k.last_be ∙ sym same_last;
    be_timeline =
        k.be_timeline
        ∙ sym (append-nil a.be_timeline)
        ∙ ap (λ r. a.be_timeline ++ r) (sym no_change);
  }

  pub note-Adds : (t : Traffic) (a : Analysis) → InRange t → Adds t a (note (bytes p t) a)
  unfolding request counter_frame stamp
  note-Adds (asked ack reg val) a (hr, hv) =
      let words = request_words p ack reg val hr hv in
      ack_noted (request p ack reg val) a reg val refl words.0 words.1
  note-Adds (asked read_coils x y) a h =
      unseen-Adds (asked read_coils x y) 1 a _ (plain-Adds (request p read_coils x y) a refl refl)
        refl refl refl
  note-Adds (asked read_holding x y) a h =
      unseen-Adds (asked read_holding x y) 3 a _
        (plain-Adds (request p read_holding x y) a refl refl) refl refl refl
  note-Adds (asked read_input x y) a h =
      unseen-Adds (asked read_input x y) 4 a _ (plain-Adds (request p read_input x y) a refl refl)
        refl refl refl
  note-Adds (wrote addr value) a h =
      unseen-Adds (wrote addr value) 6 a _ (plain-Adds (counter_frame p addr value) a refl refl)
        refl refl refl
  note-Adds (answered slave fc payload) a (low, high) =
      let f = bytes p (answered slave fc payload) in
      unseen-Adds (answered slave fc payload) fc a _
        (plain-Adds f a (ground (arith, low, high)) (ground (arith, low, high))) refl refl refl
  note-Adds (status words) a b =
      let f = status_frame p words in
      let block = status_block words in
      let opens = status_opens words in
      let word =
        λ (k : ℕ) (h : k < 85). ap (λ t. be16 t (2 * k)) block ∙ be16-put_regs words 0 85 k b h in
      let (valid, same_acks, last, timeline) =
        status_noted f a (get_or words 0 0) (get_or words 4 0) opens.0 opens.1 opens.2
          (omega (arith, ap length block, length-put_regs words 0 85)) (word 0 (omega arith))
          (word 4 (omega arith)) in
      record {
        valid = valid;
        fc65s = same_acks ∙ sym (append-nil a.fc65s);
        last_be = last;
        be_timeline =
            timeline
            ∙ only_if (same_pair a.last_be (setpoints_of words)) a.be_timeline (setpoints_of words);
      }
