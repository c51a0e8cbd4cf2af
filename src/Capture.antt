-- ===== src/Capture.antt =====
-- tools/rs485-decode/main.go: the analysis of a captured bus stream. What is printed is kept as
-- numbers; the optional dump of a window of frames is left out.
pub mod Frames
pub mod Decode
pub mod Notes
pub mod Report
pub mod Stream
mod Tests
use Prim.Native.Nat.{bit_xor}
use flexit_cs60_control.Shared.{
  ℕ, zero, suc, ◌+◌, ◌-◌, ◌*◌, ◌/◌, ◌%◌, ◌^◌, Bool, true, false, not, ◌&&◌, ◌||◌, Option, none,
  some, List, [], ◌∷◌, ◌++◌, length, get_or, take, drop, ltb, leb, ◌==◌, if◌then◌else◌, be16, le16,
  has_bit, same_bytes,
}

-- One byte of `crc16`, eight rounds. Each value is a uint16.
unfoldable pub crc_rounds : ℕ → ℕ → ℕ
crc_rounds zero crc = crc
crc_rounds (suc n) crc = crc_rounds n (if crc % 2 == 1 then bit_xor (crc / 2) 0xA001 else crc / 2)

unfoldable pub crc_from : ℕ → List ℕ → ℕ
unfolding crc_rounds
crc_from crc [] = crc
crc_from crc (x ∷ b) = crc_from (crc_rounds 8 (bit_xor crc x)) b

unfoldable pub crc16 : List ℕ → ℕ
unfolding crc_from
crc16 b = crc_from 0xFFFF b % 2 ^ 16

unfoldable pub crc_ok : List ℕ → Bool
crc_ok frame =
    let n = length frame in
    if ltb n 4 then false else crc16 (take (n - 2) frame) == le16 frame (n - 2)

-- `candidateLengths(buf, i)`, of what stands from `i` on.
unfoldable pub candidate_lengths : List ℕ → List ℕ
candidate_lengths rest =
    let fc = get_or rest 1 0 in
    if ltb (length rest) 2
    then []
    else if leb 1 fc && leb fc 4
    then 8 ∷ (if ltb 2 (length rest) then (get_or rest 2 0 + 5) ∷ [] else [])
    else if fc == 5 || fc == 6
    then 8 ∷ []
    else if fc == 0x0F || fc == 0x10
    then (if leb 7 (length rest) then (get_or rest 6 0 + 9) ∷ [] else [])
    else if fc == 0x65
    then 8 ∷ []
    else []

-- The loop over the candidates, up to the first that is a frame.
unfoldable pub first_frame : List ℕ → List ℕ → Option ℕ
unfolding crc_ok
first_frame rest [] = none
first_frame rest (l ∷ ls) =
    let other = first_frame rest ls in
    if ltb (length rest) l || ltb l 4
    then other
    else if not (crc_ok (take l rest))
    then other
    else some l

-- A map by its assignments, the newest first; `map_get` answers -1 as `none`.
abbrev pub map_get : List (ℕ × ℕ) → ℕ → Option ℕ
map_get [] key = none
map_get ((k, v) ∷ m) key = let rest = map_get m key in if k == key then some v else rest

-- The variables of `main`. A register and its slave are one key, and so are a slave and the coils
-- that it shows.
pub record Analysis : Type 0 where
  pub valid : ℕ
  pub fc_count : List (ℕ × ℕ)
  pub fc65s : List (ℕ × ℕ)
  pub pending : Option (ℕ × ℕ)
  pub fc03_last : List (ℕ × ℕ)
  pub fc03_trans : List (ℕ × ℕ)
  pub fc06_last : List (ℕ × ℕ)
  pub fc06_trans : List (ℕ × ℕ)
  pub last_coil_sig : Option (ℕ × List ℕ)
  pub coil_events : List (ℕ × List ℕ)
  pub last_be : Option (ℕ × ℕ)
  pub be_timeline : List (ℕ × ℕ)

abbrev pub or_zero : Option ℕ → ℕ
or_zero none = 0
or_zero (some n) = n

-- `fcCount[fc]++`
abbrev pub count : ℕ → Analysis → Analysis
count fc a = record a {
  valid = a.valid + 1;
  fc_count = (fc, or_zero (map_get a.fc_count fc) + 1) ∷ a.fc_count;
}

-- The coils that a bitmap shows, `n` of them from `bit` on.
unfoldable pub coils_set : List ℕ → ℕ → ℕ → List ℕ
coils_set bitmap zero bit = []
coils_set bitmap (suc n) bit =
    let rest = coils_set bitmap n (bit + 1) in
    if has_bit (get_or bitmap (bit / 8) 0) (bit % 8) then bit ∷ rest else rest

abbrev pub same_sig : Option (ℕ × List ℕ) → ℕ × List ℕ → Bool
same_sig none sig = false
same_sig (some (a, xs)) (b, ys) = a == b && same_bytes xs ys

abbrev pub same_pair : Option (ℕ × ℕ) → ℕ × ℕ → Bool
same_pair none p = false
same_pair (some (a, b)) (c, d) = a == c && b == d

abbrev pub has_value : Option ℕ → ℕ → Bool
has_value none v = false
has_value (some w) v = w == v

abbrev pub is_nil {ℓ} : {A : Type ℓ} → List A → Bool
is_nil [] = true
is_nil (x ∷ xs) = false

-- A response to a read of coils, unless it shows none.
unfoldable pub note_coils : List ℕ → Analysis → Analysis
unfolding coils_set
note_coils f a =
    let bc = get_or f 2 0 in
    let sig : ℕ × List ℕ = (get_or f 0 0, coils_set (take bc (drop 3 f)) (bc * 8) 0) in
    if is_nil sig.1 || same_sig a.last_coil_sig sig
    then a
    else record a { coil_events = a.coil_events ++ sig ∷ []; last_coil_sig = some sig }

-- A read of registers, or the response to the pending one.
unfoldable pub note_read : List ℕ → Analysis → Analysis
note_read f a =
    let bc = get_or f 2 0 in
    let val = be16 f 3 in
    if length f == 8 then record a { pending = some (get_or f 0 0, be16 f 2) } else elim a.pending [
      | none ↦ a
      | some (slave, reg) ↦
          let key = slave * 65536 + reg in
          if leb 7 (length f)
          then (if leb 2 bc
                && (not (or_zero (map_get a.fc03_last key) == val) || is_nil a.fc03_trans)
              then record a {
                pending = none;
                fc03_trans = a.fc03_trans ++ (key, val) ∷ [];
                fc03_last = (key, val) ∷ a.fc03_last;
              }
              else record a { pending = none })
          else a
    ]

unfoldable pub note_write : List ℕ → Analysis → Analysis
note_write f a =
    let reg = be16 f 2 in
    let val = be16 f 4 in
    if has_value (map_get a.fc06_last reg) val then a else record a {
      fc06_trans = a.fc06_trans ++ (reg, val) ∷ [];
      fc06_last = (reg, val) ∷ a.fc06_last;
    }

-- A status block that reaches to register 0x00C2.
unfoldable pub note_status : List ℕ → Analysis → Analysis
note_status f a =
    let block = drop 7 (take (length f - 2) f) in
    let setpoints : ℕ × ℕ = (be16 block 0, be16 block 8) in
    if get_or f 0 0 == 0
      && be16 f 2 == 0xBE
      && leb 10 (length block)
      && not (same_pair a.last_be setpoints)
    then record a { be_timeline = a.be_timeline ++ setpoints ∷ []; last_be = some setpoints }
    else a

-- What the loop does with a frame.
unfoldable pub note : List ℕ → Analysis → Analysis
note f a =
    let fc = get_or f 1 0 in
    let a1 = count fc a in
    if fc == 0x65
    then record a1 { fc65s = a1.fc65s ++ (be16 f 2, be16 f 4) ∷ [] }
    else if fc == 0x01
    then (if ltb 8 (length f) then note_coils f a1 else a1)
    else if fc == 0x03
    then note_read f a1
    else if fc == 0x06
    then note_write f a1
    else if fc == 0x10
    then note_status f a1
    else a1

-- The loop on what is left of the capture, on fuel: a round takes a byte at least.
unfoldable pub scan : ℕ → List ℕ → Analysis → Analysis
scan zero rest a = a
scan (suc fuel) rest a =
    if ltb 3 (length rest)
    then elim (first_frame rest (candidate_lengths rest)) [
      | none ↦ scan fuel (drop 1 rest) a
      | some l ↦ scan fuel (drop l rest) (note (take l rest) a)
    ]
    else a

abbrev pub start : Analysis
start = record {
  valid = 0;
  fc_count = [];
  fc65s = [];
  pending = none;
  fc03_last = [];
  fc03_trans = [];
  fc06_last = [];
  fc06_trans = [];
  last_coil_sig = none;
  coil_events = [];
  last_be = none;
  be_timeline = [];
}

unfoldable pub analyse : List ℕ → Analysis
analyse buf = scan (length buf) buf start
