-- ===== src/Smp/Tests.antt =====
-- tools/ble-client/smp.go on concrete values.
use flexit_cs60_control.Shared.{
  ℕ, ◌+◌, ◌≡◌, ◌≢◌, refl, true, false, none, some, List, [], ◌∷◌, ◌++◌, arith, length, ◌==◌,
  if◌then◌else◌, ap, sym, take_all,
}
use flexit_cs60_control.Smp.{
  Header, encode_header, Transport, call, Reply, answer, uploaded, running, image_upload,
}
use flexit_cs60_control.Smp.Assembly.{InRange, call_lem}
use flexit_cs60_control.Smp.Timeout.{call_after_timeout}
use flexit_cs60_control.Smp.Upload.{Appends, image_upload_lem, image_upload_ends}
use flexit_cs60_control.Smp.Confirm.{
  ImageSlot, confirm, confirm_verdict, IsRunning, confirm_verdict-IsRunning, judge, find_running,
}

-- The response to an image list, of four bytes.
abbrev response : Header
response = record { op = 1; flags = 0; len = 4; group = 1; seq = 0; id = 0 }

response-InRange : InRange response
response-InRange = omega arith

abbrev fresh : Transport
fresh = record { seq = 0; resp_buf = []; resp_want = 0; resp_ch = none }

-- In two fragments.
abbrev answers : List ℕ → List (List ℕ)
answers frame = (encode_header response ++ 9 ∷ []) ∷ (8 ∷ 7 ∷ 6 ∷ []) ∷ []

call_lem_example :
    call answers 0 1 0 (0xA0 ∷ []) fresh
    ≡ (some (9 ∷ 8 ∷ 7 ∷ 6 ∷ []), record { seq = 1; resp_buf = []; resp_want = 0; resp_ch = none })
call_lem_example =
    call_lem response (9 ∷ 8 ∷ 7 ∷ 6 ∷ []) response-InRange refl (9 ∷ []) ((8 ∷ 7 ∷ 6 ∷ []) ∷ [])
      refl (omega arith) answers 0 1 0 (0xA0 ∷ []) fresh refl refl

-- A first response that stops behind one of its four bytes, and a second one of one byte.
abbrev second_response : Header
second_response = record { op = 1; flags = 0; len = 1; group = 1; seq = 1; id = 0 }

abbrev stops : List ℕ → List (List ℕ)
stops frame = (encode_header response ++ 9 ∷ []) ∷ []

abbrev comes : List ℕ → List (List ℕ)
comes frame = (encode_header second_response ++ 5 ∷ []) ∷ []

call_after_timeout_example :
    let (first, t) = call stops 0 1 0 (0xA0 ∷ []) fresh in
    let second = (call comes 0 1 0 (0xA0 ∷ []) t).0 in
    (first ≡ none)
    × (second ≡ some (9 ∷ [] ++ (encode_header second_response ++ 5 ∷ [])))
    × (second ≢ some (5 ∷ []))
call_after_timeout_example =
    call_after_timeout stops comes 0 1 0 (0xA0 ∷ []) (0xA0 ∷ []) fresh response second_response
      (9 ∷ []) (5 ∷ []) response-InRange refl (omega arith) (omega arith) refl refl

-- A device that takes whole chunks.
abbrev flash : ℕ → List ℕ → List ℕ → Reply × List ℕ
flash off chunk image =
    if off == length image
    then (answer 0 (some (off + length chunk)), image ++ chunk)
    else (answer 0 (some (length image)), image)

at_offset : (off : ℕ) (s : List ℕ) → length s ≡ off → (off == length s) ≡ true
at_offset off s e = ground arith

flash-Appends : Appends flash (λ image. image)
flash-Appends = record {
  taken = λ off c s. length c;
  some_taken = λ off c s e h. (h, omega arith);
  answers = λ off c s e h. rw (at_offset off s e) refl;
  grows = λ off c s e h.
      rw (at_offset off s e) (ap (λ t. s ++ t) (sym (take_all (length c) c (omega arith))));
}

-- With an unknown MTU the file is one chunk.
image_upload_lem_example :
    let r = image_upload flash 0 (1 ∷ 2 ∷ 3 ∷ []) [] in (r.0 ≡ uploaded) × (r.1 ≡ 1 ∷ 2 ∷ 3 ∷ [])
image_upload_lem_example =
    image_upload_lem flash 0 (1 ∷ 2 ∷ 3 ∷ []) [] (λ image. image) flash-Appends (omega arith) refl

-- A device that never says where to go on, with chunks of one byte.
abbrev silent : ℕ → List ℕ → ℕ → Reply × ℕ
silent off chunk calls = (answer 0 none, calls + 1)

image_upload_ends_example : (image_upload silent 97 (1 ∷ 2 ∷ 3 ∷ []) 0).0 ≢ running
image_upload_ends_example = image_upload_ends silent 97 (1 ∷ 2 ∷ 3 ∷ []) 0

abbrev new_image : ImageSlot
new_image = record {
  slot = 0;
  hash = 0xAB ∷ [];
  active = true;
  confirmed = false;
  pending = false;
  permanent = false;
}

abbrev old_image : ImageSlot
old_image = record {
  slot = 1;
  hash = 0xCD ∷ [];
  active = false;
  confirmed = true;
  pending = false;
  permanent = false;
}

test_boot : confirm_verdict (0xAB ∷ []) (new_image ∷ old_image ∷ []) ≡ confirm
unfolding confirm_verdict judge find_running
test_boot = refl

confirm_verdict-IsRunning_example :
    (s : ImageSlot) × IsRunning s (new_image ∷ old_image ∷ [])
    × (s.hash ≡ 0xAB ∷ [])
    × (s.active ≡ true)
    × (s.confirmed ≡ false)
confirm_verdict-IsRunning_example =
    confirm_verdict-IsRunning (0xAB ∷ []) (new_image ∷ old_image ∷ []) test_boot
