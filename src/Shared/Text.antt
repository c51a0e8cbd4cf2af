-- ===== src/Shared/Text.antt =====
-- Texts as byte lists, and what `printf` and the decimal loops of the source make of numbers.
use Prim.Native.Char.{code}
use Prim.Native.String.{String}
use Prim.Native.Nat.{ℕ, zero, suc, ◌+◌, ◌-◌, ◌*◌, ◌/◌, ◌%◌, ◌^◌, ◌≤◌, ◌<◌}
use mathlib.Core.Path.{◌≡◌, refl, ap, ◌∙◌}
use mathlib.Core.Bool.{Bool, true, false, ◌&&◌}
use mathlib.Core.List.{List, [], ◌∷◌, ◌++◌}
use native.Mathlib.Omega.{arith}
use flexit_cs60_control.Shared.Tests.{ltb, leb, ◌==◌, if◌then◌else◌}
use flexit_cs60_control.Shared.Lists.{length, get_or}
use flexit_cs60_control.Shared.Int.{ℤ, pos, negsuc}

-- The bytes of an ASCII literal.
abbrev pub codes : String → List ℕ
codes String.[] = []
codes (String.◌∷◌ c s) = code c ∷ codes s

abbrev pub is_digit : ℕ → Bool
is_digit c = leb b'0' c && leb c b'9'

-- Digits in front of `out`, at most `fuel` of them and at least one.
unfoldable pub digits : ℕ → ℕ → List ℕ → List ℕ
digits zero n out = out
digits (suc fuel) n out =
    let d = (b'0' + n % 10) ∷ out in
    let rest = digits fuel (n / 10) d in if n / 10 == 0 then d else rest

-- `%u` and `%llu`: a uint64_t has at most 20 digits.
unfoldable pub dec : ℕ → List ℕ
dec n = digits 20 n []

-- `%d`
unfoldable pub dec_int : ℤ → List ℕ
unfolding dec
dec_int (pos n) = dec n
dec_int (negsuc n) = b'-' ∷ dec (suc n)

-- One digit of `%X`.
abbrev pub hex_digit : ℕ → ℕ
hex_digit d = if ltb d 10 then b'0' + d else b'A' + (d - 10)

-- `%04X` of a uint16_t.
unfoldable pub hex4 : ℕ → List ℕ
hex4 n =
    hex_digit (n / 4096 % 16)
    ∷ hex_digit (n / 256 % 16)
    ∷ hex_digit (n / 16 % 16)
    ∷ hex_digit (n % 16)
    ∷ []

-- A decimal loop: `while ('0' <= *p && *p <= '9')`, with what it leaves.
unfoldable pub scan : List ℕ → ℕ → ℕ × List ℕ
scan [] n = (n, [])
scan (c ∷ s) n = let rest = scan s (n * 10 + (c - b'0')) in if is_digit c then rest else (n, c ∷ s)

-- The text behind a number does not go on with a digit.
abbrev pub Ends : List ℕ → Type 0
Ends s = is_digit (get_or s 0 0) ≡ false

scan_end : (s : List ℕ) (n : ℕ) → Ends s → scan s n ≡ (n, s)
unfolding scan
scan_end [] n h = refl
scan_end (c ∷ s) n h = rw h refl

scan_digit : (d : ℕ) (s : List ℕ) (n : ℕ) → d < 10 → scan ((b'0' + d) ∷ s) n ≡ scan s (n * 10 + d)
unfolding scan
scan_digit d s n h = ground arith

-- Powers of ten, by recursion.
abbrev pub tens : ℕ → ℕ
tens zero = 1
tens (suc k) = tens k * 10

scan-digits : (fuel n : ℕ) (out : List ℕ) → n < tens fuel → scan (digits fuel n out) 0 ≡ scan out n
unfolding digits
scan-digits zero n out h = ap (scan out) (omega arith)
scan-digits (suc fuel) n out h = ground (
  arith,
  scan_digit (n % 10) out 0 (omega arith),
  scan_digit (n % 10) out (n / 10) (omega arith),
  scan-digits fuel (n / 10) ((b'0' + n % 10) ∷ out) (omega arith),
)

digits-append : (fuel n : ℕ) (out s : List ℕ) → digits fuel n out ++ s ≡ digits fuel n (out ++ s)
unfolding digits
digits-append zero n out s = refl
digits-append (suc fuel) n out s =
    ground (arith, digits-append fuel (n / 10) ((b'0' + n % 10) ∷ out) s)

-- Reading back a printed number leaves the text behind it.
pub scan-dec : (n : ℕ) (s : List ℕ) → n < tens 20 → Ends s → scan (dec n ++ s) 0 ≡ (n, s)
unfolding dec
scan-dec n s h e =
    ap (λ t. scan t 0) (digits-append 20 n [] s) ∙ scan-digits 20 n s h ∙ scan_end s n e

length-digits :
    (fuel k n : ℕ) (out : List ℕ)
    → n < tens (suc k)
    → length (digits fuel n out) ≤ suc k + length out
unfolding digits
length-digits zero k n out h = omega arith
length-digits (suc fuel) zero n out h = ground arith
length-digits (suc fuel) (suc k) n out h =
    ground (arith, length-digits fuel k (n / 10) ((b'0' + n % 10) ∷ out) (omega arith))

-- A number below a power of ten has no more digits than that.
pub length-dec : (k n : ℕ) → n < tens (suc k) → length (dec n) ≤ suc k
unfolding dec
length-dec k n h = omega (arith, length-digits 20 k n [] h)

digits_head : (fuel n : ℕ) (out : List ℕ) → is_digit (get_or (digits (suc fuel) n out) 0 0) ≡ true
unfolding digits
digits_head zero n out = ground arith
digits_head (suc fuel) n out = ground (arith, digits_head fuel (n / 10) ((b'0' + n % 10) ∷ out))

-- A printed number begins with a digit.
pub dec_head : (n : ℕ) (s : List ℕ) → is_digit (get_or (dec n ++ s) 0 0) ≡ true
unfolding dec
dec_head n s = ap (λ t. is_digit (get_or t 0 0)) (digits-append 20 n [] s) ∙ digits_head 19 n s

dec_max : dec (2 ^ 64 - 1) ≡ codes "18446744073709551615"
unfolding dec digits
dec_max = refl

hex4_pads : hex4 0xF0 ≡ codes "00F0"
unfolding hex4
hex4_pads = refl
