-- ===== src/Shared/Bytes.antt =====
-- Bytes, and the 16-bit words that the frames carry in either byte order.
use Prim.Native.Nat.{ℕ, zero, suc, ◌+◌, ◌*◌, ◌/◌, ◌%◌, ◌<◌}
use mathlib.Core.Path.{◌≡◌, refl, ap₂}
use mathlib.Core.Bool.{Bool, true, false, ◌&&◌}
use flexit_cs60_control.Shared.Tests.{◌==◌, ==_refl}
use mathlib.Core.List.{List, [], ◌∷◌, ◌++◌}
use native.Mathlib.Omega.{arith}
use flexit_cs60_control.Shared.Lists.{length, get_or, set, take, drop, replicate, get_or-append}

abbrev pub All {ℓ κ} : {A : Type ℓ} → (A → Type κ) → List A → Type κ
All P [] = Unit
All P (x ∷ xs) = P x × All P xs

-- Every element lies below `n`: bytes for 256, 16-bit registers for 65536.
-- Whether two byte lists are equal.
abbrev pub same_bytes : List ℕ → List ℕ → Bool
same_bytes [] [] = true
same_bytes [] (y ∷ ys) = false
same_bytes (x ∷ xs) [] = false
same_bytes (x ∷ xs) (y ∷ ys) = x == y && same_bytes xs ys

pub same_bytes→eq : (xs ys : List ℕ) → same_bytes xs ys ≡ true → xs ≡ ys
same_bytes→eq [] [] h = refl
same_bytes→eq [] (y ∷ ys) h = cc
same_bytes→eq (x ∷ xs) [] h = cc
same_bytes→eq (x ∷ xs) (y ∷ ys) h =
    ap₂ (λ (a : ℕ) (b : List ℕ). a ∷ b) (ground (arith, h))
      (same_bytes→eq xs ys (ground (arith, h)))

pub same_bytes_refl : (xs : List ℕ) → same_bytes xs xs ≡ true
same_bytes_refl [] = refl
same_bytes_refl (x ∷ xs) = rw (==_refl x, same_bytes_refl xs) refl

abbrev pub Below : ℕ → List ℕ → Type 0
Below n = All (λ x. x < n)

pub Below-get_or : (n : ℕ) (xs : List ℕ) (i : ℕ) → 0 < n → Below n xs → get_or xs i 0 < n
Below-get_or n [] i p h = p
Below-get_or n (x ∷ xs) zero p h = h.0
Below-get_or n (x ∷ xs) (suc i) p h = Below-get_or n xs i p h.1

pub Below-set : (n : ℕ) (xs : List ℕ) (i v : ℕ) → v < n → Below n xs → Below n (set xs i v)
Below-set n [] i v p h = h
Below-set n (x ∷ xs) zero v p h = (p, h.1)
Below-set n (x ∷ xs) (suc i) v p h = (h.0, Below-set n xs i v p h.1)

pub Below-append : (n : ℕ) (xs ys : List ℕ) → Below n xs → Below n ys → Below n (xs ++ ys)
Below-append n [] ys h k = k
Below-append n (x ∷ xs) ys h k = (h.0, Below-append n xs ys h.1 k)

pub Below-take : (n k : ℕ) (xs : List ℕ) → Below n xs → Below n (take k xs)
Below-take n zero xs h = tt
Below-take n (suc k) [] h = tt
Below-take n (suc k) (x ∷ xs) h = (h.0, Below-take n k xs h.1)

pub Below-drop : (n k : ℕ) (xs : List ℕ) → Below n xs → Below n (drop k xs)
Below-drop n zero xs h = h
Below-drop n (suc k) [] h = tt
Below-drop n (suc k) (x ∷ xs) h = Below-drop n k xs h.1

pub Below-replicate : (n k : ℕ) → 0 < n → Below n (replicate k 0)
Below-replicate n zero p = tt
Below-replicate n (suc k) p = (p, Below-replicate n k p)

-- `get_be16(p + i)`: high byte first.
abbrev pub be16 : List ℕ → ℕ → ℕ
be16 p i = get_or p i 0 * 256 + get_or p (i + 1) 0

-- `get_le16(p + i)`: low byte first.
abbrev pub le16 : List ℕ → ℕ → ℕ
le16 p i = get_or p (i + 1) 0 * 256 + get_or p i 0

-- What `put_be16` and `put_le16` store.
abbrev pub put_be16 : ℕ → List ℕ
put_be16 v = (v / 256) % 256 ∷ v % 256 ∷ []

abbrev pub put_le16 : ℕ → List ℕ
put_le16 v = v % 256 ∷ (v / 256) % 256 ∷ []

pub be16-lt : (p : List ℕ) (i : ℕ) → Below 256 p → be16 p i < 65536
be16-lt p i h =
    omega (arith, Below-get_or 256 p i (omega arith) h, Below-get_or 256 p (i + 1) (omega arith) h)

pub le16-put_le16 : (v : ℕ) → v < 65536 → le16 (put_le16 v) 0 ≡ v
le16-put_le16 v h = omega arith

-- A read below the end of a list does not see what is appended.
pub be16-append : (xs ys : List ℕ) (i : ℕ) → i + 1 < length xs → be16 (xs ++ ys) i ≡ be16 xs i
be16-append xs ys i h =
    omega (arith, get_or-append xs ys i 0 (omega arith), get_or-append xs ys (i + 1) 0 h)
