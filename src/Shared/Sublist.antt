-- ===== src/Shared/Sublist.antt =====
-- Lists of bytes of which some are lost.
use Prim.Native.Nat.{ℕ, zero, suc, ◌≤◌}
use mathlib.Core.Path.{◌≡◌, refl, ap, sym, subst}
use mathlib.Core.List.{List, [], ◌∷◌, ◌++◌, append_assoc}
use native.Mathlib.Omega.{arith}
use flexit_cs60_control.Shared.Lists.{length, take}

-- The first list is the second less some of its elements.
pub data Sublist : List ℕ → List ℕ → Type 0 where
  done : Sublist [] []
  keeps : (x : ℕ) {xs ys : List ℕ} → Sublist xs ys → Sublist (x ∷ xs) (x ∷ ys)
  skips : (y : ℕ) {xs ys : List ℕ} → Sublist xs ys → Sublist xs (y ∷ ys)

pub Sublist_refl : (xs : List ℕ) → Sublist xs xs
Sublist_refl [] = done
Sublist_refl (x ∷ xs) = keeps x (Sublist_refl xs)

pub Sublist_trans : {xs ys zs : List ℕ} → Sublist xs ys → Sublist ys zs → Sublist xs zs
Sublist_trans s done = s
Sublist_trans s (skips z t) = skips z (Sublist_trans s t)
Sublist_trans (keeps x s) (keeps _ t) = keeps x (Sublist_trans s t)
Sublist_trans (skips y s) (keeps _ t) = skips y (Sublist_trans s t)

pub Sublist-prefix : (p : List ℕ) {xs ys : List ℕ} → Sublist xs ys → Sublist (p ++ xs) (p ++ ys)
Sublist-prefix [] s = s
Sublist-prefix (x ∷ p) s = keeps x (Sublist-prefix p s)

Sublist-take : (n : ℕ) (xs zs : List ℕ) → Sublist (take n xs ++ zs) (xs ++ zs)
Sublist-take zero [] zs = Sublist_refl zs
Sublist-take (suc n) [] zs = Sublist_refl zs
Sublist-take zero (x ∷ xs) zs = skips x (Sublist-take zero xs zs)
Sublist-take (suc n) (x ∷ xs) zs = keeps x (Sublist-take n xs zs)

-- What the ring refuses is lost in the middle.
pub Sublist-lost :
    (k : ℕ) (held pay more : List ℕ)
    → Sublist ((held ++ take k pay) ++ more) (held ++ (pay ++ more))
Sublist-lost k held pay more =
    subst (λ t. Sublist t (held ++ (pay ++ more))) (sym (append_assoc held (take k pay) more))
      (Sublist-prefix held (Sublist-take k pay more))

pub length-Sublist : {xs ys : List ℕ} → Sublist xs ys → length xs ≤ length ys
length-Sublist done = omega arith
length-Sublist (keeps x s) = omega (arith, length-Sublist s)
length-Sublist (skips y s) = omega (arith, length-Sublist s)

-- A part that is no shorter is the whole.
pub Sublist_whole : {xs ys : List ℕ} → Sublist xs ys → length xs ≡ length ys → xs ≡ ys
Sublist_whole done e = refl
Sublist_whole (keeps x s) e = ap (λ t. x ∷ t) (Sublist_whole s (omega (arith, e)))
Sublist_whole (skips y s) e = absurd (omega (arith, length-Sublist s, e))
