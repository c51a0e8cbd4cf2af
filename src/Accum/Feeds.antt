-- ===== src/Accum/Feeds.antt =====
-- Several calls of `..._feed` in a row, as the drain worker of src/rs485_uart.c makes them.
use flexit_cs60_control.Shared.{
  ℕ, ◌+◌, ◌-◌, ◌≤◌, ◌<◌, ◌≡◌, refl, ap, sym, ◌∙◌, List, [], ◌∷◌, ◌++◌, arith, length, drop,
  drop-append_right, joined, length-append, append_assoc,
}
use flexit_cs60_control.Accum.{Accum, contents, feed}
use flexit_cs60_control.Accum.Buffer.{IsValid, keep_last}
use flexit_cs60_control.Accum.Loop.{IsDecoder, view, settle}
use flexit_cs60_control.Accum.Chunks.{feed-IsValid, feed-append, feed_refines, length-feed}

module _ {S : Type 0} (decode : S → List ℕ → ℕ × S) (size : ℕ) where
  unfoldable pub feed_all : Accum × S → List (List ℕ) → Accum × S
  feed_all r [] = r
  feed_all r (c ∷ cs) = feed_all (feed decode size r.0 r.1 c) cs

module _ {S : Type 0} {decode : S → List ℕ → ℕ × S} (laws : IsDecoder decode) {size : ℕ} where
  pub feed_all-IsValid :
      (a : Accum) (s : S) (cs : List (List ℕ))
      → IsValid size a
      → IsValid size (feed_all decode size (a, s) cs).0
  unfolding feed_all
  feed_all-IsValid a s [] v = v
  feed_all-IsValid a s (c ∷ cs) v =
      let r = feed decode size a s c in feed_all-IsValid r.0 r.1 cs (feed-IsValid laws v s c)

  -- Feeding pieces is feeding the whole, where all of it fits the accumulator.
  pub feed_all-joined :
      (a : Accum) (s : S) (cs : List (List ℕ))
      → IsValid size a
      → length (contents a) + length (joined cs) ≤ size
      → view decode (feed_all decode size (a, s) cs)
        ≡ view decode (feed decode size a s (joined cs))
  unfolding feed_all
  feed_all-joined a s [] v h = unfold feed in refl
  feed_all-joined a s (c ∷ cs) v h =
      let r = feed decode size a s c in
      let total : length (contents a) + length c + length (joined cs) ≤ size =
        omega (arith, h, length-append c (joined cs)) in
      feed_all-joined r.0 r.1 cs (feed-IsValid laws v s c)
        (omega (arith, total, length-feed laws v s c (omega (arith, total))))
      ∙ feed-append laws s c (joined cs) v total

keep_last-append : (size : ℕ) (xs ys : List ℕ) → length ys ≡ size → keep_last size (xs ++ ys) ≡ ys
keep_last-append size xs ys h =
    let n = length (xs ++ ys) - size in
    let split : n ≡ length xs = omega (arith, length-append xs ys, h) in
    let at_once : n - length xs ≡ 0 = omega (arith, split) in
    drop-append_right n xs ys (omega (arith, split)) ∙ ap (λ k. drop k ys) at_once

module _ {S : Type 0} {decode : S → List ℕ → ℕ × S} (laws : IsDecoder decode) {size : ℕ} (a : Accum)
    (v : IsValid size a) (s : S) where
  feed-keep_last :
      (xs : List ℕ)
      → 0 < length xs
      → view decode (feed decode size a s xs) ≡ settle decode (keep_last size (contents a ++ xs)) s
  feed-keep_last [] some = absurd (omega (arith, some))
  feed-keep_last (x ∷ xs) some = feed_refines laws v s x xs

  -- A burst as long as the accumulator leaves nothing of what came before it.
  pub feed_burst :
      (front tail : List ℕ)
      → length tail ≡ size
      → 0 < size
      → view decode (feed decode size a s (front ++ tail)) ≡ settle decode tail s
  feed_burst front tail h some =
      feed-keep_last (front ++ tail) (omega (arith, h, some, length-append front tail))
      ∙ ap (λ t. settle decode t s)
          (ap (keep_last size) (sym (append_assoc (contents a) front tail))
            ∙ keep_last-append size (contents a ++ front) tail h)
