-- ===== src/Accum/Chunks.antt =====
-- `..._feed` as a whole: what it leaves, and that it does not matter how the bytes are cut up.
use flexit_cs60_control.Shared.{
  ℕ, zero, suc, ◌+◌, ◌-◌, ◌≤◌, ◌≡◌, refl, ap, sym, subst, ◌∙◌, List, [], ◌∷◌, ◌++◌, arith, length,
  drop, length-drop, length-append, append_assoc, append-nil,
}
use flexit_cs60_control.Accum.{Accum, contents, append, feed}
use flexit_cs60_control.Accum.Buffer.{
  IsValid, keep_last, length-contents, append-IsValid, contents-append,
}
use flexit_cs60_control.Accum.Loop.{
  IsDecoder, run, view, settle, Settled, drain_refines, run_settled, settle-append,
}

module _ {S : Type 0} {decode : S → List ℕ → ℕ × S} (laws : IsDecoder decode) {size : ℕ} {a : Accum}
    (v : IsValid size a) (s : S) where
  -- Feeding keeps the array's size and the length within it.
  pub feed-IsValid : (src : List ℕ) → IsValid size (feed decode size a s src).0
  unfolding feed
  feed-IsValid [] = v
  feed-IsValid (x ∷ xs) =
      (drain_refines decode (append size a (x ∷ xs)).len (append size a (x ∷ xs)) s
        (append-IsValid v (x ∷ xs))).0

  -- Feeding decodes the last `size` bytes of what was left over and what is new.
  pub feed_refines :
      (x : ℕ) (xs : List ℕ)
      → view decode (feed decode size a s (x ∷ xs))
        ≡ settle decode (keep_last size (contents a ++ (x ∷ xs))) s
  unfolding feed
  feed_refines x xs =
      let v' = append-IsValid v (x ∷ xs) in
      (drain_refines decode (append size a (x ∷ xs)).len (append size a (x ∷ xs)) s v').1
      ∙ ap (λ n. run decode n (contents (append size a (x ∷ xs))) s) (sym (length-contents _ v'))
      ∙ ap (λ t. settle decode t s) (contents-append v (x ∷ xs))

  -- After a feed the loop has ended by its own test.
  pub feed-Settled :
      (x : ℕ) (xs : List ℕ) → Settled decode (view decode (feed decode size a s (x ∷ xs)))
  feed-Settled x xs = subst (Settled decode) (sym (feed_refines x xs)) (
      run_settled decode laws (length (keep_last size (contents a ++ (x ∷ xs))))
        (keep_last size (contents a ++ (x ∷ xs))) s (omega arith))

  -- Where the bytes fit the accumulator, nothing is dropped.
  pub feed-settle :
      (x : ℕ) (xs : List ℕ)
      → length (contents a) + length (x ∷ xs) ≤ size
      → view decode (feed decode size a s (x ∷ xs)) ≡ settle decode (contents a ++ (x ∷ xs)) s
  feed-settle x xs h =
      let all : length (contents a ++ (x ∷ xs)) - size ≡ 0 =
        omega (arith, length-append (contents a) (x ∷ xs)) in
      feed_refines x xs ∙ ap (λ k. settle decode (drop k (contents a ++ (x ∷ xs))) s) all

module _ {S : Type 0} {decode : S → List ℕ → ℕ × S} (laws : IsDecoder decode) where
  length-settle : (fuel : ℕ) (xs : List ℕ) (s : S) → length (run decode fuel xs s).0 ≤ length xs
  unfolding run
  length-settle zero xs s = omega arith
  length-settle (suc fuel) xs s = ground (
    arith,
    length-settle fuel (drop (decode s xs).0 xs) (decode s xs).1,
    length-drop (decode s xs).0 xs,
  )

  -- Feeding two parts one after the other is feeding them at once, in what is left over and in
  -- the owner's state, where all of it fits the accumulator.
  pub feed-append :
      {size : ℕ} {a : Accum} (s : S) (xs ys : List ℕ)
      → IsValid size a
      → length (contents a) + length xs + length ys ≤ size
      → (let r = feed decode size a s xs in view decode (feed decode size r.0 r.1 ys))
        ≡ view decode (feed decode size a s (xs ++ ys))
  unfolding feed
  feed-append s [] ys v h = refl
  feed-append {size} {a} s (x ∷ xs) [] v h = rw append-nil
  feed-append {size} {a} s (x ∷ xs) (y ∷ ys) v h =
      let r = feed decode size a s (x ∷ xs) in
      let first = feed-settle laws v s x xs (omega arith) in
      let room : length (contents r.0) + length (y ∷ ys) ≤ size = omega (
        arith,
        ap (λ (t : List ℕ × S). length t.0) first,
        length-settle (length (contents a ++ (x ∷ xs))) (contents a ++ (x ∷ xs)) s,
        length-append (contents a) (x ∷ xs),
      ) in
      feed-settle laws (feed-IsValid laws v s (x ∷ xs)) r.1 y ys room
      ∙ ap (λ (t : List ℕ × S). settle decode (t.0 ++ (y ∷ ys)) t.1) first
      ∙ sym (settle-append laws (contents a ++ (x ∷ xs)) (y ∷ ys) s)
      ∙ ap (λ t. settle decode t s) (append_assoc (contents a) (x ∷ xs) (y ∷ ys))
      ∙ sym (feed-settle laws v s x (xs ++ (y ∷ ys)) (omega (arith, length-append xs (y ∷ ys))))

  -- A feed leaves no more than was left over and is new.
  pub length-feed :
      {size : ℕ} {a : Accum}
      → IsValid size a
      → (s : S) (xs : List ℕ) → length (contents a) + length xs ≤ size
      → length (contents (feed decode size a s xs).0) ≤ length (contents a) + length xs
  unfolding feed
  length-feed v s [] h = omega arith
  length-feed {size} {a} v s (x ∷ xs) h = omega (
    arith,
    ap (λ (t : List ℕ × S). length t.0) (feed-settle laws v s x xs h),
    length-settle (length (contents a ++ (x ∷ xs))) (contents a ++ (x ∷ xs)) s,
    length-append (contents a) (x ∷ xs),
  )
