-- ===== src/Accum/Loop.antt =====
-- The decode loop: on lists, and that the loop on the array is it.
use flexit_cs60_control.Shared.{
  ℕ, zero, suc, ◌≤◌, ◌≡◌, ◌≢◌, ◌⊎◌, refl, ◌∙◌, inl, inr, List, [], ◌∷◌, ◌++◌, arith, length, drop,
  ◌==◌, if◌then◌else◌, Bool-cases, drop-append, length-drop,
}
use flexit_cs60_control.Accum.{Accum, contents, consume, drain}
use flexit_cs60_control.Accum.Buffer.{IsValid, length-contents, consume-IsValid, contents-consume}

-- What the loop relies on: a decoder consumes no more than there is, does nothing while it waits,
-- and a decision that it has taken does not depend on bytes that come later.
pub record IsDecoder {S : Type 0} (decode : S → List ℕ → ℕ × S) : Type 0 where
  pub bounded : (s : S) (xs : List ℕ) → (decode s xs).0 ≤ length xs
  pub patient : (s : S) (xs : List ℕ) → (decode s xs).0 ≡ 0 → (decode s xs).1 ≡ s
  pub stable : (s : S) (xs ys : List ℕ) → (decode s xs).0 ≢ 0 → decode s (xs ++ ys) ≡ decode s xs

module _ {S : Type 0} (decode : S → List ℕ → ℕ × S) where
  -- The loop on the bytes alone.
  unfoldable pub run : ℕ → List ℕ → S → List ℕ × S
  run zero xs s = (xs, s)
  run (suc fuel) xs s =
      let r = decode s xs in
      let rest = run fuel (drop r.0 xs) r.1 in
      if length xs == 0 then (xs, s) else if r.0 == 0 then (xs, r.1) else rest

  -- What a client sees of an accumulator and its owner's state.
  abbrev pub view : Accum × S → List ℕ × S
  view r = (contents r.0, r.1)

  -- The bytes that a loop leaves are none, or too few for a decision.
  abbrev pub Settled : List ℕ × S → Type 0
  Settled r = (length r.0 ≡ 0) ⊎ ((decode r.1 r.0).0 ≡ 0)

  run_step :
      (fuel : ℕ) (xs : List ℕ) (s : S)
      → length xs ≢ 0
      → (decode s xs).0 ≢ 0
      → run (suc fuel) xs s ≡ run fuel (drop (decode s xs).0 xs) (decode s xs).1
  unfolding run
  run_step fuel xs s h w = ground arith

  -- The loop on the array goes through the states of the loop on its bytes.
  pub drain_refines :
      {size : ℕ} (fuel : ℕ) (a : Accum) (s : S)
      → IsValid size a
      → IsValid size (drain decode fuel a s).0
        × (view (drain decode fuel a s) ≡ run fuel (contents a) s)
  unfolding drain run
  drain_refines zero a s v = (v, refl)
  drain_refines (suc fuel) a s v = ground (
    arith,
    length-contents a v,
    contents-consume v (decode s (contents a)).0,
    drain_refines fuel (consume a (decode s (contents a)).0) (decode s (contents a)).1
        (consume-IsValid v (decode s (contents a)).0),
  )

  module _ (laws : IsDecoder decode) where
    -- Any fuel that covers the bytes gives the same run.
    run_fuel :
        (f g : ℕ) (xs : List ℕ) (s : S) → length xs ≤ f → length xs ≤ g → run f xs s ≡ run g xs s
    unfolding run
    run_fuel zero zero xs s h k = refl
    run_fuel zero (suc g) xs s h k = ground arith
    run_fuel (suc f) zero xs s h k = ground arith
    run_fuel (suc f) (suc g) xs s h k = elim (Bool-cases (length xs == 0)) [
      | inl e ↦ rw e
      | inr e ↦ elim (Bool-cases ((decode s xs).0 == 0)) [
        | inl w ↦ rw (e, w)
        | inr w ↦
            rw (e, w)
              (run_fuel f g (drop (decode s xs).0 xs) (decode s xs).1
                (ground (arith, length-drop (decode s xs).0 xs))
                (ground (arith, length-drop (decode s xs).0 xs)))
      ]
    ]

    run_wait : (fuel : ℕ) (xs : List ℕ) (s : S) → (decode s xs).0 ≡ 0 → run fuel xs s ≡ (xs, s)
    unfolding run
    run_wait zero xs s h = refl
    run_wait (suc fuel) xs s h = ground (arith, laws.patient s xs h)

    -- With fuel for every byte the loop ends by its own test: nothing is left, or too few bytes
    -- for a decision.
    pub run_settled :
        (fuel : ℕ) (xs : List ℕ) (s : S)
        → length xs ≤ fuel
        → (length (run fuel xs s).0 ≡ 0) ⊎ ((decode (run fuel xs s).1 (run fuel xs s).0).0 ≡ 0)
    unfolding run
    run_settled zero xs s h = inl (omega arith)
    run_settled (suc fuel) xs s h = elim (Bool-cases (length xs == 0)) [
      | inl e ↦ rw e (inl (ground arith))
      | inr e ↦ elim (Bool-cases ((decode s xs).0 == 0)) [
        | inl w ↦
            let waits : (decode s xs).0 ≡ 0 = ground arith in
            rw (e, w, laws.patient s xs waits) (inr waits)
        | inr w ↦
            rw (e, w)
              (run_settled fuel (drop (decode s xs).0 xs) (decode s xs).1
                (ground (arith, length-drop (decode s xs).0 xs)))
      ]
    ]

  -- The run with as much fuel as there are bytes.
  abbrev pub settle : List ℕ → S → List ℕ × S
  settle xs s = run (length xs) xs s

module _ {S : Type 0} {decode : S → List ℕ → ℕ × S} (laws : IsDecoder decode) where
  pub settle_wait : (xs : List ℕ) (s : S) → (decode s xs).0 ≡ 0 → settle decode xs s ≡ (xs, s)
  settle_wait xs s h = run_wait decode laws (length xs) xs s h

  pub settle_step :
      (xs : List ℕ) (s : S)
      → (decode s xs).0 ≢ 0
      → settle decode xs s ≡ settle decode (drop (decode s xs).0 xs) (decode s xs).1
  settle_step [] s h = absurd (h (omega (arith, laws.bounded s [])))
  settle_step (x ∷ xs) s h =
      run_step decode (length xs) (x ∷ xs) s (omega arith) h
      ∙ run_fuel decode laws (length xs) (length (drop (decode s (x ∷ xs)).0 (x ∷ xs)))
          (drop (decode s (x ∷ xs)).0 (x ∷ xs)) (decode s (x ∷ xs)).1
          (omega (arith, length-drop (decode s (x ∷ xs)).0 (x ∷ xs), h)) (omega arith)

  -- A loop over bytes that arrive in two parts.
  settle-append_fuel :
      (fuel : ℕ) (xs ys : List ℕ) (s : S)
      → length xs ≤ fuel
      → settle decode (xs ++ ys) s ≡ (let r = settle decode xs s in settle decode (r.0 ++ ys) r.1)
  settle-append_fuel zero xs ys s h = rw (settle_wait xs s (omega (arith, laws.bounded s xs)))
  settle-append_fuel (suc fuel) xs ys s h = elim (Bool-cases ((decode s xs).0 == 0)) [
    | inl w ↦ rw (settle_wait xs s (ground arith))
    | inr w ↦
        let moves : (decode s xs).0 ≢ 0 = ground arith in
        let same_choice = laws.stable s xs ys moves in
        let moves' : (decode s (xs ++ ys)).0 ≢ 0 = rw same_choice moves in
        rw
          (
            settle_step xs s moves,
            settle_step (xs ++ ys) s moves',
            same_choice,
            drop-append (decode s xs).0 xs ys (laws.bounded s xs),
          )
          (settle-append_fuel fuel (drop (decode s xs).0 xs) ys (decode s xs).1
            (omega (arith, length-drop (decode s xs).0 xs, moves)))
  ]

  pub settle-append :
      (xs ys : List ℕ) (s : S)
      → settle decode (xs ++ ys) s ≡ (let r = settle decode xs s in settle decode (r.0 ++ ys) r.1)
  settle-append xs ys s = settle-append_fuel (length xs) xs ys s (omega arith)
