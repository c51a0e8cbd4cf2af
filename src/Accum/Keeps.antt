-- ===== src/Accum/Keeps.antt =====
-- Invariants of the accumulator's owner: what each decoded frame keeps, every feed keeps.
use flexit_cs60_control.Shared.{
  ℕ, zero, suc, sym, subst, inl, inr, List, [], ◌∷◌, ◌++◌, length, drop, ◌==◌, Bool-cases, Below,
  Below-append, Below-drop,
}
use flexit_cs60_control.Accum.{Accum, contents, feed}
use flexit_cs60_control.Accum.Buffer.{IsValid, keep_last}
use flexit_cs60_control.Accum.Loop.{IsDecoder, run, view}
use flexit_cs60_control.Accum.Chunks.{feed_refines}

module _ {ℓ} {S : Type 0} (decode : S → List ℕ → ℕ × S) (P : S → Type ℓ)
    (keep : (s : S) (xs : List ℕ) → Below 256 xs → P s → P (decode s xs).1) where
  run_keeps :
      (fuel : ℕ) (xs : List ℕ) (s : S)
      → Below 256 xs
      → P s
      → Below 256 (run decode fuel xs s).0 × P (run decode fuel xs s).1
  unfolding run
  run_keeps zero xs s b h = (b, h)
  run_keeps (suc fuel) xs s b h = elim (Bool-cases (length xs == 0)) [
    | inl e ↦ rw e (b, h)
    | inr e ↦ elim (Bool-cases ((decode s xs).0 == 0)) [
      | inl w ↦ rw (e, w) (b, keep s xs b h)
      | inr w ↦
          rw (e, w)
            (run_keeps fuel (drop (decode s xs).0 xs) (decode s xs).1
              (Below-drop 256 (decode s xs).0 xs b) (keep s xs b h))
    ]
  ]

  -- Feeding bytes keeps the owner's invariant, and leaves bytes.
  pub feed_keeps :
      IsDecoder decode
      → {size : ℕ} {a : Accum} (v : IsValid size a) (s : S) (src : List ℕ) → Below 256 (contents a)
      → Below 256 src
      → P s
      → Below 256 (view decode (feed decode size a s src)).0
        × P (view decode (feed decode size a s src)).1
  unfolding feed
  feed_keeps laws v s [] ba bs h = (ba, h)
  feed_keeps laws {size} {a} v s (x ∷ xs) ba bs h =
      subst (λ (r : List ℕ × S). Below 256 r.0 × P r.1) (sym (feed_refines laws v s x xs))
        (run_keeps _ (keep_last size (contents a ++ (x ∷ xs))) s
          (Below-drop 256 _ (contents a ++ (x ∷ xs)) (Below-append 256 (contents a) (x ∷ xs) ba bs))
          h)
