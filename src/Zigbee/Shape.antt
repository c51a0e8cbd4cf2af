-- ===== src/Zigbee/Shape.antt =====
-- The arrays of `pending` in src/zigbee_ep.c have a place for each channel.
use flexit_cs60_control.Shared.{◌≡◌, refl, ap, List, [], ◌∷◌, arith, length}
use flexit_cs60_control.Zigbee.{Pending, temp_count, analog_count, binary_count}

pub record IsShaped {F : Type 0} (q : Pending F) : Type 0 where
  pub temp_cc : length q.temp_cc ≡ temp_count
  pub temp_dirty : length q.temp_dirty ≡ temp_count
  pub temp_last_ms : length q.temp_last_ms ≡ temp_count
  pub analog_val : length q.analog_val ≡ analog_count
  pub analog_dirty : length q.analog_dirty ≡ analog_count
  pub binary_val : length q.binary_val ≡ binary_count
  pub binary_dirty : length q.binary_dirty ≡ binary_count

module _ {ℓ} {A : Type ℓ} where
  pub one_place : (xs : List A) → length xs ≡ 1 → (a : A) × (xs ≡ a ∷ [])
  one_place [] h = absurd (omega arith)
  one_place (a ∷ []) h = (a, refl)
  one_place (a ∷ b ∷ xs) h = absurd (omega arith)

  pub three_places :
      (xs : List A) → length xs ≡ 3 → (a : A) × (b : A) × (c : A) × (xs ≡ a ∷ b ∷ c ∷ [])
  three_places [] h = absurd (omega arith)
  three_places (a ∷ []) h = absurd (omega arith)
  three_places (a ∷ b ∷ xs) h =
      let (c, e) = one_place xs (omega arith) in (a, b, c, ap (λ t. a ∷ b ∷ t) e)

  pub five_places :
      (xs : List A)
      → length xs ≡ 5
      → (a : A) × (b : A) × (c : A) × (d : A) × (e : A) × (xs ≡ a ∷ b ∷ c ∷ d ∷ e ∷ [])
  five_places [] h = absurd (omega arith)
  five_places (a ∷ []) h = absurd (omega arith)
  five_places (a ∷ b ∷ xs) h =
      let (c, d, e, eq) = three_places xs (omega arith) in (a, b, c, d, e, ap (λ t. a ∷ b ∷ t) eq)
