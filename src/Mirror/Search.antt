-- ===== src/Mirror/Search.antt =====
-- Which slot the search of src/panel_mirror.c, `try_decode_fc06`, ends with.
use flexit_cs60_control.Shared.{
  ℕ, zero, suc, ◌+◌, ◌≤◌, ◌<◌, ◌≡◌, refl, subst, inl, inr, true, false, not, ◌&&◌, Option, none,
  some, List, arith, ltb, ◌==◌, if◌then◌else◌, Bool-cases,
}
use flexit_cs60_control.Mirror.{Slot, counter_slots}
use flexit_cs60_control.Mirror.Counters.{slot_at, find_slot, chosen_slot, is_none}

module _ (addr : ℕ) (t : List Slot) where
  -- No slot below `i` holds the address.
  abbrev pub Missed : ℕ → Type 0
  Missed i = (j : ℕ) → j < i → (slot_at t j).used ≡ true → (slot_at t j).addr ≡ addr → ⊥

  -- The three ways to choose a slot.
  pub data Chosen (r : ℕ) : Type 0 where
    hit : r < counter_slots → (slot_at t r).used ≡ true → (slot_at t r).addr ≡ addr → Chosen r
    free : r < counter_slots → (slot_at t r).used ≡ false → Missed counter_slots → Chosen r
    oldest :
        r < counter_slots
        → Missed counter_slots
        → ((j : ℕ) → j < counter_slots → (slot_at t j).used ≡ true)
        → ((j : ℕ) → j < counter_slots → (slot_at t r).at_ms ≤ (slot_at t j).at_ms)
        → Chosen r

  -- What `free_slot` says of the slots below `i`.
  abbrev FreeBelow : ℕ → Option ℕ → Type 0
  FreeBelow i none = (j : ℕ) → j < i → (slot_at t j).used ≡ true
  FreeBelow i (some f) = (f < counter_slots) × ((slot_at t f).used ≡ false)

  -- The loop's invariant before round `i`.
  record Searching (i : ℕ) (free_slot : Option ℕ) (lru_slot lru_at : ℕ) : Type 0 where
    missed : Missed i
    free_below : FreeBelow i free_slot
    in_table : lru_slot < counter_slots
    its_time : lru_at ≡ (slot_at t lru_slot).at_ms
    least : (j : ℕ) → j < i → (slot_at t j).used ≡ true → lru_at ≤ (slot_at t j).at_ms

  -- From below `i` and at `i` to below `i + 1`.
  upto : (P : ℕ → Type 0) (i : ℕ) → ((j : ℕ) → j < i → P j) → P i → (j : ℕ) → j < i + 1 → P j
  upto P i below here j h = elim (Bool-cases (ltb j i)) [
    | inl e ↦ below j (ground arith)
    | inr e ↦ let same : i ≡ j = ground arith in subst P same here
  ]

  step-Missed :
      (i : ℕ)
      → Missed i
      → ((slot_at t i).used && (slot_at t i).addr == addr) ≡ false
      → Missed (i + 1)
  step-Missed i m e =
      upto (λ j. (slot_at t j).used ≡ true → (slot_at t j).addr ≡ addr → ⊥) i m
        (λ u a. ground arith)

  free_next :
      (i : ℕ) (f : Option ℕ)
      → i < counter_slots
      → FreeBelow i f
      → FreeBelow (i + 1) (if not (slot_at t i).used && is_none f then some i else f)
  free_next i none h below = elim (Bool-cases (slot_at t i).used) [
    | inl u ↦ rw u (upto (λ j. (slot_at t j).used ≡ true) i below u)
    | inr u ↦ rw u (h, u)
  ]
  free_next i (some f) h below = elim (Bool-cases (slot_at t i).used) [
    | inl u ↦ rw u below
    | inr u ↦ rw u below
  ]

  step-Searching :
      (i : ℕ) (f : Option ℕ) (lru_slot lru_at : ℕ)
      → i < counter_slots
      → ((slot_at t i).used && (slot_at t i).addr == addr) ≡ false
      → Searching i f lru_slot lru_at
      → let older = (slot_at t i).used && ltb (slot_at t i).at_ms lru_at in
        Searching
          (i + 1)
          (if not (slot_at t i).used && is_none f then some i else f)
          (if older then i else lru_slot)
          (if older then (slot_at t i).at_ms else lru_at)
  step-Searching i f lru_slot lru_at h e s =
      elim (Bool-cases ((slot_at t i).used && ltb (slot_at t i).at_ms lru_at)) [
        | inl o ↦ rw o (record {
          missed = step-Missed i s.missed e;
          free_below = free_next i f h s.free_below;
          in_table = h;
          its_time = refl;
          least =
              upto (λ j. (slot_at t j).used ≡ true → (slot_at t i).at_ms ≤ (slot_at t j).at_ms) i
                (λ j below u. ground (arith, s.least j below u)) (λ u. omega arith);
        })
        | inr o ↦ rw o (record {
          missed = step-Missed i s.missed e;
          free_below = free_next i f h s.free_below;
          in_table = s.in_table;
          its_time = s.its_time;
          least =
              upto (λ j. (slot_at t j).used ≡ true → lru_at ≤ (slot_at t j).at_ms) i s.least
                (λ u. ground arith);
        })
      ]

  find_slot-Chosen :
      (n i : ℕ) (f : Option ℕ) (lru_slot lru_at : ℕ)
      → i + n ≡ counter_slots
      → Searching i f lru_slot lru_at
      → Chosen (find_slot addr t n i f lru_slot lru_at)
  unfolding find_slot
  find_slot-Chosen zero i none lru_slot lru_at e s =
      oldest s.in_table (λ j h. s.missed j (omega arith)) (λ j h. s.free_below j (omega arith))
        (λ j h. omega (arith, s.its_time, s.least j (omega arith) (s.free_below j (omega arith))))
  find_slot-Chosen zero i (some f) lru_slot lru_at e s =
      free s.free_below.0 s.free_below.1 (λ j h. s.missed j (omega arith))
  find_slot-Chosen (suc n) i f lru_slot lru_at e s =
      elim (Bool-cases ((slot_at t i).used && (slot_at t i).addr == addr)) [
        | inl found ↦ rw found (hit (omega arith) (ground arith) (ground arith))
        | inr next ↦ rw next (
            find_slot-Chosen n (i + 1) _ _ _ (omega arith)
              (step-Searching i f lru_slot lru_at (omega arith) next s))
      ]

  -- The search ends with the slot that holds the address; if there is none, with a free slot; and
  -- if there is no free one either, with a slot written no later than any other.
  pub chosen_slot-Chosen : Chosen (chosen_slot addr t)
  unfolding chosen_slot
  chosen_slot-Chosen = find_slot-Chosen counter_slots 0 none 0 (slot_at t 0).at_ms refl (record {
    missed = λ j h. absurd (omega arith);
    free_below = λ j h. absurd (omega arith);
    in_table = omega arith;
    its_time = refl;
    least = λ j h. absurd (omega arith);
  })
