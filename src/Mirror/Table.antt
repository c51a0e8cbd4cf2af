-- ===== src/Mirror/Table.antt =====
-- The counter table of src/panel_mirror.c as a map from addresses to what was written last.
use flexit_cs60_control.Shared.{
  ℕ, ◌≤◌, ◌<◌, ◌≡◌, ◌≢◌, ap, sym, ◌∙◌, subst, ◌⊎◌, inl, inr, true, List, arith, length, ◌==◌,
  length-set, get_or-set_self, get_or-set_ne, Bool-cases,
}
use flexit_cs60_control.Mirror.{Slot, no_slot, counter_slots}
use flexit_cs60_control.Mirror.Counters.{slot_at, chosen_slot, note_counter}
use flexit_cs60_control.Mirror.Search.{Missed, hit, free, oldest, chosen_slot-Chosen}

-- Slot `j` holds the address.
abbrev pub At : List Slot → ℕ → ℕ → Type 0
At t addr j = (j < counter_slots) × ((slot_at t j).used ≡ true) × ((slot_at t j).addr ≡ addr)

-- The table holds `value` for `addr`, written at `at_ms`.
abbrev pub Holds : List Slot → ℕ → ℕ → ℕ → Type 0
Holds t addr value at_ms =
    (j : ℕ) × At t addr j × ((slot_at t j).value ≡ value) × ((slot_at t j).at_ms ≡ at_ms)

-- Eight slots, and no address in two of them.
pub record IsTable (t : List Slot) : Type 0 where
  pub eight : length t ≡ counter_slots
  pub unique : (addr i j : ℕ) → At t addr i → At t addr j → i ≡ j

-- `at_ms` is no later than any time in the table, and no slot is free.
abbrev pub IsOldest : List Slot → ℕ → Type 0
IsOldest t at_ms =
    (j : ℕ) → j < counter_slots → ((slot_at t j).used ≡ true) × (at_ms ≤ (slot_at t j).at_ms)

module _ (addr value now : ℕ) (t : List Slot) (h : IsTable t) where
  abbrev written : Slot
  written = record { addr = addr; value = value; at_ms = now; used = true }

  chosen_in_table : chosen_slot addr t < counter_slots
  chosen_in_table = elim (chosen_slot-Chosen addr t) [
    | hit k u a ↦ k
    | free k u m ↦ k
    | oldest k m u l ↦ k
  ]

  slot_written : slot_at (note_counter addr value now t) (chosen_slot addr t) ≡ written
  unfolding note_counter
  slot_written =
      get_or-set_self t (chosen_slot addr t) written no_slot
        (omega (arith, chosen_in_table, h.eight))

  slot_kept :
      (j : ℕ) → chosen_slot addr t ≢ j → slot_at (note_counter addr value now t) j ≡ slot_at t j
  unfolding note_counter
  slot_kept j ne = get_or-set_ne t (chosen_slot addr t) j written no_slot ne

  -- Where a slot held the address, that slot is taken.
  chosen_holder : (j : ℕ) → At t addr j → chosen_slot addr t ≡ j
  chosen_holder j a = elim (chosen_slot-Chosen addr t) [
    | hit k u e ↦ h.unique addr (chosen_slot addr t) j (k, u, e) a
    | free k u m ↦ absurd (m j a.0 a.1 a.2)
    | oldest k m u l ↦ absurd (m j a.0 a.1 a.2)
  ]

  pub note_counter-written : Holds (note_counter addr value now t) addr value now
  note_counter-written = (
    chosen_slot addr t,
    (
      chosen_in_table,
      ap (λ (c : Slot). c.used) slot_written,
      ap (λ (c : Slot). c.addr) slot_written,
    ),
    ap (λ (c : Slot). c.value) slot_written,
    ap (λ (c : Slot). c.at_ms) slot_written,
  )

  -- After the write an address stands where it stood, or is the written one in the chosen slot.
  At-note_counter :
      (b j : ℕ)
      → At (note_counter addr value now t) b j
      → ((chosen_slot addr t ≡ j) × (b ≡ addr)) ⊎ ((chosen_slot addr t ≢ j) × At t b j)
  At-note_counter b j a = elim (Bool-cases (chosen_slot addr t == j)) [
    | inl e ↦
        let here : chosen_slot addr t ≡ j = ground arith in
        inl (
          here,
          sym a.2
              ∙ ap (λ i. (slot_at (note_counter addr value now t) i).addr) (sym here)
              ∙ ap (λ (c : Slot). c.addr) slot_written,
        )
    | inr e ↦
        let ne : chosen_slot addr t ≢ j = ground arith in
        inr (ne, (a.0, rw (slot_kept j ne) at a.1, rw (slot_kept j ne) at a.2))
  ]

  note_counter_unique :
      (b i j : ℕ)
      → At (note_counter addr value now t) b i
      → At (note_counter addr value now t) b j
      → i ≡ j
  note_counter_unique b i j a c = elim (At-note_counter b i a) [
    | inl x ↦ elim (At-note_counter b j c) [
      | inl y ↦ sym x.0 ∙ y.0
      | inr y ↦ absurd (y.0 (chosen_holder j (subst (λ d. At t d j) x.1 y.1)))
    ]
    | inr x ↦ elim (At-note_counter b j c) [
      | inl y ↦ absurd (x.0 (chosen_holder i (subst (λ d. At t d i) y.1 x.1)))
      | inr y ↦ h.unique b i j x.1 y.1
    ]
  ]

  pub note_counter-IsTable : IsTable (note_counter addr value now t)
  unfolding note_counter
  note_counter-IsTable = record {
    eight = length-set t (chosen_slot addr t) written ∙ h.eight;
    unique = unfold note_counter in note_counter_unique;
  }

  -- Nothing else enters the table.
  note_counter-others :
      (b v m : ℕ) → b ≢ addr → Holds (note_counter addr value now t) b v m → Holds t b v m
  note_counter-others b v m ne (j, a, ev, em) = elim (At-note_counter b j a) [
    | inl x ↦ absurd (ne x.1)
    | inr x ↦ (j, x.1, rw (slot_kept j x.0) at ev, rw (slot_kept j x.0) at em)
  ]

  -- What the chosen slot held of another address was the oldest entry of a full table without `addr`.
  evicted :
      (b : ℕ)
      → b ≢ addr
      → At t b (chosen_slot addr t)
      → Missed addr t counter_slots × IsOldest t (slot_at t (chosen_slot addr t)).at_ms
  evicted b ne a = elim (chosen_slot-Chosen addr t) [
    | hit k u e ↦ absurd (ne (sym a.2 ∙ e))
    | free k u m ↦ absurd (ground (arith, a.1))
    | oldest k m u l ↦ (m, λ j below. (u j below, l j below))
  ]

  pub note_counter-kept :
      (b v m : ℕ)
      → b ≢ addr
      → Holds t b v m
      → Holds (note_counter addr value now t) b v m ⊎ (Missed addr t counter_slots × IsOldest t m)
  note_counter-kept b v m ne (j, a, ev, em) = elim (Bool-cases (chosen_slot addr t == j)) [
    | inl e ↦
        let here : chosen_slot addr t ≡ j = ground arith in
        let (missed, least) = evicted b ne (subst (At t b) (sym here) a) in
        inr (missed, subst (IsOldest t) (ap (λ i. (slot_at t i).at_ms) here ∙ em) least)
    | inr e ↦
        let kept = slot_kept j (λ here. ground arith) in
        inl (j, (a.0, rw kept a.1, rw kept a.2), rw kept ev, rw kept em)
  ]

  -- The table is a map of the eight addresses written last: a write enters its own address with
  -- its value and time, enters nothing else, keeps every address in one slot, and every other
  -- address stays unless the table was full without the written one and that entry was as old as any.
  pub note_counter_lem :
      (let t' = note_counter addr value now t in
        IsTable t'
        × Holds t' addr value now
        × ((b v m : ℕ) → b ≢ addr → Holds t' b v m → Holds t b v m)
        × ((b v m : ℕ)
            → b ≢ addr
            → Holds t b v m
            → Holds t' b v m ⊎ (Missed addr t counter_slots × IsOldest t m)))
  note_counter_lem =
      (note_counter-IsTable, note_counter-written, note_counter-others, note_counter-kept)
