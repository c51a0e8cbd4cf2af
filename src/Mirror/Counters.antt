-- ===== src/Mirror/Counters.antt =====
-- src/panel_mirror.c, `try_decode_fc06`: the table of last-seen single-register writes.
use flexit_cs60_control.Shared.{
  ℕ, zero, suc, ◌+◌, Bool, true, false, not, ◌&&◌, Option, none, some, List, get_or, set, ltb, ◌==◌,
  if◌then◌else◌,
}
use flexit_cs60_control.Mirror.{Slot, no_slot, counter_slots}

abbrev pub slot_at : List Slot → ℕ → Slot
slot_at t i = get_or t i no_slot

abbrev pub is_none {ℓ} : {A : Type ℓ} → Option A → Bool
is_none none = true
is_none (some a) = false

-- The slot that is taken when no slot holds the address.
abbrev pub fallback : Option ℕ → ℕ → ℕ
fallback none lru_slot = lru_slot
fallback (some free_slot) lru_slot = free_slot

-- The search loop, `n` rounds from slot `i` on: the slot that holds the address, else the first
-- free one, else the one written longest ago.
unfoldable pub find_slot : ℕ → List Slot → ℕ → ℕ → Option ℕ → ℕ → ℕ → ℕ
find_slot addr t zero i free_slot lru_slot lru_at = fallback free_slot lru_slot
find_slot addr t (suc n) i free_slot lru_slot lru_at =
    let c = slot_at t i in
    let older = c.used && ltb c.at_ms lru_at in
    let rest =
      find_slot addr t n (i + 1) (if not c.used && is_none free_slot then some i else free_slot)
        (if older then i else lru_slot) (if older then c.at_ms else lru_at) in
    if c.used && c.addr == addr then i else rest

unfoldable pub chosen_slot : ℕ → List Slot → ℕ
chosen_slot addr t = find_slot addr t counter_slots 0 none 0 (slot_at t 0).at_ms

unfoldable pub note_counter : ℕ → ℕ → ℕ → List Slot → List Slot
note_counter addr value now t =
    set t (chosen_slot addr t) (record { addr = addr; value = value; at_ms = now; used = true })
