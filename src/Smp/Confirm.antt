-- ===== src/Smp/Confirm.antt =====
-- tools/ble-client/main.go, `cmdConfirm`: which image is made permanent.
use flexit_cs60_control.Shared.{
  ℕ, ◌≡◌, ◌≢◌, refl, ap, sym, ◌∙◌, Bool, true, false, not, ◌&&◌, inl, inr, ◌⊎◌, Bool-cases, Option,
  none, some, List, [], ◌∷◌, ◌++◌, arith, ◌==◌, if◌then◌else◌, All, same_bytes, same_bytes→eq,
}

-- `imageSlot`
pub record ImageSlot : Type 0 where
  pub slot : ℕ
  pub hash : List ℕ
  pub active : Bool
  pub confirmed : Bool
  pub pending : Bool
  pub permanent : Bool

-- The refusals, "already confirmed", and the call of `imageConfirm`.
pub data Verdict : Type 0 where
  no_slot_0 : Verdict
  in_slot : ℕ → Verdict
  not_on_device : Verdict
  not_active : Verdict
  already_confirmed : Verdict
  confirm : Verdict

-- `running`: the last entry of slot 0.
unfoldable pub find_running : List ImageSlot → Option ImageSlot → Option ImageSlot
find_running [] found = found
find_running (s ∷ slots) found = find_running slots (if s.slot == 0 then some s else found)

-- The first other slot that holds the hash.
unfoldable pub find_elsewhere : List ℕ → List ImageSlot → Verdict
find_elsewhere hash [] = not_on_device
find_elsewhere hash (s ∷ slots) =
    let rest = find_elsewhere hash slots in
    if not (s.slot == 0) && same_bytes s.hash hash then in_slot s.slot else rest

unfoldable pub judge : List ℕ → List ImageSlot → Option ImageSlot → Verdict
judge hash slots none = no_slot_0
judge hash slots (some running) =
    if not (same_bytes running.hash hash)
    then find_elsewhere hash slots
    else if not running.active
    then not_active
    else if running.confirmed
    then already_confirmed
    else confirm

unfoldable pub confirm_verdict : List ℕ → List ImageSlot → Verdict
confirm_verdict hash slots = judge hash slots (find_running slots none)

-- `s` is the last entry of slot 0.
pub record IsRunning (s : ImageSlot) (slots : List ImageSlot) : Type 0 where
  pub before : List ImageSlot
  pub later : List ImageSlot
  pub whole : slots ≡ before ++ s ∷ later
  pub slot_0 : s.slot ≡ 0
  pub none_later : All (λ t. t.slot ≢ 0) later

elsewhere-ne-confirm :
    (hash : List ℕ) (slots : List ImageSlot) → find_elsewhere hash slots ≢ confirm
unfolding find_elsewhere
elsewhere-ne-confirm hash [] = λ e. cc
elsewhere-ne-confirm hash (s ∷ slots) = λ e. ground (arith, e, elsewhere-ne-confirm hash slots)

is_some : (t s : ImageSlot) → ◌≡◌ {A = Option ImageSlot} (some t) (some s) → t ≡ s
is_some t s e = cc

-- What is found is the last entry of slot 0, or what was found before.
find_running_lem :
    (slots : List ImageSlot) (found : Option ImageSlot) (s : ImageSlot)
    → find_running slots found ≡ some s
    → IsRunning s slots ⊎ ((found ≡ some s) × All (λ t. t.slot ≢ 0) slots)
unfolding find_running
find_running_lem [] found s e = inr (e, tt)
find_running_lem (t ∷ slots) found s e =
    elim (find_running_lem slots (if t.slot == 0 then some t else found) s e) [
      | inl r ↦ inl (record {
        before = t ∷ r.before;
        later = r.later;
        whole = ap (λ l. t ∷ l) r.whole;
        slot_0 = r.slot_0;
        none_later = r.none_later;
      })
      | inr (last, none_later) ↦ elim (Bool-cases (t.slot == 0)) [
        | inl zeroth ↦
            let here : t ≡ s = is_some t s (rw zeroth at last) in
            inl (record {
              before = [];
              later = slots;
              whole = ap (λ u. u ∷ slots) here;
              slot_0 = ap (λ (u : ImageSlot). u.slot) (sym here) ∙ ground (arith, zeroth);
              none_later = none_later;
            })
        | inr other ↦ inr (rw other at last, (λ z. ground (arith, z, other), none_later))
      ]
    ]

active_judged :
    (active confirmed : Bool)
    → (if not active then not_active else if confirmed then already_confirmed else confirm)
      ≡ confirm
    → (active ≡ true) × (confirmed ≡ false)
active_judged true true e = absurd (cc e)
active_judged true false e = (refl, refl)
active_judged false c e = absurd (cc e)

judge-confirm :
    (hash : List ℕ) (slots : List ImageSlot) (r : Option ImageSlot)
    → judge hash slots r ≡ confirm
    → (s : ImageSlot) × (r ≡ some s) × (s.hash ≡ hash) × (s.active ≡ true) × (s.confirmed ≡ false)
unfolding judge
judge-confirm hash slots none e = absurd (cc e)
judge-confirm hash slots (some s) e = elim (Bool-cases (same_bytes s.hash hash)) [
  | inr differs ↦ absurd (elsewhere-ne-confirm hash slots (rw differs at e))
  | inl same ↦
      let rest : (s.active ≡ true) × (s.confirmed ≡ false) =
        active_judged s.active s.confirmed (rw same at e) in
      (s, refl, same_bytes→eq s.hash hash same, rest.0, rest.1)
]

-- Only the image that runs from slot 0 is ever confirmed: the one with the given hash, that is
-- reported active and is not yet confirmed.
pub confirm_verdict-IsRunning :
    (hash : List ℕ) (slots : List ImageSlot)
    → confirm_verdict hash slots ≡ confirm
    → (s : ImageSlot) × IsRunning s slots
      × (s.hash ≡ hash)
      × (s.active ≡ true)
      × (s.confirmed ≡ false)
unfolding confirm_verdict
confirm_verdict-IsRunning hash slots e =
    let (s, found, hashed, active, fresh) = judge-confirm hash slots (find_running slots none) e in
    (s, only_found s (find_running_lem slots none s found), hashed, active, fresh)
  where
    only_found :
        (s : ImageSlot)
        → IsRunning s slots ⊎ ((none ≡ some s) × All (λ t. t.slot ≢ 0) slots)
        → IsRunning s slots
    only_found s (inl r) = r
    only_found s (inr (nothing, rest)) = absurd (cc nothing)
