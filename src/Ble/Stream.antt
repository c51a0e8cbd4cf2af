-- ===== src/Ble/Stream.antt =====
-- src/ble_transport.c, `ble_transport_forward_rs485`: bus bytes go out in notifications.
use flexit_cs60_control.Shared.{
  ℕ, zero, suc, ◌+◌, ◌-◌, ◌≤◌, ◌<◌, ◌≡◌, refl, ap, ◌∙◌, ◌⊎◌, Bool, true, false, not, ◌||◌, ◌&&◌,
  List, [], ◌∷◌, ◌++◌, arith, length, take, drop, ltb, ◌==◌, if◌then◌else◌, All, ◌⊎◌, append_assoc,
  append-nil, joined, take-append-drop, length-take, length-drop, Bool-cases, inl, inr,
}
use flexit_cs60_control.Ble.{State, is_connected}

-- The Bluetooth host: what `bt_nus_send` returns at the n-th call for a payload, and the MTU.
pub record Host : Type 0 where
  pub nus_send : ℕ → List ℕ → ℕ
  pub gatt_mtu : ℕ

-- The notifications that the host took, newest last, and the number of calls made.
pub record Air : Type 0 where
  pub notes : List (List ℕ)
  pub calls : ℕ

-- ATT_MTU - 3, or 20 before an MTU is agreed.
abbrev pub chunk_max : ℕ → ℕ
chunk_max att_mtu = if ltb 3 att_mtu then att_mtu - 3 else 20

-- A notification fits the MTU: with the 3 bytes of its ATT header, or, before an MTU is agreed, with
-- 20 bytes.
abbrev pub FitsMtu : ℕ → List ℕ → Type 0
FitsMtu mtu c = (length c + 3 ≤ mtu) ⊎ ((mtu ≤ 3) × (length c ≤ 20))

chunk_fits : (mtu : ℕ) (c : List ℕ) → length c ≤ chunk_max mtu → FitsMtu mtu c
chunk_fits mtu c l = elim (Bool-cases (ltb 3 mtu)) [
  | inl e ↦ inl (ground (arith, e, l))
  | inr e ↦ inr (ground (arith, e, l), ground (arith, e, l))
]

module _ (h : Host) where
  -- `bt_nus_send`
  unfoldable pub notify : List ℕ → Air → Air
  notify payload a =
      if h.nus_send a.calls payload == 0
      then record { notes = a.notes ++ payload ∷ []; calls = a.calls + 1 }
      else record a { calls = a.calls + 1 }

  -- The loop on what is left of the bytes, on fuel: a round takes a byte at least.
  unfoldable pub send_chunks : ℕ → List ℕ → Air → Air
  unfolding notify
  send_chunks zero bytes a = a
  send_chunks (suc fuel) bytes a =
      let n = chunk_max h.gatt_mtu in
      let a' = notify (take n bytes) a in
      let rest = send_chunks fuel (drop n bytes) a' in
      if length bytes == 0 then a else if h.nus_send a.calls (take n bytes) == 0 then rest else a'

  unfoldable pub forward_rs485 : List ℕ → State → Air → Air
  forward_rs485 bytes s a =
      if not s.stream_active || not (is_connected s.current_conn) || length bytes == 0
      then a
      else send_chunks (length bytes) bytes a

  -- What a run of the loop adds.
  pub record Forwarded (bytes : List ℕ) (a t : Air) : Type 0 where
    pub chunks : List (List ℕ)
    pub left : List ℕ
    pub sent : t.notes ≡ a.notes ++ chunks
    pub in_order : joined chunks ++ left ≡ bytes
    pub fits : All (λ c. (0 < length c) × FitsMtu h.gatt_mtu c) chunks
    pub stopped :
        (left ≡ [])
        ⊎ ((h.nus_send (a.calls + length chunks) (take (chunk_max h.gatt_mtu) left) == 0) ≡ false)

  switched : (x y z : Bool) → (x && y) ≡ true → (not x || not y || z) ≡ z
  switched x y z e = ground (arith, e)

  ne_zero : (n : ℕ) → (n == 0) ≡ false → 0 < n
  ne_zero n e = ground arith

  no_bytes : (bytes : List ℕ) → length bytes ≡ 0 → bytes ≡ []
  no_bytes [] e = refl
  no_bytes (x ∷ xs) e = absurd (omega arith)

  nothing-Forwarded : (bytes : List ℕ) (a : Air) → length bytes ≡ 0 → Forwarded bytes a a
  nothing-Forwarded bytes a e = record {
    chunks = [];
    left = bytes;
    sent = rw append-nil refl;
    in_order = refl;
    fits = tt;
    stopped = inl (no_bytes bytes e);
  }

  later :
      (k : ℕ) (cs : List (List ℕ)) (c left : List ℕ)
      → (left ≡ [])
        ⊎ ((h.nus_send (k + 1 + length cs) (take (chunk_max h.gatt_mtu) left) == 0) ≡ false)
      → (left ≡ [])
        ⊎ ((h.nus_send (k + length (c ∷ cs)) (take (chunk_max h.gatt_mtu) left) == 0) ≡ false)
  later k cs c left (inl e) = inl e
  later k cs c left (inr e) =
      inr (ap (λ m. h.nus_send m (take (chunk_max h.gatt_mtu) left) == 0) (omega arith) ∙ e)

  send_chunks-Forwarded :
      (fuel : ℕ) (bytes : List ℕ) (a : Air)
      → length bytes ≤ fuel
      → Forwarded bytes a (send_chunks fuel bytes a)
  unfolding send_chunks notify
  send_chunks-Forwarded zero bytes a l = nothing-Forwarded bytes a (omega arith)
  send_chunks-Forwarded (suc fuel) bytes a l = elim (Bool-cases (length bytes == 0)) [
    | inl e ↦ rw e (nothing-Forwarded bytes a (ground arith))
    | inr e ↦
        let n = chunk_max h.gatt_mtu in
        elim (Bool-cases (h.nus_send a.calls (take n bytes) == 0)) [
          | inl o ↦
              let a' : Air = record { notes = a.notes ++ take n bytes ∷ []; calls = a.calls + 1 } in
              let positive : 0 < n = ground arith in
              let r =
                send_chunks-Forwarded fuel (drop n bytes) a'
                  (omega (arith, length-drop n bytes, positive, ne_zero (length bytes) e)) in
              rw (e, o)
                (record {
                  chunks = take n bytes ∷ r.chunks;
                  left = r.left;
                  sent = r.sent ∙ append_assoc a.notes (take n bytes ∷ []) r.chunks;
                  in_order =
                      append_assoc (take n bytes) (joined r.chunks) r.left
                      ∙ ap (λ t. take n bytes ++ t) r.in_order
                      ∙ take-append-drop n bytes;
                  fits = (
                    (
                      omega (arith, length-take n bytes, positive, ne_zero (length bytes) e),
                      chunk_fits h.gatt_mtu (take n bytes) (omega (arith, length-take n bytes)),
                    ),
                    r.fits,
                  );
                  stopped = later a.calls r.chunks (take n bytes) r.left r.stopped;
                })
          | inr o ↦
              rw (e, o)
                (record {
                  chunks = [];
                  left = bytes;
                  sent = rw append-nil refl;
                  in_order = refl;
                  fits = tt;
                  stopped = inr (ap (λ k. h.nus_send k (take n bytes) == 0) (omega arith) ∙ o);
                })
        ]
  ]

  -- With a client and the stream switched on, the bytes go out in order, in notifications that are
  -- not empty and that fit the MTU with the 3 bytes of their header, or 20 bytes before an MTU is
  -- agreed, until none is left or the host refuses the next one.
  pub forward_rs485-Forwarded :
      (bytes : List ℕ) (s : State) (a : Air)
      → (s.stream_active && is_connected s.current_conn) ≡ true
      → Forwarded bytes a (forward_rs485 bytes s a)
  unfolding forward_rs485
  forward_rs485-Forwarded bytes s a on = elim (Bool-cases (length bytes == 0)) [
    | inl e ↦
        rw (switched s.stream_active (is_connected s.current_conn) (length bytes == 0) on, e)
          (nothing-Forwarded bytes a (ground arith))
    | inr e ↦
        rw (switched s.stream_active (is_connected s.current_conn) (length bytes == 0) on, e)
          (send_chunks-Forwarded (length bytes) bytes a (omega arith))
  ]

  -- With no client or the stream switched off nothing is sent.
  pub forward_rs485_off :
      (bytes : List ℕ) (s : State) (a : Air)
      → (s.stream_active && is_connected s.current_conn) ≡ false
      → forward_rs485 bytes s a ≡ a
  unfolding forward_rs485
  forward_rs485_off bytes s a off = ground (arith, off)
