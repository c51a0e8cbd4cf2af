-- ===== src/Uart/Drain.antt =====
-- src/rs485_uart.c, `drain_work_handler`: the ring buffer is emptied into the three readers.
use Prim.Native.Nat.{min}
use flexit_cs60_control.Shared.{
  ℕ, zero, suc, ◌≤◌, ◌<◌, ◌≡◌, refl, ap, sym, ap₂, ◌∙◌, inl, inr, Bool, true, false, List, [], ◌∷◌,
  ◌++◌, arith, length, take, drop, length-take, length-drop, joined, take-append-drop, All, ltb,
  if◌then◌else◌, Bool-cases,
}
use flexit_cs60_control.Uart.{RingBuffer, IsFifo, State, ring_buf_capacity}

-- `sizeof(tmp)`
abbrev pub tmp_size : ℕ
tmp_size = 128

-- The readers, on a state of theirs: `ble_transport_forward_rs485`, `panel_mirror_feed`,
-- `flexit_slave_feed`.
pub record Readers (S : Type 0) : Type 0 where
  pub forward_rs485 : S → List ℕ → S
  pub mirror_feed : S → List ℕ → S
  pub slave_feed : S → List ℕ → S

module _ {S : Type 0} (readers : Readers S) where
  -- The loop's body.
  unfoldable pub deliver : S → List ℕ → S
  deliver s tmp = readers.slave_feed (readers.mirror_feed (readers.forward_rs485 s tmp) tmp) tmp

  abbrev pub deliver_all : S → List (List ℕ) → S
  deliver_all s [] = s
  deliver_all s (c ∷ cs) = deliver_all (deliver s c) cs

  module _ (R : RingBuffer) where
    -- One evaluation of the loop's test, and the body if it holds.
    unfoldable pub drain_round : R.Ring → S → Bool × R.Ring × S
    drain_round r s =
        let (r', tmp) = R.ring_buf_get r tmp_size in
        if ltb 0 (length tmp) then (true, r', deliver s tmp) else (false, r', s)

    -- The loop, on fuel: a round that goes on takes a byte at least.
    unfoldable pub drain_loop : ℕ → R.Ring → S → R.Ring × S
    unfolding drain_round
    drain_loop zero r s = (r, s)
    drain_loop (suc fuel) r s =
        let (more, r', s') = drain_round r s in
        let rest = drain_loop fuel r' s' in if more then rest else (r', s')

    -- As a run of the work, which `k_work_submit` asks for.
    unfoldable pub drain_work_handler : State R.Ring → S → State R.Ring × S
    unfolding drain_loop
    drain_work_handler u s =
        let (r', s') = drain_loop (suc ring_buf_capacity) u.rs485_ring s in
        (record u { rs485_ring = r'; drain_work = false }, s')

    -- What a run hands to the readers.
    pub record Drained (r r' : R.Ring) (s s' : S) : Type 0 where
      pub chunks : List (List ℕ)
      pub handed : s' ≡ deliver_all s chunks
      pub in_order : joined chunks ≡ R.held r
      pub sized : All (λ c. (0 < length c) × (length c ≤ tmp_size)) chunks
      pub empties : R.held r' ≡ []

    pub goes_on :
        (r : R.Ring) (s : S)
        → ltb 0 (length (R.ring_buf_get r tmp_size).1) ≡ true
        → drain_round r s
          ≡ (true, (R.ring_buf_get r tmp_size).0, deliver s (R.ring_buf_get r tmp_size).1)
    unfolding drain_round
    goes_on r s h = rw h refl

    pub ends :
        (r : R.Ring) (s : S)
        → ltb 0 (length (R.ring_buf_get r tmp_size).1) ≡ false
        → drain_round r s ≡ (false, (R.ring_buf_get r tmp_size).0, s)
    unfolding drain_round
    ends r s h = rw h refl

    pub got_none : (n m : ℕ) → n ≡ min tmp_size m → ltb 0 n ≡ false → m ≡ 0
    got_none n m e h = ground (arith, e, h)

    got_some : (n : ℕ) → ltb 0 n ≡ true → 0 < n
    got_some n h = ground (arith, h)

    pub no_bytes : (xs : List ℕ) → length xs ≡ 0 → xs ≡ []
    no_bytes [] e = refl
    no_bytes (x ∷ xs) e = absurd (omega arith)

    module _ (fifo : IsFifo R) where
      drain_loop-Drained :
          (fuel : ℕ) (r : R.Ring) (s : S)
          → length (R.held r) < fuel
          → Drained r (drain_loop fuel r s).0 s (drain_loop fuel r s).1
      unfolding drain_loop
      drain_loop-Drained zero r s h = absurd (omega arith)
      drain_loop-Drained (suc fuel) r s h =
          let (r', tmp) = R.ring_buf_get r tmp_size in
          let taken : tmp ≡ take tmp_size (R.held r) = fifo.get_bytes r tmp_size in
          let left : R.held r' ≡ drop tmp_size (R.held r) = fifo.held-get r tmp_size in
          let size : length tmp ≡ min tmp_size (length (R.held r)) =
            ap length taken ∙ length-take tmp_size (R.held r) in
          elim (Bool-cases (ltb 0 (length tmp))) [
            | inl more ↦
                let positive = got_some (length tmp) more in
                let rest = drain_loop-Drained fuel r' (deliver s tmp) (
                  omega (arith, ap length left, length-drop tmp_size (R.held r), size, positive)) in
                rw (goes_on r s more) (record {
                  chunks = tmp ∷ rest.chunks;
                  handed = rest.handed;
                  in_order =
                      ap₂ (λ (x y : List ℕ). x ++ y) taken (rest.in_order ∙ left)
                      ∙ take-append-drop tmp_size (R.held r);
                  sized = ((positive, omega (arith, size)), rest.sized);
                  empties = rest.empties;
                })
            | inr done ↦
                let none_left : length (R.held r) ≡ 0 =
                  got_none (length tmp) (length (R.held r)) size done in
                rw (ends r s done) (record {
                  chunks = [];
                  handed = refl;
                  in_order = sym (no_bytes (R.held r) none_left);
                  sized = tt;
                  empties =
                      no_bytes (R.held r')
                        (omega (arith, ap length left, length-drop tmp_size (R.held r), none_left));
                })
          ]

      -- A run of the work hands over what the ring holds, in order, in chunks of 1 .. 128 bytes of
      -- which each reader gets each, and leaves the ring empty: 1024 rounds are enough.
      pub drain_work_handler-Drained :
          (u : State R.Ring) (s : S)
          → let (u', s') = drain_work_handler u s in Drained u.rs485_ring u'.rs485_ring s s'
      unfolding drain_work_handler
      drain_work_handler-Drained u s =
          drain_loop-Drained (suc ring_buf_capacity) u.rs485_ring s
            (omega (arith, fifo.held-fits u.rs485_ring))
