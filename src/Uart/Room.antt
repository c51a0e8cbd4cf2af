-- ===== src/Uart/Room.antt =====
-- src/rs485_uart.c: when nothing is lost between the driver and the readers.
use flexit_cs60_control.Shared.{
  ℕ, ◌+◌, ◌-◌, ◌%◌, ◌^◌, ◌≤◌, ◌<◌, ◌≡◌, refl, ap, ◌∙◌, inl, inr, List, [], ◌∷◌, ◌++◌, arith, length,
  joined, length-take, length-drop, length-append, ltb, if◌then◌else◌, Bool-cases,
}
use flexit_cs60_control.Shared.Sublist.{length-Sublist, Sublist_whole}
use flexit_cs60_control.Uart.{
  RingBuffer, IsFifo, State, UartEvent, rx_rdy, rx_buf_request, rx_buf_released, rx_disabled,
  rx_stopped, tx_done, tx_aborted, uart_async_cb, ring_buf_capacity,
}
use flexit_cs60_control.Uart.Drain.{Readers, deliver_all, drain_round, tmp_size, goes_on, ends}
use flexit_cs60_control.Uart.Traffic.{
  Activity, event, round, payload, received, activity, activities, kept, event-held,
  activities-Carried,
}

module _ {S : Type 0} (readers : Readers S) (R : RingBuffer) (fifo : IsFifo R) where
  same_length :
      (a d' b d : ℕ) → (a + d') % 2 ^ 32 ≡ (b + d) % 2 ^ 32 → d' ≡ d → a ≤ b → b < 2 ^ 32 → a ≡ b
  same_length a d' b d e f l h = omega (arith, e, f, l, h)

  no_drop : (d p n : ℕ) → p ≡ n → (if ltb p n then (d + (n - p)) % 2 ^ 32 else d) ≡ d
  no_drop d p n e = ground (arith, e)

  -- A payload that there is room for.
  abbrev Roomy : UartEvent → State R.Ring → Type 0
  Roomy e u = length (R.held u.rs485_ring) + length (payload e) ≤ ring_buf_capacity

  length-kept :
      (e : UartEvent) (u : State R.Ring)
      → Roomy e u
      → length (kept readers R fifo u (payload e)) ≡ length (payload e)
  length-kept e u h =
      omega (arith, h, length-take (ring_buf_capacity - length (R.held u.rs485_ring)) (payload e))

  event-length :
      (e : UartEvent) (u : State R.Ring)
      → Roomy e u
      → length (R.held (uart_async_cb R e u).rs485_ring)
        ≡ length (R.held u.rs485_ring) + length (payload e)
  event-length e u h =
      ap length (event-held readers R fifo e u)
      ∙ length-append (R.held u.rs485_ring) (kept readers R fifo u (payload e))
      ∙ ap (λ n. length (R.held u.rs485_ring) + n) (length-kept e u h)

  event-keeps :
      (e : UartEvent) (u : State R.Ring)
      → Roomy e u
      → (uart_async_cb R e u).dropped_bytes ≡ u.dropped_bytes
  unfolding uart_async_cb
  event-keeps (rx_rdy src) u h =
      no_drop u.dropped_bytes (R.ring_buf_put u.rs485_ring src).1 (length src)
        (fifo.put_count u.rs485_ring src ∙ length-kept (rx_rdy src) u h)
  event-keeps rx_buf_request u h = refl
  event-keeps rx_buf_released u h = refl
  event-keeps rx_disabled u h = refl
  event-keeps rx_stopped u h = refl
  event-keeps tx_done u h = refl
  event-keeps tx_aborted u h = refl

  drain_round_ring :
      (r : R.Ring) (s : S) → (drain_round readers R r s).1 ≡ (R.ring_buf_get r tmp_size).0
  drain_round_ring r s = elim (Bool-cases (ltb 0 (length (R.ring_buf_get r tmp_size).1))) [
    | inl more ↦ rw (goes_on readers R r s more) refl
    | inr less ↦ rw (ends readers R r s less) refl
  ]

  round-length :
      (r : R.Ring) (s : S) → length (R.held (drain_round readers R r s).1) ≤ length (R.held r)
  round-length r s = omega (
    arith,
    ap (λ t. length (R.held t)) (drain_round_ring r s),
    ap length (fifo.held-get r tmp_size),
    length-drop tmp_size (R.held r),
  )

  -- Where the bytes held and received fit the ring, none is dropped.
  pub activities_roomy :
      (acts : List Activity) (u : State R.Ring) (s : S)
      → length (R.held u.rs485_ring) + length (received acts) ≤ ring_buf_capacity
      → (activities readers R acts u s).0.dropped_bytes ≡ u.dropped_bytes
  unfolding activities activity
  activities_roomy [] u s h = refl
  activities_roomy (event e ∷ acts) u s h =
      let sizes = length-append (payload e) (received acts) in
      let roomy : Roomy e u = omega (arith, h, sizes) in
      activities_roomy acts (uart_async_cb R e u) s
        (omega (arith, h, sizes, event-length e u roomy))
      ∙ event-keeps e u roomy
  activities_roomy (round ∷ acts) u s h =
      activities_roomy acts (record u { rs485_ring = (drain_round readers R u.rs485_ring s).1 })
        (drain_round readers R u.rs485_ring s).2 (omega (arith, h, round-length u.rs485_ring s))

  -- Where the bytes held and received fit the ring, the readers get chunks that, with what the ring
  -- still holds, are all of them in their order, however the driver's events and the rounds of the
  -- worker follow each other.
  pub activities_lossless :
      (acts : List Activity) (u : State R.Ring) (s : S)
      → length (R.held u.rs485_ring) + length (received acts) ≤ ring_buf_capacity
      → let (u', s') = activities readers R acts u s in
        (chunks : List (List ℕ)) × (s' ≡ deliver_all readers s chunks)
        × (joined chunks ++ R.held u'.rs485_ring ≡ R.held u.rs485_ring ++ received acts)
  activities_lossless acts u s h =
      let c = activities-Carried readers R fifo acts u s in
      (
        c.chunks,
        c.handed,
        Sublist_whole c.in_order (
            same_length _ _ _ _ c.counted (activities_roomy acts u s h) (length-Sublist c.in_order)
              (omega (arith, h, length-append (R.held u.rs485_ring) (received acts)))),
      )
