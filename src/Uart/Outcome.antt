-- ===== src/Uart/Outcome.antt =====
-- src/rs485_uart.c: how `rs485_uart_send` ends, on every path.
use flexit_cs60_control.Shared.{
  ℕ, ◌≡◌, refl, ◌∙◌, inl, inr, Bool, true, false, not, Option, none, some, List, [], ◌∷◌, ◌++◌,
  arith, length, ◌==◌, if◌then◌else◌, Bool-cases,
}
use flexit_cs60_control.Uart.{
  RingBuffer, State, UartEvent, rx_rdy, rx_buf_request, rx_buf_released, rx_disabled, rx_stopped,
  tx_done, tx_aborted, uart_async_cb, sent, etimedout,
}
use flexit_cs60_control.Uart.Send.{
  Line, Action, de_high, de_low, uart_tx_abort, start_tx, forward_rs485, is_sent, callbacks,
  k_sem_take, await_tx, rs485_uart_send, last_verdict, completes, outcome, keys,
}

-- The frames that are echoed.
abbrev pub echoes : List Action → List (List ℕ)
echoes [] = []
echoes (de_high ∷ acts) = echoes acts
echoes (de_low ∷ acts) = echoes acts
echoes (uart_tx_abort ∷ acts) = echoes acts
echoes (start_tx frame ∷ acts) = echoes acts
echoes (forward_rs485 frame ∷ acts) = frame ∷ echoes acts

abbrev pub echo_of : Option (List ℕ) → List (List ℕ)
echo_of none = []
echo_of (some frame) = frame ∷ []

module _ (R : RingBuffer) where
  callbacks_verdict :
      (es : List UartEvent) (s : State R.Ring)
      → (callbacks R es s).tx_result ≡ last_verdict s.tx_result es
  unfolding uart_async_cb
  callbacks_verdict [] s = refl
  callbacks_verdict (rx_rdy src ∷ es) s = callbacks_verdict es (uart_async_cb R (rx_rdy src) s)
  callbacks_verdict (rx_buf_request ∷ es) s =
      callbacks_verdict es (uart_async_cb R rx_buf_request s)
  callbacks_verdict (rx_buf_released ∷ es) s = callbacks_verdict es s
  callbacks_verdict (rx_disabled ∷ es) s = callbacks_verdict es (uart_async_cb R rx_disabled s)
  callbacks_verdict (rx_stopped ∷ es) s = callbacks_verdict es (uart_async_cb R rx_stopped s)
  callbacks_verdict (tx_done ∷ es) s = callbacks_verdict es (uart_async_cb R tx_done s)
  callbacks_verdict (tx_aborted ∷ es) s = callbacks_verdict es (uart_async_cb R tx_aborted s)

  -- How the wait for the semaphore ends, with the result once the events in `more` are over.
  abbrev Waits : List UartEvent → List UartEvent → State R.Ring → Bool → Type 0
  Waits es more s done =
      ((k_sem_take R es s).0 ≡ done)
      × ((callbacks R ((k_sem_take R es s).1 ++ more) (k_sem_take R es s).2).tx_result
          ≡ last_verdict s.tx_result (es ++ more))

  given :
      (es more : List UartEvent) (s : State R.Ring) → s.tx_done_sem ≡ true → Waits es more s true
  unfolding k_sem_take
  given [] more s h = rw h (refl, callbacks_verdict more _)
  given (e ∷ es) more s h = rw h (refl, callbacks_verdict ((e ∷ es) ++ more) _)

  else_of : {A : Type 0} → (b : Bool) (x y : A) → b ≡ false → (if b then x else y) ≡ y
  else_of true x y h = absurd (ground (arith, h))
  else_of false x y h = refl

  -- An event that the wait takes.
  passes :
      (e : UartEvent) (es : List UartEvent) (s : State R.Ring)
      → s.tx_done_sem ≡ false
      → k_sem_take R (e ∷ es) s ≡ k_sem_take R es (uart_async_cb R e s)
  unfolding k_sem_take
  passes e es s h = else_of s.tx_done_sem _ _ h

  passed :
      (e : UartEvent) (es more : List UartEvent) (s : State R.Ring) (done : Bool)
      → s.tx_done_sem ≡ false
      → last_verdict (uart_async_cb R e s).tx_result (es ++ more)
        ≡ last_verdict s.tx_result (e ∷ (es ++ more))
      → Waits es more (uart_async_cb R e s) done
      → Waits (e ∷ es) more s done
  passed e es more s done h same w = rw (passes e es s h) (w.0, w.1 ∙ same)

  no_event :
      (more : List UartEvent) (s : State R.Ring) → s.tx_done_sem ≡ false → Waits [] more s false
  unfolding k_sem_take
  no_event more s h = rw h (refl, callbacks_verdict more _)

  waits :
      (es more : List UartEvent) (s : State R.Ring)
      → s.tx_done_sem ≡ false
      → Waits es more s (completes es)
  unfolding uart_async_cb
  waits [] more s h = no_event more s h
  waits (rx_rdy src ∷ es) more s h =
      passed (rx_rdy src) es more s (completes es) h refl
        (waits es more (uart_async_cb R (rx_rdy src) s) h)
  waits (rx_buf_request ∷ es) more s h =
      passed rx_buf_request es more s (completes es) h refl
        (waits es more (uart_async_cb R rx_buf_request s) h)
  waits (rx_buf_released ∷ es) more s h =
      passed rx_buf_released es more s (completes es) h refl
        (waits es more (uart_async_cb R rx_buf_released s) h)
  waits (rx_disabled ∷ es) more s h =
      passed rx_disabled es more s (completes es) h refl
        (waits es more (uart_async_cb R rx_disabled s) h)
  waits (rx_stopped ∷ es) more s h =
      passed rx_stopped es more s (completes es) h refl
        (waits es more (uart_async_cb R rx_stopped s) h)
  waits (tx_done ∷ es) more s h =
      passed tx_done es more s true h refl (given es more (uart_async_cb R tx_done s) refl)
  waits (tx_aborted ∷ es) more s h =
      passed tx_aborted es more s true h refl (given es more (uart_async_cb R tx_aborted s) refl)

  echo_if :
      (frame : List ℕ) (b : Bool)
      → echoes (if b then forward_rs485 frame ∷ [] else []) ≡ (if b then frame ∷ [] else [])
  echo_if frame true = refl
  echo_if frame false = refl

  await_tx-outcome :
      (frame : List ℕ) (line : Line) (s : State R.Ring)
      → s.tx_done_sem ≡ false
      → let (result, t, acts) = await_tx R frame line s in
        let r =
          if not (completes line.awaited)
          then etimedout
          else last_verdict s.tx_result (line.awaited ++ line.settling) in
        (result ≡ r) × (echoes acts ≡ (if is_sent r then frame ∷ [] else []))
  unfolding await_tx
  await_tx-outcome frame line s h =
      let (done, last) = waits line.awaited line.settling s h in
      elim (Bool-cases (completes line.awaited)) [
        | inl c ↦ rw (done, c, last) (refl, echo_if frame _)
        | inr c ↦ rw (done, c) (refl, refl)
      ]

  -- Whatever an earlier transmission left in the semaphore and in `tx_result`: the result is
  -- -EINVAL without a frame, -ENODEV without a device, the driver's error if it refuses the frame,
  -- -ETIMEDOUT if no completion comes within 100 ms, and else 0 or -ECANCELED by the last
  -- completion; the frame is echoed into the stream exactly if the result is 0.
  pub rs485_uart_send-outcome :
      (frame : Option (List ℕ)) (line : Line) (s : State R.Ring)
      → let (result, t, acts) = rs485_uart_send R frame line s in
        (result ≡ outcome frame line)
        × (echoes acts ≡ (if is_sent (outcome frame line) then echo_of frame else []))
  unfolding rs485_uart_send
  rs485_uart_send-outcome none line s = (refl, refl)
  rs485_uart_send-outcome (some frame) line s =
      let r =
        await_tx-outcome frame line (record s { tx_done_sem = false; tx_result = sent }) refl in
      elim (Bool-cases (length frame == 0)) [
        | inl e ↦ rw e (refl, refl)
        | inr e ↦ elim (Bool-cases line.ready) [
          | inl d ↦ elim (Bool-cases (line.uart_tx == 0)) [
            | inl t ↦ rw (e, d, t) r
            | inr t ↦ rw (e, d, t) (refl, refl)
          ]
          | inr d ↦ rw (e, d) (refl, refl)
        ]
      ]

  -- On every path the transceiver drives the bus while a transmission is started, has released it
  -- before the frame is echoed, and has released it at the end.
  pub rs485_uart_send-keys :
      (frame : Option (List ℕ)) (line : Line) (s : State R.Ring)
      → let (result, t, acts) = rs485_uart_send R frame line s in keys false acts ≡ true
  unfolding rs485_uart_send await_tx
  rs485_uart_send-keys none line s = refl
  rs485_uart_send-keys (some frame) line s = ground arith
