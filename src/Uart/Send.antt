-- ===== src/Uart/Send.antt =====
-- src/rs485_uart.c, `rs485_uart_send`: one frame on the half-duplex bus.
use flexit_cs60_control.Shared.{
  ℕ, Bool, true, false, not, ◌&&◌, Option, none, some, List, [], ◌∷◌, ◌++◌, length, ◌==◌,
  if◌then◌else◌,
}
use flexit_cs60_control.Uart.{
  RingBuffer, State, UartEvent, rx_rdy, rx_buf_request, rx_buf_released, rx_disabled, rx_stopped,
  tx_done, tx_aborted, uart_async_cb, TxStatus, sent, einval, enodev, etimedout, ecanceled,
  uart_error,
}

-- What the function meets: the device's readiness, what `uart_tx` returns, the events that the
-- driver raises before the semaphore's 100 ms are over, in order, and those that it raises
-- between the wake-up and the read of `tx_result`.
pub record Line : Type 0 where
  pub ready : Bool
  pub uart_tx : ℕ
  pub awaited : List UartEvent
  pub settling : List UartEvent

-- What it does: the transceiver's driver-enable pin, the calls of the UART's driver, and the frame
-- that is echoed by `ble_transport_forward_rs485`.
pub data Action : Type 0 where
  de_high de_low uart_tx_abort : Action
  start_tx forward_rs485 : List ℕ → Action

abbrev pub is_sent : TxStatus → Bool
is_sent sent = true
is_sent einval = false
is_sent enodev = false
is_sent etimedout = false
is_sent ecanceled = false
is_sent (uart_error e) = false

module _ (R : RingBuffer) where
  -- Events that the callback takes one after the other.
  abbrev pub callbacks : List UartEvent → State R.Ring → State R.Ring
  callbacks [] s = s
  callbacks (e ∷ es) s = callbacks es (uart_async_cb R e s)

  -- `k_sem_take`: events are taken until the semaphore can be, which is then taken; the first
  -- part of the result says whether it was, and the second which events are yet to come.
  unfoldable pub k_sem_take : List UartEvent → State R.Ring → Bool × List UartEvent × State R.Ring
  k_sem_take [] s =
      if s.tx_done_sem then (true, [], record s { tx_done_sem = false }) else (false, [], s)
  k_sem_take (e ∷ es) s =
      let rest = k_sem_take es (uart_async_cb R e s) in
      if s.tx_done_sem then (true, e ∷ es, record s { tx_done_sem = false }) else rest

  -- From the driver's acceptance of the frame on.
  unfoldable pub await_tx : List ℕ → Line → State R.Ring → TxStatus × State R.Ring × List Action
  unfolding k_sem_take
  await_tx frame line s =
      let (taken, late, s1) = k_sem_take line.awaited s in
      let s2 = callbacks (late ++ line.settling) s1 in
      if not taken then (etimedout, s1, uart_tx_abort ∷ de_low ∷ []) else (
        s2.tx_result,
        s2,
        de_low ∷ (if is_sent s2.tx_result then forward_rs485 frame ∷ [] else []),
      )

  unfoldable pub rs485_uart_send :
      Option (List ℕ) → Line → State R.Ring → TxStatus × State R.Ring × List Action
  unfolding await_tx
  rs485_uart_send none line s = (einval, s, [])
  rs485_uart_send (some frame) line s =
      let s' = record s { tx_done_sem = false; tx_result = sent } in
      let (result, t, acts) = await_tx frame line s' in
      if length frame == 0
      then (einval, s, [])
      else if not line.ready
      then (enodev, s, [])
      else if not (line.uart_tx == 0)
      then (uart_error line.uart_tx, s', de_high ∷ start_tx frame ∷ de_low ∷ [])
      else (result, t, de_high ∷ start_tx frame ∷ acts)

-- The last completion among some events decides.
abbrev pub last_verdict : TxStatus → List UartEvent → TxStatus
last_verdict r [] = r
last_verdict r (tx_done ∷ es) = last_verdict sent es
last_verdict r (tx_aborted ∷ es) = last_verdict ecanceled es
last_verdict r (rx_rdy src ∷ es) = last_verdict r es
last_verdict r (rx_buf_request ∷ es) = last_verdict r es
last_verdict r (rx_buf_released ∷ es) = last_verdict r es
last_verdict r (rx_disabled ∷ es) = last_verdict r es
last_verdict r (rx_stopped ∷ es) = last_verdict r es

abbrev pub completes : List UartEvent → Bool
completes [] = false
completes (tx_done ∷ es) = true
completes (tx_aborted ∷ es) = true
completes (rx_rdy src ∷ es) = completes es
completes (rx_buf_request ∷ es) = completes es
completes (rx_buf_released ∷ es) = completes es
completes (rx_disabled ∷ es) = completes es
completes (rx_stopped ∷ es) = completes es

-- What the function returns, by what it meets alone.
abbrev pub outcome : Option (List ℕ) → Line → TxStatus
outcome none line = einval
outcome (some frame) line =
    if length frame == 0
    then einval
    else if not line.ready
    then enodev
    else if not (line.uart_tx == 0)
    then uart_error line.uart_tx
    else if not (completes line.awaited)
    then etimedout
    else last_verdict sent (line.awaited ++ line.settling)

-- The transceiver drives the bus while a transmission is started, and not at the end or while the
-- frame is echoed.
abbrev pub keys : Bool → List Action → Bool
keys de [] = not de
keys de (de_high ∷ acts) = keys true acts
keys de (de_low ∷ acts) = keys false acts
keys de (uart_tx_abort ∷ acts) = keys de acts
keys de (start_tx frame ∷ acts) = de && keys de acts
keys de (forward_rs485 frame ∷ acts) = not de && keys de acts
