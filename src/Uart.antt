-- ===== src/Uart.antt =====
-- src/rs485_uart.c: the receive path from the DMA buffers into the ring buffer, and what the
-- callback of the UART driver does. The children hold the drain worker, the transmitter and the
-- proofs. Atomic counters are 32-bit.
pub mod Drain
pub mod Traffic
pub mod Room
pub mod Send
pub mod Outcome
pub mod Dma
pub mod ListRing
mod Tests
use flexit_cs60_control.Shared.{
  ℕ, zero, suc, ◌+◌, ◌-◌, ◌%◌, ◌^◌, ◌≡◌, Bool, true, false, not, ◌≤◌, List, [], ◌∷◌, ◌++◌, length,
  take, drop, ltb, ◌==◌, if◌then◌else◌,
}

-- RX_BUF_SIZE
abbrev pub rx_buf_size : ℕ
rx_buf_size = 256

-- RING_BUF_CAPACITY
abbrev pub ring_buf_capacity : ℕ
ring_buf_capacity = 1024

-- Zephyr's ring buffer, `ring_buf_put` with the count that it returns, and `ring_buf_get` with the
-- bytes that it copies out; `held` are the bytes in it, oldest first.
pub record RingBuffer : Type 1 where
  pub Ring : Type 0
  pub ring_buf_put : Ring → List ℕ → Ring × ℕ
  pub ring_buf_get : Ring → ℕ → Ring × List ℕ
  pub held : Ring → List ℕ

-- What it documents: a put copies what there is room for and returns how much that was, a get
-- copies the oldest bytes out, as many as are asked for or as there are.
pub record IsFifo (R : RingBuffer) : Type 0 where
  pub held-fits : (r : R.Ring) → length (R.held r) ≤ ring_buf_capacity
  pub held-put :
      (r : R.Ring) (xs : List ℕ)
      → R.held (R.ring_buf_put r xs).0 ≡ R.held r ++ take (ring_buf_capacity - length (R.held r)) xs
  pub put_count :
      (r : R.Ring) (xs : List ℕ)
      → (R.ring_buf_put r xs).1 ≡ length (take (ring_buf_capacity - length (R.held r)) xs)
  pub get_bytes : (r : R.Ring) (n : ℕ) → (R.ring_buf_get r n).1 ≡ take n (R.held r)
  pub held-get : (r : R.Ring) (n : ℕ) → R.held (R.ring_buf_get r n).0 ≡ drop n (R.held r)

-- `tx_result` and what `rs485_uart_send` returns: 0, a negative errno, or what `uart_tx` returned.
pub data TxStatus : Type 0 where
  sent einval enodev etimedout ecanceled : TxStatus
  uart_error : ℕ → TxStatus

-- The static variables; `next_buf` is 0 for `rx_buf_a` and 1 for `rx_buf_b`, `tx_done_sem` whether
-- the semaphore, whose limit is 1, can be taken, `drain_work` whether it is submitted.
pub record State (Ring : Type 0) : Type 0 where
  pub rs485_ring : Ring
  pub next_buf : ℕ
  pub dropped_bytes : ℕ
  pub stop_events : ℕ
  pub tx_done_sem : Bool
  pub tx_result : TxStatus
  pub drain_work : Bool

-- The events of the driver; a UART_RX_RDY with the bytes that it points to.
pub data UartEvent : Type 0 where
  rx_rdy : List ℕ → UartEvent
  rx_buf_request rx_buf_released rx_disabled rx_stopped tx_done tx_aborted : UartEvent

-- What is asked of the driver, with the number of the buffer.
pub data UartCall : Type 0 where
  rx_buf_rsp rx_enable : ℕ → UartCall

-- `idx ^ 1`
abbrev pub other_buf : ℕ → ℕ
other_buf idx = if idx == 0 then 1 else 0

module _ (R : RingBuffer) where
  -- The state's part of `uart_async_cb`.
  unfoldable pub uart_async_cb : UartEvent → State R.Ring → State R.Ring
  uart_async_cb (rx_rdy src) s =
      let (ring, put) = R.ring_buf_put s.rs485_ring src in
      record s {
        rs485_ring = ring;
        dropped_bytes =
            if ltb put (length src)
            then (s.dropped_bytes + (length src - put)) % 2 ^ 32
            else s.dropped_bytes;
        drain_work = true;
      }
  uart_async_cb rx_buf_request s = record s { next_buf = other_buf s.next_buf }
  uart_async_cb rx_buf_released s = s
  uart_async_cb rx_disabled s = record s { next_buf = 1 }
  uart_async_cb rx_stopped s = record s { stop_events = (s.stop_events + 1) % 2 ^ 32 }
  uart_async_cb tx_done s = record s { tx_result = sent; tx_done_sem = true }
  uart_async_cb tx_aborted s = record s { tx_result = ecanceled; tx_done_sem = true }

  -- Its calls of the driver.
  unfoldable pub uart_requests : UartEvent → State R.Ring → List UartCall
  uart_requests rx_buf_request s = rx_buf_rsp (if s.next_buf == 0 then 0 else 1) ∷ []
  uart_requests rx_disabled s = rx_enable 0 ∷ []
  uart_requests (rx_rdy src) s = []
  uart_requests rx_buf_released s = []
  uart_requests rx_stopped s = []
  uart_requests tx_done s = []
  uart_requests tx_aborted s = []

  -- `rs485_uart_init`: `ready` is `device_is_ready(uart_dev)`, `cb_err` and `rx_err` are what
  -- `uart_callback_set` and `uart_rx_enable` return.
  unfoldable pub rs485_uart_init :
      Bool → ℕ → ℕ → State R.Ring → TxStatus × State R.Ring × List UartCall
  rs485_uart_init ready cb_err rx_err s =
      if not ready
      then (enodev, s, [])
      else if not (cb_err == 0)
      then (uart_error cb_err, s, [])
      else (
        if rx_err == 0 then sent else uart_error rx_err,
        record s { next_buf = 1 },
        rx_enable 0 ∷ [],
      )
