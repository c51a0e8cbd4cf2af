-- ===== src/Uart/Dma.antt =====
-- src/rs485_uart.c: the two DMA buffers. The driver fills one buffer and may hold the next one; it
-- asks for a next one while it holds none, goes over to it when the first is full or the bus falls
-- silent, and after UART_RX_DISABLED holds none until it is enabled again.
use flexit_cs60_control.Shared.{
  ℕ, ◌<◌, ◌≡◌, refl, true, Option, none, some, List, [], ◌∷◌, arith, ◌==◌, if◌then◌else◌,
}
use flexit_cs60_control.Uart.{
  RingBuffer, State, rx_rdy, rx_buf_request, rx_buf_released, rx_disabled, rx_stopped, tx_done,
  tx_aborted, uart_async_cb, uart_requests, UartCall, rx_buf_rsp, rx_enable, other_buf,
  rs485_uart_init,
}

-- The buffer that the driver fills, and the one that it holds to go on with.
pub record Dma : Type 0 where
  pub filling : ℕ
  pub queued : Option ℕ

-- What the driver does when it is called.
abbrev pub served : List UartCall → Dma → Dma
served [] d = d
served (rx_buf_rsp i ∷ calls) d = served calls (record d { queued = some i })
served (rx_enable i ∷ calls) d = served calls (record { filling = i; queued = none })

module _ (R : RingBuffer) where
  pub data Turn : Dma → State R.Ring → Dma → State R.Ring → Type 0 where
    asks :
        (d : Dma) (s : State R.Ring)
        → d.queued ≡ none
        → Turn d s (served (uart_requests R rx_buf_request s) d) (uart_async_cb R rx_buf_request s)
    swaps :
        (d : Dma) (s : State R.Ring) (next : ℕ)
        → d.queued ≡ some next
        → Turn d s (record { filling = next; queued = none }) s
    stops :
        (d : Dma) (s : State R.Ring)
        → Turn d s (served (uart_requests R rx_disabled s) d) (uart_async_cb R rx_disabled s)
    delivers :
        (d : Dma) (s : State R.Ring) (src : List ℕ) → Turn d s d (uart_async_cb R (rx_rdy src) s)
    releases : (d : Dma) (s : State R.Ring) → Turn d s d (uart_async_cb R rx_buf_released s)
    errs : (d : Dma) (s : State R.Ring) → Turn d s d (uart_async_cb R rx_stopped s)
    sends : (d : Dma) (s : State R.Ring) → Turn d s d (uart_async_cb R tx_done s)
    aborts : (d : Dma) (s : State R.Ring) → Turn d s d (uart_async_cb R tx_aborted s)

  -- From an initialisation that succeeds on.
  pub data Receives : Dma → State R.Ring → Type 0 where
    starts :
        (d : Dma) (s : State R.Ring)
        → Receives (served (rs485_uart_init R true 0 0 s).2 d) (rs485_uart_init R true 0 0 s).1
    then_turn :
        {d : Dma} {s : State R.Ring} {d' : Dma} {s' : State R.Ring}
        → Receives d s
        → Turn d s d' s'
        → Receives d' s'

  -- Whose turn it is: `next_buf` names the buffer that the driver does not have, or, when it has
  -- both, the one that it fills.
  abbrev pub Alternates : Option ℕ → ℕ → ℕ → Type 0
  Alternates none filling next = next ≡ other_buf filling
  Alternates (some j) filling next = (j ≡ other_buf filling) × (next ≡ filling)

  pub record IsDoubled (d : Dma) (s : State R.Ring) : Type 0 where
    pub two : d.filling < 2
    pub turns : Alternates d.queued d.filling s.next_buf

  asks-Alternates :
      (q : Option ℕ) (f n : ℕ)
      → f < 2
      → q ≡ none
      → Alternates q f n
      → ((if n == 0 then 0 else 1) ≡ other_buf f) × (other_buf n ≡ f)
  asks-Alternates none f n two e a = (ground arith, ground arith)
  asks-Alternates (some j) f n two e a = absurd (ground (arith, e))

  swaps-Alternates :
      (q : Option ℕ) (f n j : ℕ)
      → f < 2
      → q ≡ some j
      → Alternates q f n
      → (j < 2) × (n ≡ other_buf j)
  swaps-Alternates none f n j two e a = absurd (ground (arith, e))
  swaps-Alternates (some k) f n j two e a = (ground (arith, e), ground (arith, e))

  Turn-IsDoubled :
      {d : Dma} {s : State R.Ring} {d' : Dma} {s' : State R.Ring}
      → Turn d s d' s'
      → IsDoubled d s
      → IsDoubled d' s'
  unfolding uart_async_cb uart_requests
  Turn-IsDoubled (asks d s e) i = record {
    two = i.two;
    turns = asks-Alternates d.queued d.filling s.next_buf i.two e i.turns;
  }
  Turn-IsDoubled (swaps d s next e) i =
      let r = swaps-Alternates d.queued d.filling s.next_buf next i.two e i.turns in
      record { two = r.0; turns = r.1 }
  Turn-IsDoubled (stops d s) i = record { two = omega arith; turns = refl }
  Turn-IsDoubled (delivers d s src) i = record { two = i.two; turns = i.turns }
  Turn-IsDoubled (releases d s) i = i
  Turn-IsDoubled (errs d s) i = record { two = i.two; turns = i.turns }
  Turn-IsDoubled (sends d s) i = record { two = i.two; turns = i.turns }
  Turn-IsDoubled (aborts d s) i = record { two = i.two; turns = i.turns }

  -- From an initialisation that succeeds on, in any order of the driver's events: the buffer that
  -- the driver is given next is the other one of the two than the one that it fills.
  pub Receives-IsDoubled : (d : Dma) (s : State R.Ring) → Receives d s → IsDoubled d s
  unfolding rs485_uart_init
  Receives-IsDoubled _ _ (starts d s) = record { two = omega arith; turns = refl }
  Receives-IsDoubled _ _ (then_turn r t) = Turn-IsDoubled t (Receives-IsDoubled _ _ r)
