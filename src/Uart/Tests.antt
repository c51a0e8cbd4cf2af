-- ===== src/Uart/Tests.antt =====
-- Concrete runs of the model of src/rs485_uart.c, on a ring buffer that is a list.
use flexit_cs60_control.Shared.{
  ℕ, ◌≡◌, refl, true, false, none, some, List, [], ◌∷◌, ◌++◌, replicate,
}
use flexit_cs60_control.Uart.{
  State, rx_rdy, rx_buf_request, rx_stopped, tx_done, uart_async_cb, uart_requests, sent, ecanceled,
  rs485_uart_init,
}
use flexit_cs60_control.Uart.ListRing.{list_ring, list_ring-IsFifo}
use flexit_cs60_control.Uart.Drain.{
  Readers, Drained, drain_work_handler, drain_work_handler-Drained,
}
use flexit_cs60_control.Uart.Traffic.{
  Activity, event, round, activities, Carried, activities-Carried,
}
use flexit_cs60_control.Uart.Send.{Line, rs485_uart_send, keys}
use flexit_cs60_control.Uart.Outcome.{echoes, rs485_uart_send-outcome, rs485_uart_send-keys}
use flexit_cs60_control.Uart.Dma.{
  Dma, Receives, starts, then_turn, asks, swaps, IsDoubled, Receives-IsDoubled,
}

-- Readers that note what they get.
abbrev notes : Readers (List (List ℕ))
notes = record {
  forward_rs485 = λ s tmp. s ++ tmp ∷ [];
  mirror_feed = λ s tmp. s;
  slave_feed = λ s tmp. s;
}

abbrev silent : State (List ℕ)
silent = record {
  rs485_ring = [];
  next_buf = 1;
  dropped_bytes = 0;
  stop_events = 0;
  tx_done_sem = true;
  tx_result = ecanceled;
  drain_work = false;
}

abbrev filled : State (List ℕ)
filled = record silent { rs485_ring = replicate 130 5 }

drain_work_handler-Drained_example :
    let (u', s') = drain_work_handler notes list_ring filled [] in
    Drained notes list_ring (replicate 130 5) u'.rs485_ring [] s'
drain_work_handler-Drained_example =
    drain_work_handler-Drained notes list_ring list_ring-IsFifo filled []

abbrev burst : List Activity
burst =
    event (rx_rdy (1 ∷ 2 ∷ [])) ∷ round ∷ event rx_stopped ∷ event (rx_rdy (3 ∷ [])) ∷ round ∷ []

activities-Carried_example :
    let (u', s') = activities notes list_ring burst silent [] in
    Carried notes list_ring burst silent u' [] s'
activities-Carried_example = activities-Carried notes list_ring list_ring-IsFifo burst silent []

-- A frame whose completion comes behind received bytes.
abbrev good_line : Line
good_line = record {
  ready = true;
  uart_tx = 0;
  awaited = rx_buf_request ∷ tx_done ∷ [];
  settling = rx_stopped ∷ [];
}

rs485_uart_send-outcome_example :
    let (result, t, acts) = rs485_uart_send list_ring (some (1 ∷ 2 ∷ [])) good_line silent in
    (result ≡ sent) × (echoes acts ≡ (1 ∷ 2 ∷ []) ∷ [])
rs485_uart_send-outcome_example =
    rs485_uart_send-outcome list_ring (some (1 ∷ 2 ∷ [])) good_line silent

rs485_uart_send-keys_example :
    let (result, t, acts) = rs485_uart_send list_ring (some (1 ∷ 2 ∷ [])) good_line silent in
    keys false acts ≡ true
rs485_uart_send-keys_example = rs485_uart_send-keys list_ring (some (1 ∷ 2 ∷ [])) good_line silent

abbrev off : Dma
off = record { filling = 0; queued = none }

-- The driver asks for the next buffer and goes over to it.
abbrev two_turns :
    Receives list_ring
      (record { filling = 1; queued = none })
      (uart_async_cb list_ring rx_buf_request (rs485_uart_init list_ring true 0 0 silent).1)
unfolding rs485_uart_init uart_async_cb uart_requests
two_turns =
    then_turn (then_turn (starts off silent) (asks (record { filling = 0; queued = none }) _ refl))
      (swaps (record { filling = 0; queued = some 1 }) _ 1 refl)

Receives-IsDoubled_example :
    IsDoubled list_ring
      (record { filling = 1; queued = none })
      (uart_async_cb list_ring rx_buf_request (rs485_uart_init list_ring true 0 0 silent).1)
Receives-IsDoubled_example = Receives-IsDoubled list_ring _ _ two_turns
