-- ===== src/Uart/Traffic.antt =====
-- src/rs485_uart.c: what reaches the readers, whichever way the driver's events and the rounds of
-- the drain worker follow each other.
use flexit_cs60_control.Shared.{
  ℕ, zero, suc, ◌+◌, ◌-◌, ◌%◌, ◌^◌, ◌≤◌, ◌≡◌, refl, ap, ap₂, sym, subst, ◌∙◌, inl, inr, false, List,
  [], ◌∷◌, ◌++◌, arith, length, take, drop, length-take, length-append, joined, take-append-drop,
  ltb, if◌then◌else◌, Bool-cases, append_assoc, append-nil,
}
use flexit_cs60_control.Shared.Sublist.{
  Sublist, Sublist_refl, Sublist_trans, Sublist-prefix, Sublist-lost,
}
use flexit_cs60_control.Uart.{
  RingBuffer, IsFifo, State, UartEvent, rx_rdy, rx_buf_request, rx_buf_released, rx_disabled,
  rx_stopped, tx_done, tx_aborted, uart_async_cb, ring_buf_capacity,
}
use flexit_cs60_control.Uart.Drain.{
  Readers, deliver, deliver_all, drain_round, tmp_size, goes_on, ends,
}

-- An event of the driver, or one round of `drain_work_handler`, which events can interrupt.
pub data Activity : Type 0 where
  event : UartEvent → Activity
  round : Activity

abbrev pub payload : UartEvent → List ℕ
payload (rx_rdy src) = src
payload rx_buf_request = []
payload rx_buf_released = []
payload rx_disabled = []
payload rx_stopped = []
payload tx_done = []
payload tx_aborted = []

-- The bytes that the driver delivers.
abbrev pub received : List Activity → List ℕ
received [] = []
received (event e ∷ acts) = payload e ++ received acts
received (round ∷ acts) = received acts

-- What a ring of 1024 bytes takes in that holds `held`: of each payload as much as there is room for, where a round
-- makes room by up to 128 bytes.
abbrev pub admitted : List Activity → List ℕ → List ℕ
admitted [] held = []
admitted (event e ∷ acts) held =
    let k = take (1024 - length held) (payload e) in k ++ admitted acts (held ++ k)
admitted (round ∷ acts) held = admitted acts (drop 128 held)

module _ {S : Type 0} (readers : Readers S) (R : RingBuffer) where
  unfoldable pub activity : Activity → State R.Ring → S → State R.Ring × S
  activity (event e) u s = (uart_async_cb R e u, s)
  activity round u s =
      let (more, r', s') = drain_round readers R u.rs485_ring s in
      (record u { rs485_ring = r' }, s')

  unfoldable pub activities : List Activity → State R.Ring → S → State R.Ring × S
  unfolding activity
  activities [] u s = (u, s)
  activities (a ∷ acts) u s = let (u', s') = activity a u s in activities acts u' s'

  -- What a run carries: the readers get chunks, which with what is still held are the bytes that the
  -- ring took in, in order. They are the bytes received, less some; `dropped_bytes` counts those, as
  -- a uint32_t does.
  pub record Carried (acts : List Activity) (u u' : State R.Ring) (s s' : S) : Type 0 where
    pub chunks : List (List ℕ)
    pub handed : s' ≡ deliver_all readers s chunks
    pub taken_in :
        joined chunks ++ R.held u'.rs485_ring
        ≡ R.held u.rs485_ring ++ admitted acts (R.held u.rs485_ring)
    pub in_order :
        Sublist (joined chunks ++ R.held u'.rs485_ring) (R.held u.rs485_ring ++ received acts)
    pub counted :
        (length (joined chunks ++ R.held u'.rs485_ring) + u'.dropped_bytes) % 2 ^ 32
        ≡ (length (R.held u.rs485_ring ++ received acts) + u.dropped_bytes) % 2 ^ 32

  module _ (fifo : IsFifo R) where
    -- What the ring takes of a payload.
    abbrev pub kept : State R.Ring → List ℕ → List ℕ
    kept u src = take (ring_buf_capacity - length (R.held u.rs485_ring)) src

    no_payload : (k : ℕ) (xs : List ℕ) → xs ≡ xs ++ take k []
    no_payload zero xs = sym (append-nil xs)
    no_payload (suc k) xs = sym (append-nil xs)

    pub event-held :
        (e : UartEvent) (u : State R.Ring)
        → R.held (uart_async_cb R e u).rs485_ring ≡ R.held u.rs485_ring ++ kept u (payload e)
    unfolding uart_async_cb
    event-held (rx_rdy src) u = fifo.held-put u.rs485_ring src
    event-held rx_buf_request u = no_payload _ _
    event-held rx_buf_released u = no_payload _ _
    event-held rx_disabled u = no_payload _ _
    event-held rx_stopped u = no_payload _ _
    event-held tx_done u = no_payload _ _
    event-held tx_aborted u = no_payload _ _

    counts_lost :
        (d k n p : ℕ)
        → p ≡ k
        → k ≤ n
        → ((if ltb p n then (d + (n - p)) % 2 ^ 32 else d) + k) % 2 ^ 32 ≡ (d + n) % 2 ^ 32
    counts_lost d k n p e l = elim (Bool-cases (ltb p n)) [
      | inl h ↦ rw h (omega (arith, e, l))
      | inr h ↦ rw h (ap (λ t. (d + t) % 2 ^ 32) (ground (arith, e, l, h)))
    ]

    nothing_lost : (d k : ℕ) → (d + length (take {A = ℕ} k [])) % 2 ^ 32 ≡ (d + 0) % 2 ^ 32
    nothing_lost d zero = refl
    nothing_lost d (suc k) = refl

    event-dropped :
        (e : UartEvent) (u : State R.Ring)
        → ((uart_async_cb R e u).dropped_bytes + length (kept u (payload e))) % 2 ^ 32
          ≡ (u.dropped_bytes + length (payload e)) % 2 ^ 32
    unfolding uart_async_cb
    event-dropped (rx_rdy src) u =
        counts_lost u.dropped_bytes (length (kept u src)) (length src)
          (R.ring_buf_put u.rs485_ring src).1 (fifo.put_count u.rs485_ring src)
          (omega (arith, length-take (ring_buf_capacity - length (R.held u.rs485_ring)) src))
    event-dropped rx_buf_request u = nothing_lost _ _
    event-dropped rx_buf_released u = nothing_lost _ _
    event-dropped rx_disabled u = nothing_lost _ _
    event-dropped rx_stopped u = nothing_lost _ _
    event-dropped tx_done u = nothing_lost _ _
    event-dropped tx_aborted u = nothing_lost _ _

    -- A payload that is kept in part, in front of what comes later.
    counts_on :
        (a d1 k d p h more : ℕ)
        → (d1 + k) % 2 ^ 32 ≡ (d + p) % 2 ^ 32
        → a % 2 ^ 32 ≡ (h + k + more + d1) % 2 ^ 32
        → a % 2 ^ 32 ≡ (h + (p + more) + d) % 2 ^ 32
    counts_on a d1 k d p h more e f = omega (arith, e, f)

    length_left :
        (xs ys zs : List ℕ) → length ((xs ++ ys) ++ zs) ≡ length xs + length ys + length zs
    length_left xs ys zs = omega (arith, length-append (xs ++ ys) zs, length-append xs ys)

    length_right :
        (xs ys zs : List ℕ) → length (xs ++ (ys ++ zs)) ≡ length xs + (length ys + length zs)
    length_right xs ys zs = omega (arith, length-append xs (ys ++ zs), length-append ys zs)

    event-Carried :
        (e : UartEvent) (acts : List Activity) (u u' : State R.Ring) (s s' : S)
        → Carried acts (uart_async_cb R e u) u' s s'
        → Carried (event e ∷ acts) u u' s s'
    event-Carried e acts u u' s s' c =
        let k = kept u (payload e) in
        let held = R.held u.rs485_ring in
        record {
          chunks = c.chunks;
          handed = c.handed;
          taken_in =
              c.taken_in
              ∙ ap (λ t. t ++ admitted acts t) (event-held e u)
              ∙ append_assoc held k (admitted acts (held ++ k));
          in_order = Sublist_trans c.in_order (
              subst (λ t. Sublist (t ++ received acts) (held ++ (payload e ++ received acts)))
                (sym (event-held e u))
                (Sublist-lost (ring_buf_capacity - length held) held (payload e) (received acts)));
          counted =
              counts_on _ (uart_async_cb R e u).dropped_bytes (length k) u.dropped_bytes
                (length (payload e)) (length held) (length (received acts)) (event-dropped e u)
                (c.counted
                  ∙ ap (λ n. (n + (uart_async_cb R e u).dropped_bytes) % 2 ^ 32)
                      (ap (λ t. length (t ++ received acts)) (event-held e u)
                        ∙ length_left held k (received acts)))
              ∙ ap (λ n. (n + u.dropped_bytes) % 2 ^ 32)
                  (sym (length_right held (payload e) (received acts)));
        }

    adds_front :
        (t a d' b d : ℕ)
        → (a + d') % 2 ^ 32 ≡ (b + d) % 2 ^ 32
        → (t + a + d') % 2 ^ 32 ≡ (t + b + d) % 2 ^ 32
    adds_front t a d' b d e = omega (arith, e)

    -- A chunk that is delivered leaves the ring at its front.
    chunk-Carried :
        (acts : List Activity) (u u' : State R.Ring) (r' : R.Ring) (tmp : List ℕ) (s s' : S)
        → tmp ++ R.held r' ≡ R.held u.rs485_ring
        → R.held r' ≡ drop tmp_size (R.held u.rs485_ring)
        → Carried acts (record u { rs485_ring = r' }) u' (deliver readers s tmp) s'
        → Carried (round ∷ acts) u u' s s'
    chunk-Carried acts u u' r' tmp s s' split rest c =
        let out = R.held u'.rs485_ring in
        let left : (tmp ++ joined c.chunks) ++ out ≡ tmp ++ (joined c.chunks ++ out) =
          append_assoc tmp (joined c.chunks) out in
        let right : R.held u.rs485_ring ++ received acts ≡ tmp ++ (R.held r' ++ received acts) =
          ap (λ t. t ++ received acts) (sym split) ∙ append_assoc tmp (R.held r') (received acts) in
        record {
          chunks = tmp ∷ c.chunks;
          handed = c.handed;
          taken_in =
              left
              ∙ ap (λ t. tmp ++ t) c.taken_in
              ∙ sym (append_assoc tmp (R.held r') (admitted acts (R.held r')))
              ∙ ap (λ t. t ++ admitted acts (R.held r')) split
              ∙ ap (λ t. R.held u.rs485_ring ++ admitted acts t) rest;
          in_order = rw (left, right) (Sublist-prefix tmp c.in_order);
          counted =
              rw
                (
                  left,
                  right,
                  length-append tmp (joined c.chunks ++ out),
                  length-append tmp (R.held r' ++ received acts),
                )
                (adds_front (length tmp) _ u'.dropped_bytes _ u.dropped_bytes c.counted);
        }

    no_chunk :
        (tmp left held : List ℕ) → ltb 0 (length tmp) ≡ false → tmp ++ left ≡ held → left ≡ held
    no_chunk [] left held h e = e
    no_chunk (x ∷ tmp) left held h e = absurd (ground (arith, h))

    same_held :
        (acts : List Activity) (u u' : State R.Ring) (r' : R.Ring) (s s' : S)
        → R.held r' ≡ R.held u.rs485_ring
        → R.held r' ≡ drop tmp_size (R.held u.rs485_ring)
        → Carried acts (record u { rs485_ring = r' }) u' s s'
        → Carried (round ∷ acts) u u' s s'
    same_held acts u u' r' s s' e rest c = record {
      chunks = c.chunks;
      handed = c.handed;
      taken_in =
          c.taken_in
          ∙ ap (λ t. t ++ admitted acts (R.held r')) e
          ∙ ap (λ t. R.held u.rs485_ring ++ admitted acts t) rest;
      in_order = rw (sym e) c.in_order;
      counted = rw (sym e) c.counted;
    }

    round-Carried :
        (acts : List Activity) (u u' : State R.Ring) (s s' : S)
        → (let (v, t) = activity round u s in Carried acts v u' t s')
        → Carried (round ∷ acts) u u' s s'
    unfolding activity
    round-Carried acts u u' s s' =
        let (r', tmp) = R.ring_buf_get u.rs485_ring tmp_size in
        let held = R.held u.rs485_ring in
        let split : tmp ++ R.held r' ≡ held =
          ap₂ (λ (x y : List ℕ). x ++ y) (fifo.get_bytes u.rs485_ring tmp_size)
            (fifo.held-get u.rs485_ring tmp_size)
          ∙ take-append-drop tmp_size held in
        elim (Bool-cases (ltb 0 (length tmp))) [
          | inl more ↦
              rw (goes_on readers R u.rs485_ring s more)
                (chunk-Carried acts u u' r' tmp s s' split (fifo.held-get u.rs485_ring tmp_size))
          | inr less ↦ rw (ends readers R u.rs485_ring s less) (
              same_held acts u u' r' s s' (no_chunk tmp (R.held r') held less split)
                (fifo.held-get u.rs485_ring tmp_size))
        ]

    -- However the driver's events and the rounds of the worker follow each other: the readers get
    -- chunks that, with what the ring still holds, are in their order what it held and the bytes
    -- received, of each reception as many as the ring of 1024 bytes then had room for;
    -- `dropped_bytes` counts the others modulo 2 ^ 32.
    pub activities-Carried :
        (acts : List Activity) (u : State R.Ring) (s : S)
        → let (u', s') = activities acts u s in Carried acts u u' s s'
    unfolding activities activity
    activities-Carried [] u s = record {
      chunks = [];
      handed = refl;
      taken_in = sym (append-nil (R.held u.rs485_ring));
      in_order = rw append-nil (Sublist_refl (R.held u.rs485_ring));
      counted = rw append-nil refl;
    }
    activities-Carried (event e ∷ acts) u s =
        event-Carried e acts u _ s _ (activities-Carried acts (uart_async_cb R e u) s)
    activities-Carried (round ∷ acts) u s =
        let (v, t) = activity round u s in round-Carried acts u _ s _ (activities-Carried acts v t)
