-- ===== src/Uart/ListRing.antt =====
-- A concrete ring buffer for the tests: a list.
use flexit_cs60_control.Shared.{
  ℕ, ◌-◌, refl, List, ◌++◌, arith, length, take, drop, length-take, length-append, length-drop,
  take_all,
}
use flexit_cs60_control.Uart.{RingBuffer, IsFifo, ring_buf_capacity}

-- What is behind the capacity of the list is not in the ring.
abbrev pub contents_of : List ℕ → List ℕ
contents_of r = take ring_buf_capacity r

abbrev pub taken : List ℕ → List ℕ → List ℕ
taken r xs = take (ring_buf_capacity - length (contents_of r)) xs

abbrev pub list_ring : RingBuffer
list_ring = record {
  Ring = List ℕ;
  ring_buf_put = λ r xs. (contents_of r ++ taken r xs, length (taken r xs));
  ring_buf_get = λ r n. (drop n (contents_of r), take n (contents_of r));
  held = contents_of;
}

pub list_ring-IsFifo : IsFifo list_ring
list_ring-IsFifo = record {
  held-fits = λ r. omega (arith, length-take ring_buf_capacity r);
  held-put = λ r xs. take_all ring_buf_capacity (contents_of r ++ taken r xs) (
      omega (
        arith,
        length-append (contents_of r) (taken r xs),
        length-take ring_buf_capacity r,
        length-take (ring_buf_capacity - length (contents_of r)) xs,
      ));
  put_count = λ r xs. refl;
  get_bytes = λ r n. refl;
  held-get = λ r n.
      take_all ring_buf_capacity (drop n (contents_of r))
        (omega (arith, length-drop n (contents_of r), length-take ring_buf_capacity r));
}
