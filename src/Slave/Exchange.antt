-- ===== src/Slave/Exchange.antt =====
-- One request frame of the master that src/flexit_slave.c receives between frames.
use flexit_cs60_control.Shared.{ℕ, ◌≡◌, ap, List, [], arith, Below}
use flexit_cs60_control.Platform.{Platform}
use flexit_cs60_control.Accum.{Accum, contents}
use flexit_cs60_control.Accum.Buffer
use flexit_cs60_control.Accum.Chunks.{feed-IsValid}
use flexit_cs60_control.Accum.Loop.{view}
use flexit_cs60_control.Slave.{IsValid}
use flexit_cs60_control.Slave.Respond.{stamp}
use flexit_cs60_control.Slave.Handle.{World, Send}
use flexit_cs60_control.Slave.Decode.{accum_size, try_decode_at_front, slave_feed}
use flexit_cs60_control.Slave.Matcher.{
  Request, read_coils, read_holding, read_input, ack, handler, matcher-IsDecoder,
}
use flexit_cs60_control.Slave.Resync.{request, slave_feed-noise}
use flexit_cs60_control.Slave.Invariant.{slave_feed-IsValid}

request-Below : (p : Platform) (k : Request) (x y : ℕ) → Below 256 (request p k x y)
unfolding request stamp
request-Below p read_coils x y = omega arith
request-Below p read_holding x y = omega arith
request-Below p read_input x y = omega arith
request-Below p ack x y = omega arith

module _ (p : Platform) (send : Send) where
  -- The slave between frames: nothing is left in its accumulator.
  pub record IsIdle (r : Accum × World) : Type 0 where
    pub buffer : Buffer.IsValid accum_size r.0
    pub empty : contents r.0 ≡ []
    pub tables : IsValid r.1.state

  -- One request frame arrives, alone.
  abbrev pub exchange : Accum × World → Request → ℕ → ℕ → Accum × World
  exchange r k x y = slave_feed p send r.0 r.1 (request p k x y)

  -- The slave handles a request that arrives between frames, and is between frames again.
  pub exchange_lem :
      (r : Accum × World) (k : Request) (x y : ℕ)
      → Buffer.IsValid accum_size r.0
      → contents r.0 ≡ []
      → Buffer.IsValid accum_size (exchange r k x y).0
        × (contents (exchange r k x y).0 ≡ [])
        × ((exchange r k x y).1 ≡ handler p send k (request p k x y) r.1)
  exchange_lem r k x y v e =
      (valid, ap (λ (t : List ℕ × World). t.0) served, ap (λ (t : List ℕ × World). t.1) served)
    where
      served :
          view (try_decode_at_front p send) (exchange r k x y)
          ≡ ([], handler p send k (request p k x y) r.1)
      served =
          slave_feed-noise p send r.0 r.1 [] (request p k x y) k x y v (rw e)
            (unfold request stamp in omega arith) (omega arith) tt

      valid : Buffer.IsValid accum_size (exchange r k x y).0
      valid = unfold slave_feed in feed-IsValid (matcher-IsDecoder p send) v r.1 (request p k x y)

  pub exchange-IsIdle :
      (r : Accum × World) (k : Request) (x y : ℕ) → IsIdle r → IsIdle (exchange r k x y)
  exchange-IsIdle r k x y h =
      let (buffer, empty, served) = exchange_lem r k x y h.buffer h.empty in
      record {
        buffer = buffer;
        empty = empty;
        tables =
            slave_feed-IsValid p send r.0 r.1 (request p k x y) h.buffer (rw h.empty tt)
              (request-Below p k x y) h.tables;
      }
