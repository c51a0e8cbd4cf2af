-- ===== src/Slave/Resync.antt =====
-- How src/flexit_slave.c finds a frame in the byte stream: at once, behind noise, and however the
-- stream is cut into feeds.
use flexit_cs60_control.Shared.{
  ℕ, zero, suc, ◌+◌, ◌≤◌, ◌<◌, ◌≡◌, refl, ap, ◌∙◌, inl, inr, Bool, true, false, ◌&&◌, Option, none,
  some, List, [], ◌∷◌, ◌++◌, arith, length, drop, drop_all, if◌then◌else◌, be16, put_be16,
  length-append, Bool-cases,
}
use flexit_cs60_control.Platform.{Platform}
use flexit_cs60_control.Accum.{Accum, contents}
use flexit_cs60_control.Accum.Buffer.{IsValid}
use flexit_cs60_control.Accum.Loop.{view, settle, run, settle_step}
use flexit_cs60_control.Accum.Chunks.{feed-settle, feed-append}
use flexit_cs60_control.Slave.Respond.{stamp}
use flexit_cs60_control.Slave.Responses.{crc_ok-stamp}
use flexit_cs60_control.Slave.Handle.{World, Send}
use flexit_cs60_control.Slave.Decode.{
  accum_size, fc_req_len, crc_ok, match_frame, try_decode_at_front, slave_feed, bump_crc_failure,
}
use flexit_cs60_control.Slave.Matcher.{
  Request, read_coils, read_holding, read_input, ack, opens, opened, anchored, handler, respond,
  decode_kind, matcher-IsDecoder,
}

-- A request frame as the master sends it: two bytes that name it, two words and the checksum.
unfoldable pub request : Platform → Request → ℕ → ℕ → List ℕ
request p k x y = stamp p ((opens k).0 ∷ (opens k).1 ∷ put_be16 x ++ put_be16 y)

abbrev pub is_some {ℓ} : {A : Type ℓ} → Option A → Bool
is_some none = false
is_some (some a) = true

opens-anchored : (k : Request) → anchored (opens k).0 (opens k).1 ≡ some k
unfolding anchored
opens-anchored read_coils = refl
opens-anchored read_holding = refl
opens-anchored read_input = refl
opens-anchored ack = refl

module _ (p : Platform) where
  -- The bytes begin with a frame that the slave would take for its own.
  abbrev pub mistaken : List ℕ → Bool
  mistaken xs = is_some (opened xs) && crc_ok p xs fc_req_len

  -- No frame seems to begin inside the noise `g` that stands before `frame`.
  abbrev pub Clean : List ℕ → List ℕ → Type 0
  Clean [] frame = Unit
  Clean (b ∷ g) frame = (mistaken (b ∷ g ++ frame) ≡ false) × Clean g frame

  pub length-request : (k : Request) (x y : ℕ) → length (request p k x y) ≡ 8
  unfolding request stamp
  length-request k x y = refl

  request-opened : (k : Request) (x y : ℕ) → opened (request p k x y) ≡ some k
  unfolding request stamp opened
  request-opened k x y = opens-anchored k

  request-crc_ok : (k : Request) (x y : ℕ) → crc_ok p (request p k x y) fc_req_len ≡ true
  unfolding request
  request-crc_ok k x y = crc_ok-stamp p ((opens k).0 ∷ (opens k).1 ∷ put_be16 x ++ put_be16 y)

  -- The words of a request, as a handler reads them.
  pub request_words :
      (k : Request) (x y : ℕ)
      → x < 65536
      → y < 65536
      → (be16 (request p k x y) 2 ≡ x) × (be16 (request p k x y) 4 ≡ y)
  unfolding request stamp
  request_words k x y hx hy = omega arith

-- How many places of the noise open a frame whose checksum then fails.
abbrev pub false_starts : List ℕ → List ℕ → ℕ
false_starts [] frame = 0
false_starts (b ∷ g) frame =
    let n = false_starts g frame in if is_some (opened (b ∷ g ++ frame)) then suc n else n

abbrev pub crc_failures_after : ℕ → World → World
crc_failures_after zero w = w
crc_failures_after (suc n) w = crc_failures_after n (bump_crc_failure w)

module _ (p : Platform) (send : Send) where
  decode_request :
      (k : Request) (w : World) (xs : List ℕ)
      → opened xs ≡ some k
      → crc_ok p xs fc_req_len ≡ true
      → fc_req_len ≤ length xs
      → try_decode_at_front p send w xs ≡ (fc_req_len, handler p send k xs w)
  unfolding respond match_frame
  decode_request k w xs o c h = rw (decode_kind p send w xs (omega arith), o) (ground arith)

  decode_noise :
      (w : World) (xs : List ℕ)
      → mistaken p xs ≡ false
      → fc_req_len ≤ length xs
      → try_decode_at_front p send w xs
        ≡ (1, crc_failures_after (if is_some (opened xs) then 1 else 0) w)
  unfolding respond match_frame
  decode_noise w xs c h = rw (decode_kind p send w xs (omega arith)) (respond_noise (opened xs) c)
    where
      respond_noise :
          (o : Option Request)
          → (is_some o && crc_ok p xs fc_req_len) ≡ false
          → respond p send o w xs ≡ (1, crc_failures_after (if is_some o then 1 else 0) w)
      respond_noise none c = refl
      respond_noise (some k) c = ground arith

  settle-request :
      (k : Request) (x y : ℕ) (w : World)
      → settle (try_decode_at_front p send) (request p k x y) w
        ≡ ([], handler p send k (request p k x y) w)
  unfolding run
  settle-request k x y w =
      let frame = request p k x y in
      let decoded =
        decode_request k w frame (request-opened p k x y) (request-crc_ok p k x y)
          (omega (arith, length-request p k x y)) in
      settle_step (matcher-IsDecoder p send) frame w (λ e. cc (decoded, e))
      ∙ ap (λ (r : ℕ × World). settle (try_decode_at_front p send) (drop r.0 frame) r.1) decoded
      ∙ ap (λ t. settle (try_decode_at_front p send) t (handler p send k frame w))
          (drop_all fc_req_len frame (omega (arith, length-request p k x y)))

  settle_noise :
      (g : List ℕ) (k : Request) (x y : ℕ) (w : World)
      → Clean p g (request p k x y)
      → settle (try_decode_at_front p send) (g ++ request p k x y) w ≡ (
        [],
        handler p send k
            (request p k x y)
            (crc_failures_after (false_starts g (request p k x y)) w),
      )
  settle_noise [] k x y w c = settle-request k x y w
  settle_noise (b ∷ g) k x y w c =
      let frame = request p k x y in
      let xs = b ∷ g ++ frame in
      let long : fc_req_len ≤ length xs =
        omega (arith, length-append g frame, length-request p k x y) in
      let decoded = decode_noise w xs c.0 long in
      settle_step (matcher-IsDecoder p send) xs w (λ e. cc (decoded, e))
      ∙ ap (λ (r : ℕ × World). settle (try_decode_at_front p send) (drop r.0 xs) r.1) decoded
      ∙ elim (Bool-cases (is_some (opened xs))) [
        | inl e ↦ rw e (settle_noise g k x y (bump_crc_failure w) c.1)
        | inr e ↦ rw e (settle_noise g k x y w c.1)
      ]

  pub slave_feed-noise :
      (a : Accum) (w : World) (g src : List ℕ) (k : Request) (x y : ℕ)
      → IsValid accum_size a
      → contents a ++ src ≡ g ++ request p k x y
      → 0 < length src
      → length g + 8 ≤ accum_size
      → Clean p g (request p k x y)
      → view (try_decode_at_front p send) (slave_feed p send a w src) ≡ (
        [],
        handler p send k
            (request p k x y)
            (crc_failures_after (false_starts g (request p k x y)) w),
      )
  unfolding slave_feed
  slave_feed-noise a w g [] k x y v e some_src fits c = absurd (omega arith)
  slave_feed-noise a w g (b ∷ src) k x y v e some_src fits c =
      feed-settle (matcher-IsDecoder p send) v w b src (
        omega (
          arith,
          ap length e,
          length-append (contents a) (b ∷ src),
          length-append g (request p k x y),
          length-request p k x y,
        ))
      ∙ ap (λ t. settle (try_decode_at_front p send) t w) e
      ∙ settle_noise g k x y w c

  -- It does not matter how the stream is cut into feeds, as long as it fits the accumulator.
  pub slave_feed-append :
      (a : Accum) (w : World) (xs ys : List ℕ)
      → IsValid accum_size a
      → length (contents a) + length xs + length ys ≤ accum_size
      → (let (a', w') = slave_feed p send a w xs in
          view (try_decode_at_front p send) (slave_feed p send a' w' ys))
        ≡ view (try_decode_at_front p send) (slave_feed p send a w (xs ++ ys))
  unfolding slave_feed
  slave_feed-append a w xs ys v h = feed-append (matcher-IsDecoder p send) w xs ys v h
