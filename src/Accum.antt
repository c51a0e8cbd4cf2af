-- ===== src/Accum.antt =====
-- The byte accumulator of src/flexit_slave.c and src/panel_mirror.c: `accum`, `accum_len`, and the
-- body of `flexit_slave_feed` and `panel_mirror_feed`, which are the same text but for ACCUM_SIZE.
-- The array keeps its fixed size; `memcpy` and `memmove` are written out on it. A decoder sees the
-- valid bytes, `accum[0 .. accum_len)`, and says how many of them it consumed; 0 asks for more.
pub mod Buffer
pub mod Loop
pub mod Chunks
pub mod Keeps
pub mod Feeds
use flexit_cs60_control.Shared.{
  ℕ, zero, suc, ◌+◌, ◌-◌, List, [], ◌∷◌, ◌++◌, length, take, drop, ltb, leb, ◌==◌, if◌then◌else◌,
}

pub record Accum : Type 0 where
  pub buf : List ℕ
  pub len : ℕ

-- `memcpy(buf + off, src, length src)`
unfoldable pub memcpy : List ℕ → ℕ → List ℕ → List ℕ
memcpy buf off src = take off buf ++ (src ++ drop (off + length src) buf)

-- `memmove(buf, buf + from, n)`
unfoldable pub memmove : List ℕ → ℕ → ℕ → List ℕ
memmove buf from n = take n (drop from buf) ++ drop n buf

-- The bytes that the program has received and not consumed.
abbrev pub contents : Accum → List ℕ
contents a = take a.len a.buf

-- The oldest bytes make room for `n` more.
unfoldable pub make_room : ℕ → Accum → ℕ → Accum
unfolding memmove
make_room size a n =
    let excess = a.len + n - size in
    if ltb size (a.len + n)
    then record { buf = memmove a.buf excess (a.len - excess); len = a.len - excess }
    else a

-- The first half of `..._feed`: a burst of at least `size` bytes keeps its tail only.
unfoldable pub append : ℕ → Accum → List ℕ → Accum
unfolding memcpy make_room
append size a src =
    let n = length src in
    let roomy = make_room size a n in
    if leb size n
    then record { buf = memcpy a.buf 0 (drop (n - size) src); len = size }
    else record { buf = memcpy roomy.buf roomy.len src; len = roomy.len + n }

-- The end of the loop's body. `accum_len -= consumed` does not wrap: a decoder consumes at most
-- what there is.
unfoldable pub consume : Accum → ℕ → Accum
unfolding memmove
consume a n = record {
  buf = if ltb n a.len then memmove a.buf n (a.len - n) else a.buf;
  len = a.len - n;
}

module _ {S : Type 0} (decode : S → List ℕ → ℕ × S) where
  -- `while (accum_len > 0)`, on fuel: each round consumes a byte or ends the loop.
  unfoldable pub drain : ℕ → Accum → S → Accum × S
  drain zero a s = (a, s)
  drain (suc fuel) a s =
      let r = decode s (contents a) in
      let rest = drain fuel (consume a r.0) r.1 in
      if a.len == 0 then (a, s) else if r.0 == 0 then (a, r.1) else rest

  -- The whole of `..._feed`.
  unfoldable pub feed : ℕ → Accum → S → List ℕ → Accum × S
  unfolding drain append consume
  feed size a s [] = (a, s)
  feed size a s (x ∷ xs) = let a' = append size a (x ∷ xs) in drain a'.len a' s
