-- ===== src/Accum/Buffer.antt =====
-- The accumulator's array operations against the list of its valid bytes.
use flexit_cs60_control.Shared.{
  ℕ, ◌+◌, ◌-◌, ◌≤◌, ◌≡◌, ap, sym, inl, inr, ◌∙◌, List, [], ◌++◌, arith, length, take, drop, ltb,
  leb, Bool-cases, length-append, length-take, length-drop, take-append, take-append_right,
  drop-append, drop-append_right, take_all, drop_all, drop-take,
}
use flexit_cs60_control.Accum.{Accum, memcpy, memmove, contents, make_room, append, consume}

-- The array has its declared size and `accum_len` stays inside it.
pub record IsValid (size : ℕ) (a : Accum) : Type 0 where
  pub full : length a.buf ≡ size
  pub fits : a.len ≤ size

pub length-contents : {size : ℕ} (a : Accum) → IsValid size a → length (contents a) ≡ a.len
length-contents a v = omega (arith, length-take a.len a.buf)

-- The last `size` elements.
abbrev pub keep_last : ℕ → List ℕ → List ℕ
keep_last size xs = drop (length xs - size) xs

length-memcpy :
    (buf : List ℕ) (off : ℕ) (src : List ℕ)
    → off + length src ≤ length buf
    → length (memcpy buf off src) ≡ length buf
unfolding memcpy
length-memcpy buf off src h = omega (
  arith,
  length-append (take off buf) (src ++ drop (off + length src) buf),
  length-append src (drop (off + length src) buf),
  length-take off buf,
  length-drop (off + length src) buf,
)

-- The bytes below the end of what was copied.
take-memcpy :
    (buf : List ℕ) (off : ℕ) (src : List ℕ)
    → off ≤ length buf
    → take (off + length src) (memcpy buf off src) ≡ take off buf ++ src
unfolding memcpy
take-memcpy buf off src h =
    let len : length (take off buf) ≡ off = omega (arith, length-take off buf) in
    take-append_right (off + length src) (take off buf) (src ++ drop (off + length src) buf)
      (omega (arith, len))
    ∙ ap (λ t. take off buf ++ t)
        (let sub : off + length src - length (take off buf) ≡ length src = omega (arith, len) in
          rw sub (
            take-append (length src) src _ (omega arith) ∙ take_all (length src) src (omega arith)))

length-memmove :
    (buf : List ℕ) (from n : ℕ) → from + n ≤ length buf → length (memmove buf from n) ≡ length buf
unfolding memmove
length-memmove buf from n h = omega (
  arith,
  length-append (take n (drop from buf)) (drop n buf),
  length-take n (drop from buf),
  length-drop from buf,
  length-drop n buf,
)

take-memmove :
    (buf : List ℕ) (from n : ℕ)
    → from + n ≤ length buf
    → take n (memmove buf from n) ≡ take n (drop from buf)
unfolding memmove
take-memmove buf from n h =
    let len : length (take n (drop from buf)) ≡ n =
      omega (arith, length-take n (drop from buf), length-drop from buf) in
    take-append n (take n (drop from buf)) (drop n buf) (omega (arith, len))
    ∙ take_all n (take n (drop from buf)) (omega (arith, len))

module _ {size : ℕ} {a : Accum} (v : IsValid size a) where
  -- Consuming keeps the array's size.
  pub consume-IsValid : (n : ℕ) → IsValid size (consume a n)
  unfolding consume
  consume-IsValid n = ground (arith, length-memmove a.buf n (a.len - n))

  -- Consuming drops the oldest bytes.
  pub contents-consume : (n : ℕ) → contents (consume a n) ≡ drop n (contents a)
  unfolding consume
  contents-consume n = elim (Bool-cases (ltb n a.len)) [
    | inl e ↦ rw (e, drop-take) (take-memmove a.buf n (a.len - n) (ground arith))
    | inr e ↦
        let none_left : a.len - n ≡ 0 = ground arith in
        rw (e, none_left) (sym_drop_all (ground (arith, length-contents a v)))
  ]
    where
      sym_drop_all : length (contents a) ≤ n → [] ≡ drop n (contents a)
      sym_drop_all h = sym (drop_all n (contents a) h)

module _ {size : ℕ} {a : Accum} (v : IsValid size a) (n : ℕ) (small : n ≤ size) where
  make_room-IsValid : IsValid size (make_room size a n)
  unfolding make_room
  make_room-IsValid =
      ground (arith, length-memmove a.buf (a.len + n - size) (a.len - (a.len + n - size)))

  make_room-fits : (make_room size a n).len + n ≤ size
  unfolding make_room
  make_room-fits = ground arith

  contents-make_room : contents (make_room size a n) ≡ drop (a.len + n - size) (contents a)
  unfolding make_room
  contents-make_room = elim (Bool-cases (ltb size (a.len + n))) [
    | inl e ↦
        rw (e, drop-take)
          (take-memmove a.buf (a.len + n - size) (a.len - (a.len + n - size)) (ground arith))
    | inr e ↦ let no_excess : a.len + n - size ≡ 0 = ground arith in rw (e, no_excess)
  ]

module _ {size : ℕ} {a : Accum} (v : IsValid size a) (src : List ℕ) where
  -- Appending keeps the array's size and the length within it.
  pub append-IsValid : IsValid size (append size a src)
  unfolding append
  append-IsValid = elim (Bool-cases (leb size (length src))) [
    | inl e ↦
        let kept : length (drop (length src - size) src) ≡ size =
          ground (arith, length-drop (length src - size) src) in
        rw e (record {
          full =
              length-memcpy a.buf 0 (drop (length src - size) src) (omega (arith, kept)) ∙ v.full;
          fits = omega arith;
        })
    | inr e ↦
        let small : length src ≤ size = ground arith in
        let room = make_room-IsValid v (length src) small in
        let fits = make_room-fits v (length src) small in
        rw e (record {
          full =
              length-memcpy (make_room size a (length src)).buf (make_room size a (length src)).len
                src (omega arith)
              ∙ room.full;
          fits = fits;
        })
  ]

  -- What the accumulator holds after an append: the last `size` bytes received.
  pub contents-append : contents (append size a src) ≡ keep_last size (contents a ++ src)
  unfolding append
  contents-append = elim (Bool-cases (leb size (length src))) [
    | inl e ↦
        let kept : length (drop (length src - size) src) ≡ size =
          ground (arith, length-drop (length src - size) src) in
        let over : length (contents a) ≤ length (contents a ++ src) - size =
          ground (arith, length-append (contents a) src) in
        let cut : length (contents a ++ src) - size - length (contents a) ≡ length src - size =
          omega (arith, length-append (contents a) src) in
        rw e (
          burst (drop (length src - size) src) kept
          ∙ sym (
              drop-append_right (length (contents a ++ src) - size) (contents a) src over
              ∙ ap (λ k. drop k src) cut))
    | inr e ↦
        let small : length src ≤ size = ground arith in
        let room = make_room-IsValid v (length src) small in
        let fits = make_room-fits v (length src) small in
        let excess : length (contents a ++ src) - size ≡ a.len + length src - size =
          omega (arith, length-append (contents a) src, length-contents a v) in
        rw e (
          take-memcpy (make_room size a (length src)).buf (make_room size a (length src)).len src
            (omega arith)
          ∙ ap (λ t. t ++ src) (contents-make_room v (length src) small)
          ∙ sym (
              drop-append (a.len + length src - size) (contents a) src
                (ground (arith, length-contents a v)))
          ∙ ap (λ k. drop k (contents a ++ src)) (sym excess))
  ]
    where
      burst : (t : List ℕ) → length t ≡ size → take size (memcpy a.buf 0 t) ≡ t
      burst t h =
          let whole : 0 + length t ≡ size = omega (arith, h) in
          rw (← whole) (take-memcpy a.buf 0 t (omega arith))
