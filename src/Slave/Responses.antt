-- ===== src/Slave/Responses.antt =====
-- What the response frames of src/flexit_slave.c carry, as the master reads them.
use flexit_cs60_control.Shared.{
  ℕ, zero, suc, ◌+◌, ◌-◌, ◌*◌, ◌/◌, ◌%◌, ◌≤◌, ◌<◌, ◌≡◌, ◌⊎◌, refl, ap, ◌∙◌, inl, inr, Bool, true,
  ◌&&◌, ◌||◌, none, some, List, ◌∷◌, ◌++◌, arith, length, get_or, replicate, ltb, leb, ==_iff, sym,
  be16, le16, put_be16, put_le16, le16-put_le16, Below, Below-get_or, Below-replicate, coil,
  set_coil, coil-set_coil, coil-replicate, length-set_coil, set_coil-Below, length-replicate,
  take-append, take_all, get_or-append_right, Bool-cases,
}
use flexit_cs60_control.Platform.{Platform}
use flexit_cs60_control.Slave.{State, IsValid, slave_addr, coil_count, reg_count}
use flexit_cs60_control.Slave.Respond.{
  pack_coils, put_regs, stamp, build_fc01_response, build_fc03_response, build_fc04_response,
  input_regs, input_reg_count, resp_buf_size,
}
use flexit_cs60_control.Slave.Decode.{crc_ok}

-- The bit that the loop puts at place `j`, in rounds `i` to `i + n - 1`.
abbrev polled : List ℕ → ℕ → ℕ → ℕ → ℕ → Bool
polled coils start i n j =
    leb i j && ltb j (i + n) && ltb (start + j) coil_count && coil coils (start + j)

pub length-pack_coils :
    (coils : List ℕ) (start n i : ℕ) (resp : List ℕ)
    → length (pack_coils coils start n i resp) ≡ length resp
unfolding pack_coils
length-pack_coils coils start zero i resp = refl
length-pack_coils coils start (suc n) i resp = ground (
  arith,
  length-pack_coils coils start n (i + 1) (set_coil resp i),
  length-pack_coils coils start n (i + 1) resp,
  length-set_coil resp i,
)

coil-pack_coils :
    (coils : List ℕ) (start n i : ℕ) (resp : List ℕ) (j : ℕ)
    → Below 256 resp
    → i + n ≤ 8 * length resp
    → start + i < 65536
    → coil (pack_coils coils start n i resp) j ≡ (polled coils start i n j || coil resp j)
unfolding pack_coils
coil-pack_coils coils start zero i resp j b fits w = ground arith
coil-pack_coils coils start (suc n) i resp j b fits w =
    let exact : (start + i) % 65536 ≡ start + i = omega arith in
    elim (Bool-cases (leb coil_count (start + i))) [
      | inl over ↦ rw (exact, over) (ground arith)
      | inr under ↦ elim (Bool-cases (coil coils (start + i))) [
        | inl up ↦
            rw (exact, under, up)
              (coil-pack_coils coils start n (i + 1) (set_coil resp i) j (set_coil-Below resp i b)
                  (omega (arith, length-set_coil resp i)) (ground arith)
                ∙ ground (arith, coil-set_coil resp i j b (omega arith)))
        | inr down ↦
            rw (exact, under, down)
              (coil-pack_coils coils start n (i + 1) resp j b (omega arith) (ground arith)
                ∙ ground arith)
      ]
    ]

pub le16-append : (xs ys : List ℕ) → le16 (xs ++ ys) (length xs) ≡ le16 ys 0
le16-append xs ys = omega (
  arith,
  ap (λ k. get_or (xs ++ ys) k 0) (zero_offset (length xs)) ∙ get_or-append_right xs ys 0 0,
  get_or-append_right xs ys 1 0,
)
  where
    zero_offset : (n : ℕ) → n ≡ n + 0
    zero_offset n = omega arith

-- Reading back what `put_be16` stored, behind or beyond it.
be16-put_be16 : (v : ℕ) (xs : List ℕ) → v < 65536 → be16 (put_be16 v ++ xs) 0 ≡ v
be16-put_be16 v xs h = omega arith

be16_beyond : (v : ℕ) (xs : List ℕ) (i : ℕ) → be16 (put_be16 v ++ xs) (i + 2) ≡ be16 xs i
be16_beyond v xs i = omega (
  arith,
  ap (λ k. get_or (put_be16 v ++ xs) k 0) (add_two i),
  ap (λ k. get_or (put_be16 v ++ xs) k 0) (add_three i),
)
  where
    add_two : (i : ℕ) → i + 2 ≡ suc (suc i)
    add_two i = omega arith

    add_three : (i : ℕ) → i + 2 + 1 ≡ suc (suc (i + 1))
    add_three i = omega arith

pub length-put_regs : (regs : List ℕ) (addr n : ℕ) → length (put_regs regs addr n) ≡ 2 * n
unfolding put_regs
length-put_regs regs addr zero = refl
length-put_regs regs addr (suc n) = omega (arith, length-put_regs regs (addr + 1) n)

-- Register `k` of a block is the table's register `addr + k`.
pub be16-put_regs :
    (regs : List ℕ) (addr n k : ℕ)
    → Below 65536 regs
    → k < n
    → be16 (put_regs regs addr n) (2 * k) ≡ get_or regs (addr + k) 0
unfolding put_regs
be16-put_regs regs addr zero k b h = absurd (omega arith)
be16-put_regs regs addr (suc n) zero b h =
    be16-put_be16 (get_or regs addr 0) (put_regs regs (addr + 1) n)
      (Below-get_or 65536 regs addr (omega arith) b)
    ∙ ap (λ i. get_or regs i 0) (omega arith)
be16-put_regs regs addr (suc n) (suc k) b h =
    ap (be16 (put_be16 (get_or regs addr 0) ++ put_regs regs (addr + 1) n)) (double k)
    ∙ be16_beyond (get_or regs addr 0) (put_regs regs (addr + 1) n) (2 * k)
    ∙ be16-put_regs regs (addr + 1) n k b (omega arith)
    ∙ ap (λ i. get_or regs i 0) (shift addr k)
  where
    double : (k : ℕ) → 2 * suc k ≡ 2 * k + 2
    double k = omega arith

    shift : (a k : ℕ) → a + 1 + k ≡ a + suc k
    shift a k = omega arith

module _ (p : Platform) where
  -- The checksum that a frame is stamped with is the one that `crc_ok` expects.
  pub crc_ok-stamp : (frame : List ℕ) → crc_ok p (stamp p frame) (length frame + 2) ≡ true
  unfolding crc_ok stamp
  crc_ok-stamp frame =
      let two : length frame + 2 - 2 ≡ length frame = omega arith in
      rw
        (
          two,
          take-append (length frame) frame (put_le16 (p.crc16 frame)) (omega arith),
          take_all (length frame) frame (omega arith),
        )
        ((==_iff _ _).1 (
          sym (
            le16-append frame (put_le16 (p.crc16 frame))
            ∙ le16-put_le16 (p.crc16 frame) (p.crc16-lt frame))))

  -- An FC01 poll of up to 472 coils is answered by a frame of one byte for eight coils, and the bit at place
  -- `j` of it is coil `start + j`, or 0 past the coil table or past the quantity.
  pub build_fc01_response_lem :
      (s : State) (start qty : ℕ)
      → 0 < qty
      → qty ≤ 472
      → start < 65536
      → (bits : List ℕ) × (build_fc01_response p s resp_buf_size start qty
          ≡ some (stamp p (slave_addr ∷ 0x01 ∷ (qty + 7) / 8 ∷ bits)))
        × (length bits ≡ (qty + 7) / 8)
        × ((j : ℕ)
            → coil bits j ≡ (ltb j qty && ltb (start + j) coil_count && coil s.coils (start + j)))
  unfolding build_fc01_response
  build_fc01_response_lem s start qty h k w = (
    pack_coils s.coils start qty 0 (replicate ((qty + 7) / 8) 0),
    ground arith,
    length-pack_coils s.coils start qty 0 (replicate ((qty + 7) / 8) 0)
        ∙ length-replicate ((qty + 7) / 8) 0,
    λ j. ground (
      arith,
      coil-pack_coils s.coils start qty 0 (replicate ((qty + 7) / 8) 0) j
          (Below-replicate 256 ((qty + 7) / 8) (omega arith))
          (omega (arith, length-replicate ((qty + 7) / 8) (zero))) (omega arith),
      coil-replicate ((qty + 7) / 8) j,
    ),
  )

  -- A poll of no coil, or of more than the response buffer has room for, stays unanswered.
  pub build_fc01_response_refused :
      (s : State) (start qty : ℕ)
      → (qty ≡ 0) ⊎ (472 < qty)
      → build_fc01_response p s resp_buf_size start qty ≡ none
  unfolding build_fc01_response
  build_fc01_response_refused s start qty h = ground arith

  -- An FC03 read inside the register table is answered by the registers asked for, in order.
  pub build_fc03_response_lem :
      (s : State) (addr qty : ℕ)
      → IsValid s
      → 0 < qty
      → qty ≤ 8
      → addr + qty ≤ reg_count
      → (words : List ℕ) × (build_fc03_response p s resp_buf_size addr qty
          ≡ some (stamp p (slave_addr ∷ 0x03 ∷ 2 * qty ∷ words)))
        × (length words ≡ 2 * qty)
        × ((k : ℕ) → k < qty → be16 words (2 * k) ≡ get_or s.regs (addr + k) 0)
  unfolding build_fc03_response
  build_fc03_response_lem s addr qty v h k w = (
    put_regs s.regs addr qty,
    ground arith,
    length-put_regs s.regs addr qty,
    λ i below. be16-put_regs s.regs addr qty i v.reg_words below,
  )

  -- Every other FC03 read stays unanswered.
  pub build_fc03_response_refused :
      (s : State) (addr qty : ℕ)
      → (qty ≡ 0) ⊎ (8 < qty) ⊎ (reg_count < addr + qty)
      → build_fc03_response p s resp_buf_size addr qty ≡ none
  unfolding build_fc03_response
  build_fc03_response_refused s addr qty h = ground arith

  -- An FC04 probe inside the four input registers is answered by the registers asked for,
  -- in order.
  pub build_fc04_response_lem :
      (addr qty : ℕ)
      → 0 < qty
      → addr + qty ≤ input_reg_count
      → (words : List ℕ) × (build_fc04_response p resp_buf_size addr qty
          ≡ some (stamp p (slave_addr ∷ 0x04 ∷ 2 * qty ∷ words)))
        × (length words ≡ 2 * qty)
        × ((k : ℕ) → k < qty → be16 words (2 * k) ≡ get_or input_regs (addr + k) 0)
  unfolding build_fc04_response
  build_fc04_response_lem addr qty h w = (
    put_regs input_regs addr qty,
    ground arith,
    length-put_regs input_regs addr qty,
    λ i below. be16-put_regs input_regs addr qty i (omega arith) below,
  )

  -- Every other FC04 probe stays unanswered.
  pub build_fc04_response_refused :
      (addr qty : ℕ)
      → (qty ≡ 0) ⊎ (input_reg_count < addr + qty)
      → build_fc04_response p resp_buf_size addr qty ≡ none
  unfolding build_fc04_response
  build_fc04_response_refused addr qty h = ground arith
