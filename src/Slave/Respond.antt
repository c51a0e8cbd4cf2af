-- ===== src/Slave/Respond.antt =====
-- src/flexit_slave.c: the response builders. `none` is their -EINVAL; a response buffer of `cap`
-- bytes is the list of the `frame_len` bytes that the builder fills.
use flexit_cs60_control.Shared.{
  ℕ, zero, suc, ◌+◌, ◌*◌, ◌/◌, ◌%◌, ◌||◌, Option, none, some, List, [], ◌∷◌, ◌++◌, get_or,
  replicate, ltb, leb, ◌==◌, if◌then◌else◌, put_be16, put_le16, coil, set_coil,
}
use flexit_cs60_control.Platform.{Platform}
use flexit_cs60_control.Slave.{State, slave_addr, coil_count, reg_count}

-- RESP_BUF_SIZE
abbrev pub resp_buf_size : ℕ
resp_buf_size = 64

-- `input_regs`
abbrev pub input_regs : List ℕ
input_regs = 0x0000 ∷ 0x0000 ∷ 0x0001 ∷ 0x0200 ∷ []

abbrev pub input_reg_count : ℕ
input_reg_count = 4

-- The loop of `build_fc01_response`, `n` rounds from `i` on; `resp` is what follows the header.
unfoldable pub pack_coils : List ℕ → ℕ → ℕ → ℕ → List ℕ → List ℕ
pack_coils coils start zero i resp = resp
pack_coils coils start (suc n) i resp =
    let coil_idx = (start + i) % 65536 in
    let rest =
      pack_coils coils start n (i + 1) (if coil coils coil_idx then set_coil resp i else resp) in
    if leb coil_count coil_idx then resp else rest

-- The loop of `build_fc03_response` and `build_fc04_response`: registers, high byte first.
unfoldable pub put_regs : List ℕ → ℕ → ℕ → List ℕ
put_regs regs addr zero = []
put_regs regs addr (suc n) = put_be16 (get_or regs addr 0) ++ put_regs regs (addr + 1) n

module _ (p : Platform) where
  open p use {crc16}

  -- The checksum behind a frame, low byte first.
  unfoldable pub stamp : List ℕ → List ℕ
  stamp frame = frame ++ put_le16 (crc16 frame)

  unfoldable pub build_fc01_response : State → ℕ → ℕ → ℕ → Option (List ℕ)
  build_fc01_response s cap start qty =
      let bc = (qty + 7) / 8 in
      let coil_bytes = pack_coils s.coils start qty 0 (replicate bc 0) in
      if qty == 0 || ltb 2000 qty
      then none
      else if ltb cap (3 + bc + 2)
      then none
      else some (stamp (slave_addr ∷ 0x01 ∷ bc % 256 ∷ coil_bytes))

  unfoldable pub build_fc03_response : State → ℕ → ℕ → ℕ → Option (List ℕ)
  build_fc03_response s cap addr qty =
      let bc = qty * 2 in
      if qty == 0 || ltb 8 qty
      then none
      else if ltb reg_count (addr + qty)
      then none
      else if ltb cap (3 + bc + 2)
      then none
      else some (stamp (slave_addr ∷ 0x03 ∷ bc % 256 ∷ put_regs s.regs addr qty))

  unfoldable pub build_fc04_response : ℕ → ℕ → ℕ → Option (List ℕ)
  build_fc04_response cap addr qty =
      let bc = qty * 2 in
      if qty == 0 || ltb input_reg_count qty
      then none
      else if ltb input_reg_count (addr + qty)
      then none
      else if ltb cap (3 + bc + 2)
      then none
      else some (stamp (slave_addr ∷ 0x04 ∷ bc % 256 ∷ put_regs input_regs addr qty))
