-- ===== src/Ble/Parse.antt =====
-- src/ble_transport.c, `nus_received`: which command a payload is, and its argument.
use flexit_cs60_control.Shared.{
  ℕ, ◌+◌, ◌-◌, ◌*◌, ◌<◌, ◌^◌, ◌≡◌, Bool, true, false, ◌&&◌, ◌||◌, List, [], ◌∷◌, take, drop, get_or,
  ltb, ◌==◌, if◌then◌else◌,
}
use flexit_cs60_control.Shared.Int.{ℤ, pos}
use flexit_cs60_control.Shared.Text.{codes, is_digit, scan}

-- `len >= n && memcmp(data, key, n) == 0` for the n bytes of `key`.
abbrev pub begins : List ℕ → List ℕ → Bool
begins [] bytes = true
begins (k ∷ ks) [] = false
begins (k ∷ ks) (b ∷ bytes) = k == b && begins ks bytes

pub data Command : Type 0 where
  stream state zbstate stop zbreset clearbond mode setpoint unknown : Command

unfoldable pub command : List ℕ → Command
command payload =
    if begins (codes "stream") payload
    then stream
    else if begins (codes "state") payload
    then state
    else if begins (codes "zbstate") payload
    then zbstate
    else if begins (codes "stop") payload
    then stop
    else if begins (codes "zbreset") payload
    then zbreset
    else if begins (codes "clearbond") payload
    then clearbond
    else if begins (codes "mode") payload
    then mode
    else if begins (codes "setpoint") payload
    then setpoint
    else unknown

-- `while (*p == ' ' || *p == '\t')`
unfoldable pub skip_blanks : List ℕ → List ℕ
skip_blanks [] = []
skip_blanks (c ∷ s) = let rest = skip_blanks s in if c == b' ' || c == 9 then rest else c ∷ s

-- The text at `p`: at most 15 bytes of the payload are copied, and a read behind them gives NUL.
unfoldable pub argument : ℕ → List ℕ → List ℕ
unfolding skip_blanks
argument keyword payload = skip_blanks (drop keyword (take 15 payload))

-- `atoi` of the C library, which gives the value of the leading digits where an int holds it.
pub record Libc : Type 0 where
  pub atoi : List ℕ → ℤ
  pub atoi_lem :
      (s : List ℕ)
      → is_digit (get_or s 0 0) ≡ true
      → (scan s 0).0 < 2 ^ 31
      → atoi s ≡ pos (scan s 0).0

-- `whole * 10 + tenths` before it is clamped.
unfoldable pub parse_tenths : List ℕ → ℕ
parse_tenths arg =
    let (whole, p) = scan arg 0 in
    let tenths =
      if get_or p 0 0 == b'.' && is_digit (get_or p 1 0) then get_or p 1 0 - b'0' else 0 in
    whole * 10 + tenths

abbrev pub clamp_dc : ℕ → ℕ
clamp_dc dc = if ltb dc 100 then 100 else if ltb 300 dc then 300 else dc
