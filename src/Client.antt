-- ===== src/Client.antt =====
-- tools/ble-client/main.go, `formatStateHuman`: how the host's client takes the state line apart.
-- `strings.Fields` and `strings.IndexByte` are modelled for ASCII texts, which the line is.
pub mod Words
pub mod Entries
pub mod Line
mod Tests
use flexit_cs60_control.Shared.{
  ℕ, Bool, true, false, ◌||◌, ◌&&◌, Option, none, some, List, [], ◌∷◌, ◌++◌, leb, ◌==◌,
  if◌then◌else◌, same_bytes,
}
use flexit_cs60_control.Shared.Text.{codes}

-- Blank, tab, line feed, vertical tab, form feed, carriage return.
abbrev pub is_space : ℕ → Bool
is_space c = (leb 9 c && leb c 13) || c == b' '

-- A word that is not empty, in front of the others.
abbrev pub flush : List ℕ → List (List ℕ) → List (List ℕ)
flush [] words = words
flush (c ∷ word) words = (c ∷ word) ∷ words

-- `strings.Fields`; `word` is the word that has begun.
unfoldable pub fields_from : List ℕ → List ℕ → List (List ℕ)
fields_from word [] = flush word []
fields_from word (c ∷ s) =
    let ended = flush word (fields_from [] s) in
    let longer = fields_from (word ++ c ∷ []) s in if is_space c then ended else longer

-- What stands before and behind the first `c`, found by `strings.IndexByte`.
unfoldable pub cut_at : ℕ → List ℕ → Option (List ℕ × List ℕ)
cut_at c [] = none
cut_at c (x ∷ s) =
    let rest = cut_at c s in
    if x == c then some ([], s) else elim rest [ none ↦ none | some (a, b) ↦ some (x ∷ a, b) ]

-- `strings.HasPrefix`
abbrev pub has_prefix : List ℕ → List ℕ → Bool
has_prefix [] s = true
has_prefix (x ∷ xs) [] = false
has_prefix (x ∷ xs) (y ∷ ys) = x == y && has_prefix xs ys

-- `kv` by its assignments, the oldest first, and `cntKeys`.
pub record Parsed : Type 0 where
  pub kv : List (List ℕ × List ℕ)
  pub cnt_keys : List (List ℕ)

-- The body of the loop over the fields.
unfoldable pub take_field : List ℕ → Parsed → Parsed
take_field f t = elim (cut_at b'=' f) [
  | none ↦ t
  | some (key, val) ↦ record {
    kv = t.kv ++ (key, val) ∷ [];
    cnt_keys = if has_prefix (codes "CNT[") key then t.cnt_keys ++ key ∷ [] else t.cnt_keys;
  }
]

unfoldable pub take_fields : List (List ℕ) → Parsed → Parsed
unfolding take_field
take_fields [] t = t
take_fields (f ∷ fs) t = take_fields fs (take_field f t)

unfoldable pub parse_line : List ℕ → Parsed
unfolding take_fields fields_from cut_at
parse_line line = take_fields (fields_from [] line) (record { kv = []; cnt_keys = [] })

-- `kv[key]`: the newest value, and the empty text where there is none.
unfoldable pub kv_get : List ℕ → List (List ℕ × List ℕ) → List ℕ → List ℕ
kv_get key [] last = last
kv_get key ((k, v) ∷ kv) last = kv_get key kv (if same_bytes k key then v else last)
