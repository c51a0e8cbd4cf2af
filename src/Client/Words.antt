-- ===== src/Client/Words.antt =====
-- Texts made of words, and how tools/ble-client/main.go splits them again.
use flexit_cs60_control.Shared.{
  ℕ, zero, suc, ◌+◌, ◌/◌, ◌%◌, ◌<◌, ◌≡◌, refl, ap, ap₂, sym, ◌∙◌, inl, inr, Bool-cases, Bool, true,
  false, List, [], ◌∷◌, ◌++◌, some, arith, append-nil, append_assoc, ◌==◌, if◌then◌else◌, All, take,
  not, ◌&&◌,
}
use flexit_cs60_control.Shared.Text.{codes, dec, digits, hex4, hex_digit}
use flexit_cs60_control.Client.{
  is_space, flush, fields_from, cut_at, has_prefix, Parsed, take_field, take_fields, parse_line,
}

-- No blank, and no '='.
abbrev pub IsPlain : ℕ → Type 0
IsPlain c = (is_space c ≡ false) × ((c == b'=') ≡ false)

abbrev pub Plain : List ℕ → Type 0
Plain s = All IsPlain s

pub Plain-append : (xs ys : List ℕ) → Plain xs → Plain ys → Plain (xs ++ ys)
Plain-append [] ys h k = k
Plain-append (x ∷ xs) ys (h, t) k = (h, Plain-append xs ys t k)

pub Plain-take : (n : ℕ) (xs : List ℕ) → Plain xs → Plain (take n xs)
Plain-take zero xs h = tt
Plain-take (suc n) [] h = tt
Plain-take (suc n) (x ∷ xs) (h, t) = (h, Plain-take n xs t)

abbrev pub plain_test : List ℕ → Bool
plain_test [] = true
plain_test (c ∷ s) = not (is_space c) && not (c == b'=') && plain_test s

pub plain_test-Plain : (s : List ℕ) → plain_test s ≡ true → Plain s
plain_test-Plain [] h = tt
plain_test-Plain (c ∷ s) h =
    ((ground (arith, h), ground (arith, h)), plain_test-Plain s (ground (arith, h)))

digit-IsPlain : (d : ℕ) → d < 10 → IsPlain (b'0' + d)
digit-IsPlain d h = ground arith

hex_digit-IsPlain : (d : ℕ) → d < 16 → IsPlain (hex_digit d)
hex_digit-IsPlain d h = ground arith

digits-Plain : (fuel n : ℕ) (out : List ℕ) → Plain out → Plain (digits fuel n out)
unfolding digits
digits-Plain zero n out h = h
digits-Plain (suc fuel) n out h =
    let more : Plain ((b'0' + n % 10) ∷ out) = (digit-IsPlain (n % 10) (omega arith), h) in
    let rest = digits-Plain fuel (n / 10) ((b'0' + n % 10) ∷ out) more in
    elim (Bool-cases (n / 10 == 0)) [ inl e ↦ rw e more | inr e ↦ rw e rest ]

pub dec-Plain : (n : ℕ) → Plain (dec n)
unfolding dec
dec-Plain n = digits-Plain 20 n [] tt

pub hex4-Plain : (n : ℕ) → Plain (hex4 n)
unfolding hex4
hex4-Plain n = (
  hex_digit-IsPlain (n / 4096 % 16) (omega arith),
  (
    hex_digit-IsPlain (n / 256 % 16) (omega arith),
    (hex_digit-IsPlain (n / 16 % 16) (omega arith), (hex_digit-IsPlain (n % 16) (omega arith), tt)),
  ),
)

-- A key and its value, behind a blank.
abbrev pub Entry : Type 0
Entry = List ℕ × List ℕ

abbrev pub rendered : List Entry → List ℕ
rendered [] = []
rendered ((key, val) ∷ es) = b' ' ∷ (key ++ (b'=' ∷ (val ++ rendered es)))

pub rendered-append : (xs ys : List Entry) → rendered (xs ++ ys) ≡ rendered xs ++ rendered ys
rendered-append [] ys = refl
rendered-append ((key, val) ∷ xs) ys =
    ap (λ t. b' ' ∷ (key ++ (b'=' ∷ (val ++ t)))) (rendered-append xs ys)
    ∙ ap (λ t. b' ' ∷ (key ++ (b'=' ∷ t))) (sym (append_assoc val (rendered xs) (rendered ys)))
    ∙ ap (λ t. b' ' ∷ t) (sym (append_assoc key (b'=' ∷ (val ++ rendered xs)) (rendered ys)))

-- Keys and values without blanks and '='.
abbrev pub IsEntry : Entry → Type 0
IsEntry (key, val) = Plain key × Plain val

abbrev pub word_of : Entry → List ℕ
word_of (key, val) = key ++ (b'=' ∷ val)

fields_from-word :
    (w done rest : List ℕ) → Plain w → fields_from done (w ++ rest) ≡ fields_from (done ++ w) rest
unfolding fields_from
fields_from-word [] done rest h = ap (λ t. fields_from t rest) (sym (append-nil done))
fields_from-word (c ∷ w) done rest ((h, k), t) = rw h (
    fields_from-word w (done ++ c ∷ []) rest t
    ∙ ap (λ d. fields_from d rest) (append_assoc done (c ∷ []) w))

flush_word :
    (key val : List ℕ) (ws : List (List ℕ))
    → flush (key ++ (b'=' ∷ val)) ws ≡ (key ++ (b'=' ∷ val)) ∷ ws
flush_word [] val ws = refl
flush_word (c ∷ key) val ws = refl

abbrev pub words_of : List Entry → List (List ℕ)
words_of [] = []
words_of (e ∷ es) = word_of e ∷ words_of es

fields_equals :
    (done rest : List ℕ) → fields_from done (b'=' ∷ rest) ≡ fields_from (done ++ b'=' ∷ []) rest
unfolding fields_from
fields_equals done rest = refl

fields_blank :
    (done rest : List ℕ) → fields_from done (b' ' ∷ rest) ≡ flush done (fields_from [] rest)
unfolding fields_from
fields_blank done rest = refl

-- A line end closes the last word.
fields_line_end : (done : List ℕ) → fields_from done (10 ∷ []) ≡ flush done []
unfolding fields_from
fields_line_end done = refl

-- The words of what is rendered, behind a word that has begun.
fields-rendered :
    (es : List Entry) (done : List ℕ)
    → All IsEntry es
    → fields_from done (rendered es ++ 10 ∷ []) ≡ flush done (words_of es)
fields-rendered [] done h = fields_line_end done
fields-rendered ((key, val) ∷ es) done ((k, v), t) =
    let rest = rendered es ++ 10 ∷ [] in
    fields_blank done _
    ∙ ap (flush done) (
        ap (fields_from []) (append_assoc key (b'=' ∷ (val ++ rendered es)) (10 ∷ []))
        ∙ fields_from-word key [] _ k
        ∙ fields_equals key _
        ∙ ap (fields_from (key ++ b'=' ∷ [])) (append_assoc val (rendered es) (10 ∷ []))
        ∙ fields_from-word val (key ++ b'=' ∷ []) rest v
        ∙ ap (λ d. fields_from d rest) (append_assoc key (b'=' ∷ []) val)
        ∙ fields-rendered es (key ++ (b'=' ∷ val)) t
        ∙ flush_word key val (words_of es))

cut_at-word : (key val : List ℕ) → Plain key → cut_at b'=' (key ++ (b'=' ∷ val)) ≡ some (key, val)
unfolding cut_at
cut_at-word [] val h = refl
cut_at-word (c ∷ key) val ((s, e), t) = rw (e, cut_at-word key val t) refl

-- The keys of counters.
abbrev pub counter_keys : List Entry → List (List ℕ)
counter_keys [] = []
counter_keys ((key, val) ∷ es) =
    (if has_prefix (codes "CNT[") key then key ∷ [] else []) ++ counter_keys es

one_more :
    (b : Bool) (keys : List (List ℕ)) (key : List ℕ)
    → (if b then keys ++ key ∷ [] else keys) ≡ keys ++ ((if b then key ∷ [] else []) ++ [])
one_more true keys key = refl
one_more false keys key = sym (append-nil keys)

take_field-word :
    (key val : List ℕ) (t : Parsed)
    → Plain key
    → take_field (word_of (key, val)) t ≡ record {
      kv = t.kv ++ (key, val) ∷ [];
      cnt_keys = t.cnt_keys ++ counter_keys ((key, val) ∷ []);
    }
unfolding take_field
take_field-word key val t h =
    rw (take_field, cut_at-word key val h)
      (ap (λ (c : List (List ℕ)). record { kv = t.kv ++ (key, val) ∷ []; cnt_keys = c })
        (one_more (has_prefix (codes "CNT[") key) t.cnt_keys key))

counter_keys-cons :
    (e : Entry) (es : List Entry) → counter_keys (e ∷ []) ++ counter_keys es ≡ counter_keys (e ∷ es)
counter_keys-cons (key, val) es =
    ap (λ t. t ++ counter_keys es)
      (append-nil (if has_prefix (codes "CNT[") key then key ∷ [] else []))

take_fields-words :
    (es : List Entry) (t : Parsed)
    → All IsEntry es
    → take_fields (words_of es) t
      ≡ record { kv = t.kv ++ es; cnt_keys = t.cnt_keys ++ counter_keys es }
unfolding take_fields
take_fields-words [] t h = ground (arith, append-nil t.kv, append-nil t.cnt_keys)
take_fields-words ((key, val) ∷ es) t ((k, v), rest) =
    ap (take_fields (words_of es)) (take_field-word key val t k)
    ∙ take_fields-words es _ rest
    ∙ ap₂ (λ (a : List Entry) (b : List (List ℕ)). record { kv = a; cnt_keys = b })
        (append_assoc t.kv ((key, val) ∷ []) es)
        (append_assoc t.cnt_keys (counter_keys ((key, val) ∷ [])) (counter_keys es)
          ∙ ap (λ b. t.cnt_keys ++ b) (counter_keys-cons (key, val) es))

-- Any entries, printed on one line, are parsed back, in their order.
pub parse_line-rendered :
    (es : List Entry)
    → All IsEntry es
    → parse_line (rendered es ++ 10 ∷ []) ≡ record { kv = es; cnt_keys = counter_keys es }
unfolding parse_line
parse_line-rendered es h =
    ap (λ ws. take_fields ws (record { kv = []; cnt_keys = [] })) (fields-rendered es [] h)
    ∙ take_fields-words es (record { kv = []; cnt_keys = [] }) h
