-- ===== src/EkOutput/Json.antt =====
-- `write_json_string` of src/ek_output.rs, and what a reader of JSON makes of it.
use tlscap.Prelude.{
  ℕ, zero, suc, ◌+◌, ◌*◌, ◌/◌, ◌%◌, ◌<◌, ◌≡◌, refl, ap, ◌∙◌, ◌||◌, Option, none, some, List, [],
  ◌∷◌, ◌++◌, append_assoc, ltb, ◌==◌, if◌then◌else◌, arith, Bool-cases, inl, inr,
}
use tlscap.Text.{hex_digit, unhex, unhex-hex_digit, Plain, Plain-append}

abbrev quote : ℕ
quote = b'"'

abbrev backslash : ℕ
backslash = 0x5c

-- `\u{:04x}` of a control character: the first two digits are zeros.
abbrev unicode_escape : ℕ → List ℕ
unicode_escape c = backslash ∷ b'u' ∷ b'0' ∷ b'0' ∷ hex_digit (c / 16) ∷ hex_digit (c % 16) ∷ []

-- What the loop writes for one character.
unfoldable pub escape_char : ℕ → List ℕ
escape_char c =
    if c == quote
    then backslash ∷ quote ∷ []
    else if c == backslash
    then backslash ∷ backslash ∷ []
    else if c == 10
    then backslash ∷ b'n' ∷ []
    else if c == 13
    then backslash ∷ b'r' ∷ []
    else if c == 9
    then backslash ∷ b't' ∷ []
    else if ltb c 0x20
    then unicode_escape c
    else c ∷ []

unfoldable pub escape : List ℕ → List ℕ
unfolding escape_char
escape [] = []
escape (c ∷ cs) = escape_char c ++ escape cs

unfoldable pub json_string : List ℕ → List ℕ
unfolding escape
json_string s = quote ∷ (escape s ++ quote ∷ [])

-- A reader of a JSON string (RFC 8259 §7), behind its opening quote. After `\u` it keeps the digits
-- that are left and the value so far.
pub data Mode : Type 0 where
  plain escaped : Mode
  hex : ℕ → ℕ → Mode

-- The character that a letter after `\` stands for.
abbrev escaped_char : ℕ → Option ℕ
escaped_char c =
    if (c == quote) || (c == backslash) || (c == b'/')
    then some c
    else if c == b'b'
    then some 8
    else if c == b'f'
    then some 12
    else if c == b'n'
    then some 10
    else if c == b'r'
    then some 13
    else if c == b't'
    then some 9
    else none

-- What was read, behind what is read already.
abbrev read_on : Option ℕ → (ℕ → Option (List ℕ × List ℕ)) → Option (List ℕ × List ℕ)
read_on none f = none
read_on (some c) f = f c

abbrev push_char : ℕ → Option (List ℕ × List ℕ) → Option (List ℕ × List ℕ)
push_char c none = none
push_char c (some (s, rest)) = some (c ∷ s, rest)

pub read_string : Mode → List ℕ → Option (List ℕ × List ℕ)
read_string mode [] = none
read_string plain (c ∷ cs) =
    let next = read_string plain cs in
    let after_backslash = read_string escaped cs in
    if c == quote
    then some ([], cs)
    else if c == backslash
    then after_backslash
    else if ltb c 0x20
    then none
    else push_char c next
read_string escaped (c ∷ cs) =
    let unicode = read_string (hex 3 0) cs in
    let next = read_string plain cs in
    if c == b'u' then unicode else read_on (escaped_char c) (λ (d : ℕ). push_char d next)
read_string (hex zero acc) (c ∷ cs) =
    let next = read_string plain cs in read_on (unhex c) (λ (d : ℕ). push_char (acc * 16 + d) next)
read_string (hex (suc n) acc) (c ∷ cs) =
    read_on (unhex c) (λ (d : ℕ). read_string (hex n (acc * 16 + d)) cs)

read_string-unicode_escape :
    (c : ℕ) (rest : List ℕ)
    → c < 0x20
    → read_string plain (unicode_escape c ++ rest) ≡ push_char c (read_string plain rest)
unfolding read_string
read_string-unicode_escape c rest h =
    let high = unhex-hex_digit (c / 16) (omega arith) in
    let low = unhex-hex_digit (c % 16) (omega arith) in
    let value : (0 + c / 16) * 16 + c % 16 ≡ c = omega arith in
    rw (high, low) (ap (λ (d : ℕ). push_char d (read_string plain rest)) value)

read_string-escape_char :
    (c : ℕ) (rest : List ℕ)
    → read_string plain (escape_char c ++ rest) ≡ push_char c (read_string plain rest)
unfolding read_string escape_char
read_string-escape_char c rest = elim (Bool-cases (c == quote)) [
  | inl e ↦ let same : c ≡ quote = ground arith in rw same
  | inr e1 ↦ elim (Bool-cases (c == backslash)) [
    | inl e ↦ let same : c ≡ backslash = ground arith in rw same
    | inr e2 ↦ elim (Bool-cases (c == 10)) [
      | inl e ↦ let same : c ≡ 10 = ground arith in rw same
      | inr e3 ↦ elim (Bool-cases (c == 13)) [
        | inl e ↦ let same : c ≡ 13 = ground arith in rw same
        | inr e4 ↦ elim (Bool-cases (c == 9)) [
          | inl e ↦ let same : c ≡ 9 = ground arith in rw same
          | inr e5 ↦ elim (Bool-cases (ltb c 0x20)) [
            | inl control ↦
                let below : c < 0x20 = ground arith in
                rw (e1, e2, e3, e4, e5, control) (read_string-unicode_escape c rest below)
            | inr printed ↦ rw (e1, e2, e3, e4, e5, printed) (rw (e1, e2, printed))
          ]
        ]
      ]
    ]
  ]
]

read_string-escape :
    (s rest : List ℕ) → read_string plain (escape s ++ quote ∷ rest) ≡ some (s, rest)
unfolding escape read_string
read_string-escape [] rest = refl
read_string-escape (c ∷ s) rest =
    ap (read_string plain) (append_assoc (escape_char c) (escape s) (quote ∷ rest))
    ∙ read_string-escape_char c (escape s ++ quote ∷ rest)
    ∙ ap (push_char c) (read_string-escape s rest)

escape_char-Plain : (c : ℕ) → Plain (escape_char c)
unfolding escape_char
escape_char-Plain c = ground arith

escape-Plain : (s : List ℕ) → Plain (escape s)
unfolding escape
escape-Plain [] = tt
escape-Plain (c ∷ s) =
    Plain-append (escape_char c) (escape s) (escape_char-Plain c) (escape-Plain s)

pub json_string-Plain : (s : List ℕ) → Plain (json_string s)
unfolding json_string
json_string-Plain s =
    (omega arith, Plain-append (escape s) (quote ∷ []) (escape-Plain s) (omega arith))

-- From the opening quote on.
pub read_json : List ℕ → Option (List ℕ × List ℕ)
unfolding read_string
read_json [] = none
read_json (c ∷ cs) = if c == quote then read_string plain cs else none

-- A reader of JSON gets back the text from what `write_json_string` wrote, whatever its characters are
-- and whatever follows, and what is written has no control character in it, so no line break.
pub read_json-json_string :
    (s rest : List ℕ) → (read_json (json_string s ++ rest) ≡ some (s, rest)) × Plain (json_string s)
unfolding read_json json_string
read_json-json_string s rest = (
  ap (read_string plain) (append_assoc (escape s) (quote ∷ []) rest) ∙ read_string-escape s rest,
  json_string-Plain s,
)
