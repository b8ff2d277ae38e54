-- ===== src/Text.antt =====
-- What the code has the standard library print: numbers in decimal and hexadecimal, and addresses.
-- A text is a list of code points.
pub mod Decimal
pub mod Address
pub mod Lines
use Prim.Native.Char.{code}
use Prim.Native.String.{String}
use tlscap.Prelude.{
  ℕ, zero, suc, ◌+◌, ◌-◌, ◌≤◌, ◌<◌, ◌≡◌, ◌≢◌, refl, List, [], ◌∷◌, ◌++◌, Option, none, some, Bool,
  ◌&&◌, ltb, leb, ◌==◌, if◌then◌else◌, arith,
}

-- The digit of a value below 16.
abbrev pub hex_digit : ℕ → ℕ
hex_digit d = if ltb d 10 then d + b'0' else d + 87

abbrev pub unhex : ℕ → Option ℕ
unhex c =
    if leb b'0' c && leb c b'9'
    then some (c - b'0')
    else if leb b'a' c && leb c b'f'
    then some (c - 87)
    else none

pub unhex-hex_digit : (d : ℕ) → d < 16 → unhex (hex_digit d) ≡ some d
unhex-hex_digit d h = ground arith

-- No code point is below a space: no line break and no other control character.
abbrev pub Plain : List ℕ → Type 0
Plain [] = Unit {0}
Plain (c ∷ cs) = (0x20 ≤ c) × Plain cs

pub Plain-append : (xs ys : List ℕ) → Plain xs → Plain ys → Plain (xs ++ ys)
Plain-append [] ys p q = q
Plain-append (x ∷ xs) ys p q = (p.0, Plain-append xs ys p.1 q)

-- The code points of a literal.
abbrev pub codes : String → List ℕ
codes String.[] = []
codes (String.◌∷◌ c s) = code c ∷ codes s

-- `replace(a, b)` of one character by one.
abbrev pub replace : ℕ → ℕ → List ℕ → List ℕ
replace a b [] = []
replace a b (c ∷ cs) = (if c == a then b else c) ∷ replace a b cs

-- `split(sep).next()`: the text before the first separator.
abbrev pub first_part : ℕ → List ℕ → List ℕ
first_part sep [] = []
first_part sep (c ∷ cs) = if c == sep then [] else c ∷ first_part sep cs

-- `strip_prefix(…).unwrap_or(…)`: the text behind the prefix, or the other text.
abbrev pub strip_prefix_or : List ℕ → List ℕ → List ℕ → List ℕ
strip_prefix_or [] text whole = text
strip_prefix_or (p ∷ prefix) [] whole = whole
strip_prefix_or (p ∷ prefix) (c ∷ text) whole =
    if p == c then strip_prefix_or prefix text whole else whole
