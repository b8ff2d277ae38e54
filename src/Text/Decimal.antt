-- ===== src/Text/Decimal.antt =====
-- The decimal print of a number, as by `{}` and `to_string`.
use tlscap.Prelude.{
  ℕ, zero, suc, ◌+◌, ◌-◌, ◌*◌, ◌/◌, ◌%◌, ◌≤◌, ◌<◌, ◌≡◌, ap, ◌∙◌, List, [], ◌∷◌, ◌++◌, ltb,
  if◌then◌else◌, arith, Bool-cases, inl, inr, length,
}
use tlscap.Text.{Plain, Plain-append}

-- The digits in front of `out`, the last one first; each round divides by ten.
unfoldable pub digits : ℕ → ℕ → List ℕ → List ℕ
digits zero n out = out
digits (suc fuel) n out =
    let rest = digits fuel (n / 10) ((n % 10 + b'0') ∷ out) in
    if ltb n 10 then (n + b'0') ∷ out else rest

-- A number has at most as many digits as its value, and one if it is 0.
unfoldable pub decimal : ℕ → List ℕ
unfolding digits
decimal n = digits (suc n) n []

-- What a text of digits stands for, after the number `acc`.
unfoldable pub read_digits : ℕ → List ℕ → ℕ
read_digits acc [] = acc
read_digits acc (c ∷ cs) = read_digits (acc * 10 + (c - b'0')) cs

pub read_digits-digits :
    (fuel n : ℕ) (out : List ℕ) → n < fuel → read_digits 0 (digits fuel n out) ≡ read_digits n out
unfolding digits read_digits
read_digits-digits zero n out h = absurd (omega arith)
read_digits-digits (suc fuel) n out h = elim (Bool-cases (ltb n 10)) [
  | inl last ↦
      let e : 0 * 10 + (n + b'0' - b'0') ≡ n = omega arith in
      rw last (ap (λ (k : ℕ). read_digits k out) e)
  | inr more ↦
      let big : 10 ≤ n = ground arith in
      let e : n / 10 * 10 + (n % 10 + b'0' - b'0') ≡ n = omega arith in
      rw more (
        read_digits-digits fuel (n / 10) ((n % 10 + b'0') ∷ out) (omega arith)
        ∙ ap (λ (k : ℕ). read_digits k out) e)
]

pub read_digits-decimal : (n : ℕ) → read_digits 0 (decimal n) ≡ n
unfolding decimal read_digits
read_digits-decimal n = read_digits-digits (suc n) n [] (omega arith)

digits-Plain : (fuel n : ℕ) (out : List ℕ) → Plain out → Plain (digits fuel n out)
unfolding digits
digits-Plain zero n out p = p
digits-Plain (suc fuel) n out p = elim (Bool-cases (ltb n 10)) [
  | inl last ↦ rw last (omega arith, p)
  | inr more ↦ rw more (digits-Plain fuel (n / 10) ((n % 10 + b'0') ∷ out) (omega arith, p))
]

pub decimal-Plain : (n : ℕ) → Plain (decimal n)
unfolding decimal
decimal-Plain n = digits-Plain (suc n) n [] tt

-- `{:0w}`: zeros in front, up to `w` characters.
abbrev pub zeros : ℕ → List ℕ
zeros zero = []
zeros (suc n) = b'0' ∷ zeros n

abbrev pub padded : ℕ → ℕ → List ℕ
padded w n = zeros (w - length (decimal n)) ++ decimal n

zeros-Plain : (n : ℕ) → Plain (zeros n)
zeros-Plain zero = tt
zeros-Plain (suc n) = (omega arith, zeros-Plain n)

pub padded-Plain : (w n : ℕ) → Plain (padded w n)
padded-Plain w n =
    Plain-append (zeros (w - length (decimal n))) (decimal n) (zeros-Plain _) (decimal-Plain n)
