-- ===== src/Text/Address.antt =====
-- The print of an IP address, as by `Display` of `std::net::IpAddr`.
mod Tests
use tlscap.Prelude.{
  ◌*◌, ℕ, zero, suc, ◌+◌, ◌/◌, ◌%◌, ◌^◌, ◌<◌, ◌≤◌, ◌≡◌, refl, List, [], ◌∷◌, ◌++◌, Bool, true,
  false, ◌&&◌, ltb, leb, ◌==◌, if◌then◌else◌, take, drop, arith, Bool-cases, inl, inr,
}
use tlscap.Orchestrator.{IpAddr, v4, v6}
use tlscap.Text.{hex_digit, Plain, Plain-append}
use tlscap.Text.Decimal.{decimal, decimal-Plain, digits}

-- The `w`-bit parts of a number, the highest of the `n` first.
abbrev parts : ℕ → ℕ → ℕ → List ℕ
parts zero w a = []
parts (suc n) w a = a / 2 ^ (w * n) % 2 ^ w ∷ parts n w a

-- `{:x}`
hex_digits : ℕ → ℕ → List ℕ → List ℕ
hex_digits zero n out = out
hex_digits (suc fuel) n out =
    let rest = hex_digits fuel (n / 16) (hex_digit (n % 16) ∷ out) in
    if ltb n 16 then hex_digit n ∷ out else rest

abbrev hex_text : ℕ → List ℕ
hex_text n = hex_digits (suc n) n []

-- The prints of the parts with a separator between them.
joined : (ℕ → List ℕ) → ℕ → List ℕ → List ℕ
joined print sep [] = []
joined print sep (a ∷ []) = print a
joined print sep (a ∷ b ∷ rest) = print a ++ (sep ∷ joined print sep (b ∷ rest))

pub ipv4_text : ℕ → List ℕ
ipv4_text a = joined decimal b'.' (parts 4 8 a)

-- A run of zero segments: its start and its length.
record Span : Type 0 where
  start : ℕ
  len : ℕ

abbrev extended : Span → ℕ → Span
extended current i =
    if current.len == 0
    then record { start = i; len = 1 }
    else record current { len = current.len + 1 }

abbrev longer : Span → Span → Span
longer current longest = if ltb longest.len current.len then current else longest

-- The first longest run, from segment `i` on.
longest_run : List ℕ → ℕ → Span → Span → Span
longest_run [] i current longest = longest
longest_run (s ∷ rest) i current longest =
    let zero_here =
      longest_run rest (i + 1) (extended current i) (longer (extended current i) longest) in
    let other = longest_run rest (i + 1) (record { start = 0; len = 0 }) longest in
    if s == 0 then zero_here else other

abbrev zero_span : List ℕ → Span
zero_span segments =
    longest_run segments 0 (record { start = 0; len = 0 }) (record { start = 0; len = 0 })

abbrev is_ipv4_mapped : ℕ → Bool
is_ipv4_mapped a = a / 2 ^ 32 == 0xffff

-- A run of at least two zero segments is left out.
abbrev compressed : List ℕ → Span → List ℕ
compressed segments zeroes =
    if ltb 1 zeroes.len
    then joined hex_text b':' (take zeroes.start segments)
      ++ (b':' ∷ b':' ∷ joined hex_text b':' (drop (zeroes.start + zeroes.len) segments))
    else joined hex_text b':' segments

-- "::ffff:"
abbrev mapped_prefix : List ℕ
mapped_prefix = b':' ∷ b':' ∷ b'f' ∷ b'f' ∷ b'f' ∷ b'f' ∷ b':' ∷ []

pub ipv6_text : ℕ → List ℕ
ipv6_text a =
    if is_ipv4_mapped a
    then mapped_prefix ++ ipv4_text (a % 2 ^ 32)
    else compressed (parts 8 16 a) (zero_span (parts 8 16 a))

pub ip_text : IpAddr → List ℕ
ip_text (v4 a) = ipv4_text a
ip_text (v6 a) = ipv6_text a

hex_digit-Plain : (d : ℕ) → 0x20 ≤ hex_digit d
hex_digit-Plain d = ground arith

hex_digits-Plain : (fuel n : ℕ) (out : List ℕ) → Plain out → Plain (hex_digits fuel n out)
unfolding hex_digits
hex_digits-Plain zero n out p = p
hex_digits-Plain (suc fuel) n out p = elim (Bool-cases (ltb n 16)) [
  | inl last ↦ rw last (hex_digit-Plain n, p)
  | inr more ↦
      rw more
        (hex_digits-Plain fuel (n / 16) (hex_digit (n % 16) ∷ out) (hex_digit-Plain (n % 16), p))
]

joined-Plain :
    (print : ℕ → List ℕ) (sep : ℕ) (parts' : List ℕ)
    → ((n : ℕ) → Plain (print n))
    → 0x20 ≤ sep
    → Plain (joined print sep parts')
unfolding joined
joined-Plain print sep [] h k = tt
joined-Plain print sep (a ∷ []) h k = h a
joined-Plain print sep (a ∷ b ∷ rest) h k =
    Plain-append (print a) (sep ∷ joined print sep (b ∷ rest)) (h a)
      (k, joined-Plain print sep (b ∷ rest) h k)

hex_joined-Plain : (segments : List ℕ) → Plain (joined hex_text b':' segments)
hex_joined-Plain segments =
    joined-Plain hex_text b':' segments (λ n. hex_digits-Plain (suc n) n [] tt) (omega arith)

ipv4_text-Plain : (a : ℕ) → Plain (ipv4_text a)
unfolding ipv4_text
ipv4_text-Plain a = joined-Plain decimal b'.' (parts 4 8 a) decimal-Plain (omega arith)

compressed-Plain : (segments : List ℕ) (zeroes : Span) → Plain (compressed segments zeroes)
compressed-Plain segments zeroes = elim (Bool-cases (ltb 1 zeroes.len)) [
  | inl run ↦ rw run (
      Plain-append (joined hex_text b':' (take zeroes.start segments)) _ (hex_joined-Plain _)
        (omega arith, (omega arith, hex_joined-Plain _)))
  | inr none' ↦ rw none' (hex_joined-Plain segments)
]

pub ip_text-Plain : (ip : IpAddr) → Plain (ip_text ip)
unfolding ip_text ipv6_text
ip_text-Plain (v4 a) = ipv4_text-Plain a
ip_text-Plain (v6 a) = elim (Bool-cases (is_ipv4_mapped a)) [
  | inl mapped ↦ rw mapped (
      Plain-append mapped_prefix (ipv4_text (a % 2 ^ 32)) (omega arith)
        (ipv4_text-Plain (a % 2 ^ 32)))
  | inr other ↦ rw other (compressed-Plain (parts 8 16 a) (zero_span (parts 8 16 a)))
]
