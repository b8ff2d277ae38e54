-- ===== src/PcapInput/Timestamp.antt =====
-- `correct_epb_timestamp` of src/pcap_input.rs. A `Duration` is its number of nanoseconds.
use tlscap.Prelude.{
  ℕ, zero, suc, ◌+◌, ◌-◌, ◌*◌, ◌/◌, ◌%◌, ◌^◌, ◌≤◌, ◌<◌, ◌≡◌, sym, ap, ◌∙◌, Option, none, some, min,
  leb, if◌then◌else◌, Bool-cases, inl, inr, arith, ◌⊎◌, false,
}
use native.Mathlib.Nat.{
  div-add-mod', add-mul, mul-add-div_right, mul_assoc, mul_comm, one-le-pow, mul-div-mul_right,
  pow-suc, div-le_self, mod-lt, div-lt_iff_lt-mul,
}

-- `Duration::new`: nanoseconds of a second and more would carry, which the sum does.
abbrev duration : ℕ → ℕ → ℕ
duration secs nanos = secs * 1_000_000_000 + nanos

-- `unwrap_or(6)`
abbrev pub tsresol_of : Option ℕ → ℕ
tsresol_of none = 6
tsresol_of (some v) = v

-- `10u128.pow(n)` up to 9.
abbrev pub ten_pow : ℕ → ℕ
ten_pow n = 10 ^ n

-- The numbers of 128 bits do not wrap here: the ticks are below `2 ^ 64` and the unit is at most
-- `2 ^ 127`. The casts to `u64` and `u32` are written out.
pub correct_epb_timestamp : ℕ → Option ℕ → ℕ
correct_epb_timestamp raw_ticks if_tsresol =
    let tsresol = tsresol_of if_tsresol in
    let unit = 2 ^ (tsresol % 0x80) in
    let exp = min tsresol 9 in
    let divisor = ten_pow exp in
    if leb 0x80 tsresol
    then duration (raw_ticks / unit % 2 ^ 64) (raw_ticks % unit * 1_000_000_000 / unit % 2 ^ 32)
    else duration (raw_ticks / divisor % 2 ^ 64) (raw_ticks % divisor * ten_pow (9 - exp) % 2 ^ 32)

-- The ticks of a second, by the pcapng specification: a power of two if the highest bit is set, and
-- otherwise a power of ten.
pub ticks_per_second : Option ℕ → ℕ
ticks_per_second if_tsresol =
    let tsresol = tsresol_of if_tsresol in
    if leb 0x80 tsresol then 2 ^ (tsresol % 0x80) else ten_pow tsresol

-- No power of ten that is finer than a nanosecond.
abbrev pub NotFiner : Option ℕ → Type 0
NotFiner if_tsresol = (tsresol_of if_tsresol ≤ 9) ⊎ (0x80 ≤ tsresol_of if_tsresol)

decimal_exact :
    (raw exp : ℕ)
    → raw < 2 ^ 64
    → exp ≤ 9
    → duration (raw / ten_pow exp % 2 ^ 64) (raw % ten_pow exp * ten_pow (9 - exp) % 2 ^ 32)
      ≡ raw * 1_000_000_000 / ten_pow exp
decimal_exact raw zero h k = omega arith
decimal_exact raw (suc zero) h k = omega arith
decimal_exact raw (suc (suc zero)) h k = omega arith
decimal_exact raw (suc (suc (suc zero))) h k = omega arith
decimal_exact raw (suc (suc (suc (suc zero)))) h k = omega arith
decimal_exact raw (suc (suc (suc (suc (suc zero))))) h k = omega arith
decimal_exact raw (suc (suc (suc (suc (suc (suc zero)))))) h k = omega arith
decimal_exact raw (suc (suc (suc (suc (suc (suc (suc zero))))))) h k = omega arith
decimal_exact raw (suc (suc (suc (suc (suc (suc (suc (suc zero)))))))) h k = omega arith
decimal_exact raw (suc (suc (suc (suc (suc (suc (suc (suc (suc zero))))))))) h k = omega arith
decimal_exact raw (suc (suc (suc (suc (suc (suc (suc (suc (suc (suc n)))))))))) h k =
    absurd (omega arith)

-- A quotient by a variable, from its whole part and the rest.
quotient_split : (raw u b : ℕ) → 0 < u → raw / u * b + raw % u * b / u ≡ raw * b / u
quotient_split raw u b h =
    let parts : raw / u * u + raw % u ≡ raw = div-add-mod' raw u in
    let swap : raw / u * u * b ≡ raw / u * b * u =
      mul_assoc (raw / u) u b
      ∙ ap (λ x. raw / u * x) (mul_comm u b)
      ∙ sym (mul_assoc (raw / u) b u) in
    sym (
      ap (λ x. x * b / u) (sym parts)
      ∙ ap (λ x. x / u) (add-mul (raw / u * u) (raw % u) b ∙ ap (λ x. x + raw % u * b) swap)
      ∙ mul-add-div_right h (raw / u * b) (raw % u * b))

binary_exact :
    (raw u : ℕ)
    → raw < 2 ^ 64
    → 0 < u
    → duration (raw / u % 2 ^ 64) (raw % u * 1_000_000_000 / u % 2 ^ 32) ≡ raw * 1_000_000_000 / u
binary_exact raw u h k =
    let secs : raw / u ≤ raw = div-le_self raw u in
    let rest : raw % u * 1_000_000_000 / u < 1_000_000_000 =
      (div-lt_iff_lt-mul k).1 (omega (arith, mod-lt raw k)) in
    omega (arith, secs, rest, quotient_split raw u 1_000_000_000 k)

-- The timestamp is exactly the time of the ticks by the pcapng specification, rounded down to
-- nanoseconds, for every power of two, every power of ten that is not finer than a nanosecond, and the
-- default, although the library read the ticks as nanoseconds: no step on the way loses ticks or
-- wraps, for any count of 64 bits.
pub correct_epb_timestamp-exact :
    (raw_ticks : ℕ) (if_tsresol : Option ℕ)
    → raw_ticks < 2 ^ 64
    → NotFiner if_tsresol
    → correct_epb_timestamp raw_ticks if_tsresol
      ≡ raw_ticks * 1_000_000_000 / ticks_per_second if_tsresol
unfolding correct_epb_timestamp ticks_per_second
correct_epb_timestamp-exact raw_ticks if_tsresol h fine =
    let v = tsresol_of if_tsresol in
    elim (Bool-cases (leb 0x80 v)) [
      | inl e ↦
          rw e (binary_exact raw_ticks (2 ^ (v % 0x80)) h (one-le-pow (v % 0x80) 2 (omega arith)))
      | inr e ↦
          let coarse : v ≤ 9 = ground arith in
          let same : min v 9 ≡ v = omega arith in rw (e, same) (decimal_exact raw_ticks v h coarse)
    ]

ten_pow-split : (d : ℕ) → ten_pow (9 + d) ≡ ten_pow d * 1_000_000_000
ten_pow-split zero = omega arith
ten_pow-split (suc d) =
    let next : 9 + suc d ≡ suc (9 + d) = omega arith in
    rw next (omega (arith, pow-suc 10 (9 + d), pow-suc 10 d, ten_pow-split d))

-- Of a power of ten that is finer than a nanosecond, the timestamp is wrong: it counts each tick as a
-- nanosecond, so the time of the ticks, rounded down to nanoseconds, is the timestamp divided by the
-- ticks of a nanosecond.
pub correct_epb_timestamp-finer :
    (raw_ticks d : ℕ)
    → raw_ticks < 2 ^ 64
    → 9 + d < 0x80
    → (correct_epb_timestamp raw_ticks (some (9 + d)) ≡ raw_ticks)
      × (raw_ticks * 1_000_000_000 / ticks_per_second (some (9 + d))
          ≡ correct_epb_timestamp raw_ticks (some (9 + d)) / ten_pow d)
unfolding correct_epb_timestamp ticks_per_second
correct_epb_timestamp-finer raw_ticks d h small =
    let low : leb 0x80 (9 + d) ≡ false = ground arith in
    let nine : min (9 + d) 9 ≡ 9 = omega arith in
    let counted : correct_epb_timestamp raw_ticks (some (9 + d)) ≡ raw_ticks =
      rw (low, nine) (decimal_exact raw_ticks 9 h (omega arith) ∙ omega arith) in
    (
      counted,
      rw (counted, low, ten_pow-split d) (mul-div-mul_right raw_ticks (ten_pow d) (omega arith)),
    )
