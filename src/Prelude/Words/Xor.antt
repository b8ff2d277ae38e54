-- ===== src/Prelude/Words/Xor.antt =====
-- Bytewise exclusive or.
use Prim.Native.Nat.{ℕ, zero, suc, ◌*◌, ◌+◌, ◌/◌, ◌%◌, ◌<◌, bit_xor}
use mathlib.Core.Path.{◌≡◌, refl, ap, ◌∙◌, sym}
use mathlib.Core.Bool.{Bool, true, ◌&&◌}
use native.Mathlib.Omega.{arith}
use tlscap.Prelude.Tests.{◌==◌, ==_iff}

all_below : ℕ → (ℕ → Bool) → Bool
all_below zero p = true
all_below (suc n) p = p n && all_below n p

all_below_sound : (n x : ℕ) (p : ℕ → Bool) → all_below n p ≡ true → x < n → p x ≡ true
unfolding all_below
all_below_sound zero x p h lt = absurd (omega arith)
all_below_sound (suc n) x p h lt = ground (arith, all_below_sound n x p)

xor_table : all_below 65536 (λ x. bit_xor (x / 256) (bit_xor (x / 256) (x % 256)) == x % 256) ≡ true
unfolding all_below
xor_table = refl

pub bit_xor_twice : (x a : ℕ) → x < 256 → a < 256 → bit_xor x (bit_xor x a) ≡ a
bit_xor_twice x a hx ha =
    let d : (x * 256 + a) / 256 ≡ x = omega arith in
    let m : (x * 256 + a) % 256 ≡ a = omega arith in
    rw (d, m) at
      ((==_iff _ _).0 (
        all_below_sound 65536 (x * 256 + a)
          (λ y. bit_xor (y / 256) (bit_xor (y / 256) (y % 256)) == y % 256) xor_table
          (omega arith)))

pub bit_xor-injective :
    (x a b : ℕ) → x < 256 → a < 256 → b < 256 → bit_xor x a ≡ bit_xor x b → a ≡ b
bit_xor-injective x a b hx ha hb e =
    sym (bit_xor_twice x a hx ha) ∙ ap (bit_xor x) e ∙ bit_xor_twice x b hx hb
