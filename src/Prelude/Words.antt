-- ===== src/Prelude/Words.antt =====
-- Machine words as native numbers with their wrap-around written out, and their bytes.
mod Xor
pub use Xor.*
use Prim.Native.Nat.{ℕ, zero, suc, ◌+◌, ◌-◌, ◌*◌, ◌/◌, ◌%◌, ◌^◌, ◌<◌}
use mathlib.Core.Path.{◌≡◌, refl, ap, ◌∙◌, sym}
use mathlib.Core.List.{List, [], ◌∷◌, ◌++◌}
use native.Mathlib.Omega.{arith}
use native.Mathlib.Nat.{pow-suc}
use tlscap.Prelude.Lists.{length, length-append}

abbrev pub u32_mod : ℕ
u32_mod = 2 ^ 32

-- `u32::wrapping_add`, `u32::wrapping_sub`
abbrev pub wrapping_add : ℕ → ℕ → ℕ
wrapping_add a b = (a + b) % u32_mod

abbrev pub wrapping_sub : ℕ → ℕ → ℕ
wrapping_sub a b = (a + u32_mod - b) % u32_mod

-- The casts `as u8` and `as u16`.
abbrev pub as_u8 : ℕ → ℕ
as_u8 n = n % 256

abbrev pub as_u16 : ℕ → ℕ
as_u16 n = n % 65536

-- `to_be_bytes` of a word of `k` bytes.
abbrev pub be_bytes : ℕ → ℕ → List ℕ
be_bytes zero n = []
be_bytes (suc k) n = be_bytes k (n / 256) ++ n % 256 ∷ []

-- `from_be_bytes`, after the number `acc`.
abbrev pub from_be : ℕ → List ℕ → ℕ
from_be acc [] = acc
from_be acc (b ∷ bs) = from_be (acc * 256 + b) bs

abbrev pub from_le : List ℕ → ℕ
from_le [] = 0
from_le (b ∷ bs) = b + 256 * from_le bs

-- Every byte is one.
abbrev pub Bytes : List ℕ → Type 0
Bytes [] = Unit {0}
Bytes (b ∷ bs) = (b < 256) × Bytes bs

pub length-be_bytes : (k n : ℕ) → length (be_bytes k n) ≡ k
length-be_bytes zero n = refl
length-be_bytes (suc k) n =
    omega (arith, length-append (be_bytes k (n / 256)) (n % 256 ∷ []), length-be_bytes k (n / 256))

Bytes-append : (xs ys : List ℕ) → Bytes xs → Bytes ys → Bytes (xs ++ ys)
Bytes-append [] ys h k = k
Bytes-append (x ∷ xs) ys h k = (h.0, Bytes-append xs ys h.1 k)

pub be_bytes-Bytes : (k n : ℕ) → Bytes (be_bytes k n)
be_bytes-Bytes zero n = tt
be_bytes-Bytes (suc k) n =
    Bytes-append (be_bytes k (n / 256)) (n % 256 ∷ []) (be_bytes-Bytes k (n / 256))
      (omega arith, tt)

from_be-append :
    (acc : ℕ) (xs : List ℕ) (y : ℕ) → from_be acc (xs ++ y ∷ []) ≡ from_be acc xs * 256 + y
from_be-append acc [] y = refl
from_be-append acc (x ∷ xs) y = from_be-append (acc * 256 + x) xs y

-- The number of a word's bytes is the word, modulo its width.
pub from_be-be_bytes : (k n : ℕ) → n < 256 ^ k → from_be 0 (be_bytes k n) ≡ n
from_be-be_bytes zero n h = omega arith
from_be-be_bytes (suc k) n h =
    from_be-append 0 (be_bytes k (n / 256)) (n % 256)
    ∙ ap (λ m. m * 256 + n % 256) (from_be-be_bytes k (n / 256) (omega (arith, h, pow-suc 256 k)))
    ∙ omega arith

pub be_bytes-injective :
    (k m n : ℕ) → m < 256 ^ k → n < 256 ^ k → be_bytes k m ≡ be_bytes k n → m ≡ n
be_bytes-injective k m n hm hn e =
    sym (from_be-be_bytes k m hm) ∙ ap (from_be 0) e ∙ from_be-be_bytes k n hn
