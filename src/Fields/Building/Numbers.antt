-- ===== src/Fields/Building/Numbers.antt =====
-- What `tree:add(field, tvb(offset, length))` of src/lua/tree.rs and src/lua/tvb.rs records of a number
-- in the message.
use tlscap.Prelude.{
  ℕ, zero, suc, ◌/◌, ◌%◌, ◌^◌, ◌≤◌, ◌<◌, ◌≡◌, refl, sym, ap, ◌∙◌, Bool, true, false, Option, none,
  some, List, [], ◌∷◌, ◌++◌, ltb, ◌||◌, ◌==◌, if◌then◌else◌, length, get_elem?, length-append,
  Bool-cases, Option-cases, inl, inr, arith,
}
use native.Mathlib.Nat.{pow-suc}
use tlscap.Prelude.Words.{from_be, from_le, be_bytes, length-be_bytes, from_be-be_bytes}
use tlscap.Tvb.{pos, TvbRange, call_range, range_bytes, parse_uint}
use tlscap.Tvb.Windows.{
  IsView, shown, part, part-middle, length-shown, bytes_of, call_range-part, Holds,
  parse_uint-number,
}
use tlscap.Fields.{uint}
use tlscap.Fields.Building.{
  uint_kind, FieldDef, tvb_range, field_def, Cell, leaf, Accumulator, Store, record_at, Added,
  added, lua_error, field_value, value_from_tvbrange, dispatch_add,
}

-- A number in `k` bytes, the lowest first.
abbrev pub le_bytes : ℕ → ℕ → List ℕ
le_bytes zero n = []
le_bytes (suc k) n = (n % 256) ∷ le_bytes k (n / 256)

-- The number as the sender writes it.
abbrev pub written : Bool → ℕ → ℕ → List ℕ
written true k n = le_bytes k n
written false k n = be_bytes k n

from_le-le_bytes : (k n : ℕ) → n < 256 ^ k → from_le (le_bytes k n) ≡ n
from_le-le_bytes zero n h = omega arith
from_le-le_bytes (suc k) n h =
    omega (arith, from_le-le_bytes k (n / 256) (omega (arith, h, pow-suc 256 k)))

length-le_bytes : (k n : ℕ) → length (le_bytes k n) ≡ k
length-le_bytes zero n = refl
length-le_bytes (suc k) n = omega (arith, length-le_bytes k (n / 256))

length-written : (le : Bool) (k n : ℕ) → length (written le k n) ≡ k
length-written true k n = length-le_bytes k n
length-written false k n = length-be_bytes k n

from-written :
    (le : Bool) (k n : ℕ)
    → n < 256 ^ k
    → (if le then from_le (written le k n) else from_be 0 (written le k n)) ≡ n
from-written true k n h = from_le-le_bytes k n h
from-written false k n h = from_be-be_bytes k n h

-- The call of `add` or `add_le` with what the call of the view gave.
abbrev pub add_part : (List ℕ → List ℕ) → Store → ℕ → FieldDef → Bool → Option TvbRange → Added
add_part lossy store this f little_endian none = lua_error
add_part lossy store this f little_endian (some r) =
    dispatch_add lossy store this (field_def f ∷ tvb_range r ∷ []) little_endian

get_elem?-record_at :
    (i j : ℕ) (name : List ℕ) (c : Cell) (store : Store) (cells : Accumulator)
    → get_elem? store i ≡ some cells
    → get_elem? (record_at i name c store) j
      ≡ (if j == i then some (cells ++ (name, c) ∷ []) else get_elem? store j)
unfolding record_at
get_elem?-record_at i j name c [] cells e = absurd (cc)
get_elem?-record_at zero zero name c (a ∷ store) cells e = let same : a ≡ cells = cc in rw same refl
get_elem?-record_at zero (suc j) name c (a ∷ store) cells e =
    let other : suc j == zero ≡ false = ground arith in rw other refl
get_elem?-record_at (suc i) zero name c (a ∷ store) cells e =
    let other : zero == suc i ≡ false = ground arith in rw other refl
get_elem?-record_at (suc i) (suc j) name c (a ∷ store) cells e =
    let ih = get_elem?-record_at i j name c store cells e in
    elim (Bool-cases (j == i)) [
      | inl here ↦ let here' : suc j == suc i ≡ true = ground arith in rw here' (rw here at ih)
      | inr other ↦ let other' : suc j == suc i ≡ false = ground arith in rw other' (rw other at ih)
    ]

parse_uint-written :
    (le : Bool) (k n : ℕ) → 0 < k → k ≤ 8 → n < 256 ^ k → parse_uint (written le k n) le ≡ some n
parse_uint-written le k n pos' few small =
    let size = length-written le k n in
    let ok' : (length (written le k n) == 0) || ltb 8 (length (written le k n)) ≡ false =
      ground (arith, size) in
    parse_uint-number (written le k n) le ∙ rw ok' (ap some (from-written le k n small))

add_range-Recorded :
    (lossy : List ℕ → List ℕ) (r : TvbRange) (text : List ℕ) (little_endian : Bool) (n : ℕ)
    (f : FieldDef) (store : Store) (this : ℕ)
    → f.kind ≡ uint_kind
    → range_bytes r ≡ some text
    → parse_uint text little_endian ≡ some n
    → dispatch_add lossy store this (field_def f ∷ tvb_range r ∷ []) little_endian
      ≡ added (record_at this f.name (leaf (uint n)) store) this
unfolding dispatch_add field_value value_from_tvbrange
add_range-Recorded lossy r text little_endian n f store this kind is number =
    rw (kind, is, number) refl

-- A number that a peer wrote in one to eight bytes somewhere in the message, and that a dissector adds
-- with `tree:add(field, tvb(offset, length))`, or with `add_le` if its lowest byte comes first, is the
-- number that is recorded: under the name of the field, behind what the accumulator of the handle held,
-- while every other accumulator stays as it is. The field is one for numbers, and the view is in order,
-- within its bytes and shorter than 2 ^ 63.
pub add_part-Recorded :
    (lossy : List ℕ → List ℕ) (t : TvbRange) (before after : List ℕ) (little_endian : Bool)
    (k n : ℕ) (f : FieldDef) (store : Store) (this : ℕ) (cells : Accumulator)
    → IsView t
    → f.kind ≡ uint_kind
    → 0 < k
    → k ≤ 8
    → n < 256 ^ k
    → shown t ≡ before ++ (written little_endian k n ++ after)
    → get_elem? store this ≡ some cells
    → (store' : Store) × (add_part lossy store this f little_endian
          (call_range t (pos (length before)) (some (pos k)))
        ≡ added store' this)
      × ((j : ℕ)
          → get_elem? store' j ≡ (
              if j == this
              then some (cells ++ (f.name, leaf (uint n)) ∷ [])
              else get_elem? store j))
unfolding Holds
add_part-Recorded lossy t before after little_endian k n f store this cells v kind some' few small
      message there =
    let text = written little_endian k n in
    let size = length-written little_endian k n in
    let shows : bytes_of (call_range t (pos (length before)) (some (pos k))) ≡ some text =
      call_range-part t (length before) (some k) v
        (omega (
          arith,
          length-shown t v,
          ap length message,
          length-append before (text ++ after),
          v.inside,
          v.small,
        ))
        (omega arith)
      ∙ ap (λ x. part x (length before) (some k)) message
      ∙ ap (λ m. part (before ++ (text ++ after)) (length before) (some m)) (sym size)
      ∙ part-middle before text after in
    elim (Option-cases (call_range t (pos (length before)) (some (pos k)))) [
      | inl e ↦ let none' : none ≡ some text = rw e at shows in absurd (cc)
      | inr (r, e) ↦
          let is : range_bytes r ≡ some text = rw e at shows in
          (
            record_at this f.name (leaf (uint n)) store,
            rw e (
                add_range-Recorded lossy r text little_endian n f store this kind is
                  (parse_uint-written little_endian k n some' few small)),
            λ j. get_elem?-record_at this j f.name (leaf (uint n)) store cells there,
          )
    ]
