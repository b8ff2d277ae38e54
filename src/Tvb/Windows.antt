-- ===== src/Tvb/Windows.antt =====
-- What a slice of a view shows, and the numbers that are read from it.
use tlscap.Prelude.{
  ℕ, zero, suc, min, ◌+◌, ◌-◌, ◌*◌, ◌%◌, ◌^◌, ◌≤◌, ◌<◌, ◌≡◌, refl, sym, ap, ◌∙◌, Bool, true, false,
  ◌&&◌, ◌||◌, Option, none, some, List, [], ◌∷◌, ◌++◌, leb, ltb, ◌==◌, if◌then◌else◌, length, take,
  drop, replicate, take-all, take-append, drop-append, drop-all, append-nil, length-append,
  length-take, length-drop, drop-drop, drop-take, take-take, Bool-cases, inl, inr, arith,
}
use tlscap.Prelude
use tlscap.Prelude.Words.{from_be, from_le}
use tlscap.Tvb.{ℤ, pos, negsuc, add_usize, TvbRange, slice, call_range, range_bytes, parse_uint}

-- A view is in order and within its bytes, which are few enough for a `usize` not to wrap.
pub record IsView (t : TvbRange) : Type 0 where
  pub order : t.range.start ≤ t.range.end
  pub inside : t.range.end ≤ length t.data'
  pub small : length t.data' < 2 ^ 63

-- What the view shows.
abbrev pub shown : TvbRange → List ℕ
shown t = Prelude.slice t.data' t.range.start t.range.end

-- The part of a text at an offset, of a length or to the end, if it lies within the text.
pub part : List ℕ → ℕ → Option ℕ → Option (List ℕ)
part text offset none = if leb offset (length text) then some (drop offset text) else none
part text offset (some len) =
    if leb (offset + len) (length text) then some (take len (drop offset text)) else none

-- The part where a text stands in another.
pub part-middle :
    (before text after : List ℕ)
    → part (before ++ (text ++ after)) (length before) (some (length text)) ≡ some text
unfolding part
part-middle before text after =
    let size = length-append before (text ++ after) in
    let size' = length-append text after in
    let fits : leb (length before + length text) (length (before ++ (text ++ after))) ≡ true =
      ground (arith, size, size') in
    let z : length before - length before ≡ 0 = omega arith in
    let z' : length text - length text ≡ 0 = omega arith in
    let behind : drop (length before) (before ++ (text ++ after)) ≡ text ++ after =
      drop-append (length before) before (text ++ after)
      ∙ rw (drop-all (length before) before (omega arith), z) refl in
    rw (fits, behind, take-append (length text) text after, z')
      (ap some (ap (λ x. x ++ []) (take-all (length text) text (omega arith)) ∙ append-nil text))

abbrev pub bytes_of : Option TvbRange → Option (List ℕ)
bytes_of none = none
bytes_of (some t) = range_bytes t

abbrev pub as_i64 : Option ℕ → Option ℤ
as_i64 none = none
as_i64 (some l) = some (pos l)

-- A length that an `i64` holds.
unfoldable pub Holds : Option ℕ → Type 0
Holds none = Unit {0}
Holds (some l) = l < 2 ^ 63

pub length-shown : (t : TvbRange) → IsView t → length (shown t) ≡ t.range.end - t.range.start
length-shown t v =
    let order = v.order in
    let inside = v.inside in
    omega (
      arith,
      length-take (t.range.end - t.range.start) (drop t.range.start t.data'),
      length-drop t.range.start t.data',
    )

-- A slice whose end is not past the window.
slice_within :
    (t : TvbRange) (o len : ℕ)
    → IsView t
    → o + len ≤ t.range.end - t.range.start
    → range_bytes (record {
      data' = t.data';
      range = record {
        start = add_usize t.range.start (o % 2 ^ 64);
        end = add_usize (add_usize t.range.start (o % 2 ^ 64)) len;
      };
    })
      ≡ some (take len (drop o (shown t)))
unfolding range_bytes
slice_within t o len v h =
    let order = v.order in
    let inside = v.inside in
    let small = v.small in
    let start : add_usize t.range.start (o % 2 ^ 64) ≡ t.range.start + o = omega arith in
    let end' : add_usize (t.range.start + o) len ≡ t.range.start + o + len = omega arith in
    let ok : leb (t.range.start + o) (t.range.start + o + len)
          && leb (t.range.start + o + len) (length t.data')
        ≡ true =
      ground arith in
    let span : t.range.start + o + len - (t.range.start + o) ≡ len = omega arith in
    let size : min len (t.range.end - t.range.start - o) ≡ len = omega arith in
    rw (start, end', ok, span)
      (ap some (
        sym (
          ap (take len) (drop-take o (t.range.end - t.range.start) (drop t.range.start t.data'))
          ∙ take-take len (t.range.end - t.range.start - o) (drop o (drop t.range.start t.data'))
          ∙ ap (λ n. take n (drop o (drop t.range.start t.data'))) size
          ∙ ap (take len) (drop-drop o t.range.start t.data'))))

-- A call of a view with an offset that is not negative, and with a length that is not negative or with
-- none, gives exactly the part of what the view shows: the offset counts from the start of the view, no
-- length reaches to its end, and a part that does not lie in the view is an error. No byte is read from
-- outside of the view, and no index is out of range.
pub call_range-part :
    (t : TvbRange) (offset : ℕ) (len : Option ℕ)
    → IsView t
    → offset < 2 ^ 63
    → Holds len
    → bytes_of (call_range t (pos offset) (as_i64 len)) ≡ part (shown t) offset len
unfolding call_range slice part Holds
call_range-part t offset none v h k =
    let size = length-shown t v in
    let order = v.order in
    let inside = v.inside in
    let small = v.small in
    let base_len = t.range.end - t.range.start in
    elim (Bool-cases (leb offset (length (shown t)))) [
      | inl e ↦
          let fits : offset ≤ length (shown t) = ground arith in
          let rest : base_len - offset % 2 ^ 64 ≡ base_len - offset = omega arith in
          let ok : ltb base_len (add_usize (offset % 2 ^ 64) (base_len - offset)) ≡ false =
            ground (arith, size) in
          let all : take (base_len - offset) (drop offset (shown t)) ≡ drop offset (shown t) =
            take-all (base_len - offset) (drop offset (shown t))
              (omega (arith, length-drop offset (shown t), size)) in
          rw (e, rest, ok)
            (slice_within t offset (base_len - offset) v (omega (arith, size)) ∙ ap some all)
      | inr e ↦
          let past : length (shown t) < offset = ground arith in
          let fails : ltb base_len (add_usize (offset % 2 ^ 64) (base_len - offset % 2 ^ 64))
              ≡ true =
            ground (arith, size) in
          rw (e, fails)
    ]
call_range-part t offset (some len) v h k =
    let size = length-shown t v in
    let order = v.order in
    let inside = v.inside in
    let small = v.small in
    let base_len = t.range.end - t.range.start in
    let l : len % 2 ^ 64 ≡ len = omega arith in
    elim (Bool-cases (leb (offset + len) (length (shown t)))) [
      | inl e ↦
          let fits : offset + len ≤ length (shown t) = ground arith in
          let ok : ltb base_len (add_usize (offset % 2 ^ 64) len) ≡ false = ground (arith, size) in
          rw (e, l, ok) (slice_within t offset len v (omega (arith, size)))
      | inr e ↦
          let past : length (shown t) < offset + len = ground arith in
          let fails : ltb base_len (add_usize (offset % 2 ^ 64) len) ≡ true =
            ground (arith, size) in
          rw (e, l, fails)
    ]

-- A negative offset is not refused when the length reaches back to the start of the view: the call then
-- gives the range in front of the view.
pub call_range-negative :
    (t : TvbRange) (n : ℕ)
    → IsView t
    → suc n ≤ t.range.start
    → call_range t (negsuc n) (some (pos (suc n)))
      ≡ some (record {
        data' = t.data';
        range = record { start = t.range.start - suc n; end = t.range.start };
      })
unfolding call_range slice
call_range-negative t n v h =
    let order = v.order in
    let inside = v.inside in
    let small = v.small in
    let o : 2 ^ 64 - (n + 1) ≡ 2 ^ 64 - suc n = omega arith in
    let sum : add_usize (2 ^ 64 - (n + 1)) (suc n % 2 ^ 64) ≡ 0 = omega arith in
    let start : add_usize t.range.start (2 ^ 64 - (n + 1)) ≡ t.range.start - suc n = omega arith in
    let end' : add_usize (t.range.start - suc n) (suc n % 2 ^ 64) ≡ t.range.start = omega arith in
    let ok : ltb (t.range.end - t.range.start) 0 ≡ false = ground arith in rw (sum, start, end', ok)

from_le-zeros : (bs : List ℕ) (k : ℕ) → from_le (bs ++ replicate k 0) ≡ from_le bs
from_le-zeros [] zero = refl
from_le-zeros [] (suc k) = omega (arith, from_le-zeros [] k)
from_le-zeros (b ∷ bs) k = omega (arith, from_le-zeros bs k)

from_be-zeros : (k : ℕ) (bs : List ℕ) → from_be 0 (replicate k 0 ++ bs) ≡ from_be 0 bs
from_be-zeros zero bs = refl
from_be-zeros (suc k) bs = from_be-zeros k bs

-- A range of one to eight bytes is the number that its bytes stand for, in either order of bytes, and
-- any other length is an error.
pub parse_uint-number :
    (bytes : List ℕ) (little_endian : Bool)
    → parse_uint bytes little_endian ≡ (
        if (length bytes == 0) || ltb 8 (length bytes)
        then none
        else some (if little_endian then from_le bytes else from_be 0 bytes))
unfolding parse_uint
parse_uint-number bytes true =
    ap (λ n. if (length bytes == 0) || ltb 8 (length bytes) then none else some n)
      (from_le-zeros bytes (8 - length bytes))
parse_uint-number bytes false =
    ap (λ n. if (length bytes == 0) || ltb 8 (length bytes) then none else some n)
      (from_be-zeros (8 - length bytes) bytes)
