-- ===== src/Tvb/Examples.antt =====
-- The theorems on views at the last three of five bytes.
use tlscap.Prelude.{◌≡◌, refl, some, [], ◌∷◌, arith}
use tlscap.Tvb
use tlscap.Tvb.{pos, negsuc, TvbRange, call_range, range_bytes, parse_uint}
use tlscap.Tvb.Windows.{IsView, shown, part, bytes_of, as_i64, Holds, call_range-part}

abbrev view : TvbRange
view = record { data' = 1 ∷ 2 ∷ 3 ∷ 4 ∷ 5 ∷ []; range = record { start = 2; end = 5 } }

view-IsView : IsView view
view-IsView = record { order = omega arith; inside = omega arith; small = omega arith }

call_range-part_example :
    bytes_of (call_range view (pos 1) (as_i64 (some 2))) ≡ part (shown view) 1 (some 2)
unfolding Holds
call_range-part_example = call_range-part view 1 (some 2) view-IsView (omega arith) (omega arith)

call_range-part_test : bytes_of (call_range view (pos 1) (as_i64 (some 2))) ≡ some (4 ∷ 5 ∷ [])
unfolding call_range Tvb.slice range_bytes
call_range-part_test = refl
