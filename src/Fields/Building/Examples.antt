-- ===== src/Fields/Building/Examples.antt =====
-- A number of the message is added to a subtree.
use tlscap.Prelude.{ℕ, ◌≡◌, refl, false, some, List, [], ◌∷◌, get_elem?, if◌then◌else◌, ◌==◌, arith}
use tlscap.Text.{codes}
use tlscap.Fields.Building.{uint_kind, FieldDef, leaf, child, Store, added}
use tlscap.Fields.{uint}
use tlscap.Fields.Building.Numbers.{add_part, add_part-Recorded}
use tlscap.Tvb.{pos, TvbRange, call_range}
use tlscap.Tvb.Windows.{IsView}

lossy : List ℕ → List ℕ
lossy s = s

-- A tree with a subtree "p" that is empty.
abbrev store : Store
store = ((codes "p", child 1) ∷ []) ∷ [] ∷ []

abbrev kind_field : FieldDef
kind_field = record { name = codes "p.kind"; kind = uint_kind }

-- The numbers 1, 0x0207 and 9, of which the view shows the first two.
abbrev view : TvbRange
view = record { data' = 5 ∷ 1 ∷ 2 ∷ 7 ∷ 9 ∷ []; range = record { start = 1; end = 4 } }

view-IsView : IsView view
view-IsView = record { order = omega arith; inside = omega arith; small = omega arith }

add_part-Recorded_example :
    (store' : Store) × (add_part lossy store 1 kind_field false
        (call_range view (pos 1) (some (pos 2)))
      ≡ added store' 1)
    × ((j : ℕ)
        → get_elem? store' j ≡ (
            if j == 1 then some ((codes "p.kind", leaf (uint 0x0207)) ∷ []) else get_elem? store j))
add_part-Recorded_example =
    add_part-Recorded lossy view (1 ∷ []) [] false 2 0x0207 kind_field store 1 [] view-IsView refl
      (omega arith) (omega arith) (omega arith) refl refl
