-- ===== src/EkOutput/Grouping.antt =====
-- `grouped_entries` of src/ek_output.rs, against the list of the distinct names.
pub mod Loop
pub mod Names
use tlscap.Prelude.{
  ℕ, ◌≡◌, refl, sym, ap, ap₂, ◌∙◌, Bool, true, false, not, ◌||◌, Option, none, some, List, [], ◌∷◌,
  ◌++◌, append_assoc, append-nil, map, if◌then◌else◌, bytes_eq, bytes_eq-Decides, get, put, get-put,
  Bool-cases, Option-cases, inl, inr,
}
use tlscap.Fields.{FieldValue, Entries, end, entry, FrameFields, entries}

abbrev pub Grouped : Type 0
Grouped = List (List ℕ × List FieldValue)

-- `contains_key`
abbrev pub is_some : Option (List FieldValue) → Bool
is_some none = false
is_some (some vs) = true

-- `or_default`
abbrev pub or_default : Option (List FieldValue) → List FieldValue
or_default none = []
or_default (some vs) = vs

-- `contains` of a set of names
abbrev pub member : List ℕ → List (List ℕ) → Bool
member name [] = false
member name (n ∷ ns) = bytes_eq n name || member name ns

-- `remove`
abbrev pub remove : List ℕ → Grouped → Grouped
remove name [] = []
remove name ((n, vs) ∷ m) =
    let rest = remove name m in if bytes_eq n name then rest else (n, vs) ∷ rest

-- The loop: the names in the order in which they were met, and the values of each.
pub group_loop : Entries → List (List ℕ) → Grouped → List (List ℕ) × Grouped
group_loop end order m = (order, m)
group_loop (entry name value es) order m =
    let values = get bytes_eq name m in
    group_loop es (if is_some values then order else order ++ name ∷ [])
      (put bytes_eq name (or_default values ++ value ∷ []) m)

-- `(name, map.remove(name).unwrap())`
abbrev pub push_group : List ℕ → Option (List FieldValue) → Option Grouped → Option Grouped
push_group name none rest = none
push_group name (some vs) none = none
push_group name (some vs) (some rest) = some ((name, vs) ∷ rest)

pub take_groups : List (List ℕ) → Grouped → Option Grouped
take_groups [] m = some []
take_groups (name ∷ order) m =
    push_group name (get bytes_eq name m) (take_groups order (remove name m))

abbrev collect_groups : List (List ℕ) × Grouped → Option Grouped
collect_groups (order, m) = take_groups order m

-- `none` stands for the panic of `unwrap`.
pub grouped_entries : FrameFields → Option Grouped
grouped_entries ff = collect_groups (group_loop (entries ff) [] [])

-- The names that were not seen before, each once, in the order of their first entries.
unfoldable pub first_names : List (List ℕ) → Entries → List (List ℕ)
first_names seen end = []
first_names seen (entry name value es) =
    let old = first_names seen es in
    let new = name ∷ first_names (seen ++ name ∷ []) es in if member name seen then old else new

-- The values of the entries with that name.
unfoldable pub occurrences : List ℕ → Entries → List FieldValue
occurrences name end = []
occurrences name (entry n value es) =
    let rest = occurrences name es in if bytes_eq n name then value ∷ rest else rest

unfoldable pub groups_of : Entries → List (List ℕ) → Grouped
groups_of es [] = []
groups_of es (name ∷ names) = (name, occurrences name es) ∷ groups_of es names
