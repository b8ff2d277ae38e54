-- ===== src/EkOutput/Values.antt =====
-- The writers of a dissector's values in src/ek_output.rs. `none` is the end of the fuel; a depth of
-- the tree takes one.
pub mod Grammar
pub mod Shape
use tlscap.Prelude.{
  ℕ, zero, suc, Bool, true, false, Option, none, some, List, [], ◌∷◌, ◌++◌, if◌then◌else◌, bytes_eq,
}
use tlscap.Text.{codes, replace, strip_prefix_or}
use tlscap.Text.Decimal.{decimal}
use tlscap.Fields.{FieldValue, uint, str, bytes, tree, FrameFields, Entries, end, entry, entries}
use tlscap.EkOutput.Json.{json_string}
use tlscap.EkOutput.Grouping.{Grouped, member, grouped_entries}

-- A text in front of one that may not come, and two of these.
abbrev pub before : List ℕ → Option (List ℕ) → Option (List ℕ)
before a none = none
before a (some b) = some (a ++ b)

abbrev pub both : Option (List ℕ) → Option (List ℕ) → Option (List ℕ)
both none b = none
both (some a) b = before a b

abbrev pub between : ℕ → Option (List ℕ) → ℕ → Option (List ℕ)
between open' none close = none
between open' (some a) close = some (open' ∷ (a ++ close ∷ []))

-- The comma in front of all but the first.
abbrev pub separator : Bool → List ℕ
separator true = []
separator false = b',' ∷ []

abbrev pub key : List ℕ → List ℕ
key name = json_string name ++ b':' ∷ []

-- `matches!(…, FieldValue::Tree(_))`
abbrev pub is_tree : FieldValue → Bool
is_tree (uint n) = false
is_tree (str s) = false
is_tree (bytes b) = false
is_tree (tree ff) = true

-- `strip_prefix(…).unwrap_or(name)`
abbrev pub short_name : List ℕ → List ℕ → List ℕ
short_name stripped_prefix name = strip_prefix_or stripped_prefix name name

-- The match of `write_map` on one leaf: the text of the wanted name, or what was found before.
abbrev assigned : List ℕ → List ℕ → FieldValue → Option (List ℕ) → Option (List ℕ)
assigned wanted short (uint n) old = old
assigned wanted short (str s) old = if bytes_eq short wanted then some s else old
assigned wanted short (bytes b) old = old
assigned wanted short (tree ff) old = old

-- The loop over the entries of one occurrence: `key` and `val`.
pub key_value :
    Entries → List ℕ → Option (List ℕ) → Option (List ℕ) → Option (List ℕ) × Option (List ℕ)
key_value end stripped_prefix k v = (k, v)
key_value (entry name value es) stripped_prefix k v =
    key_value es stripped_prefix (assigned (codes "name") (short_name stripped_prefix name) value k)
      (assigned (codes "value") (short_name stripped_prefix name) value v)

abbrev occurrence_pair : FieldValue → List ℕ → Option (List ℕ) × Option (List ℕ)
occurrence_pair (uint n) stripped_prefix = (none, none)
occurrence_pair (str s) stripped_prefix = (none, none)
occurrence_pair (bytes b) stripped_prefix = (none, none)
occurrence_pair (tree ff) stripped_prefix = key_value (entries ff) stripped_prefix none none

-- What is written of an occurrence, and the `first` behind it.
abbrev pub write_pair : Option (List ℕ) × Option (List ℕ) → Bool → List ℕ × Bool
write_pair (none, v) first = ([], first)
write_pair (some k, none) first = ([], first)
write_pair (some k, some v) first = ((separator first ++ key k) ++ json_string v, false)

pub write_pairs : List FieldValue → List ℕ → Bool → List ℕ
write_pairs [] stripped_prefix first = []
write_pairs (v ∷ vs) stripped_prefix first =
    let (text, first') = write_pair (occurrence_pair v stripped_prefix) first in
    text ++ write_pairs vs stripped_prefix first'

abbrev pub write_map : List FieldValue → List ℕ → List ℕ
write_map values prefix = b'{' ∷ (write_pairs values (prefix ++ b'.' ∷ []) true ++ b'}' ∷ [])

-- The writers that call one another stand as functions of the writer of one value.
pub write_separated : (FieldValue → Option (List ℕ)) → Bool → List FieldValue → Option (List ℕ)
write_separated write first [] = some []
write_separated write first (v ∷ vs) =
    both (before (separator first) (write v)) (write_separated write false vs)

abbrev pub write_value_or_array :
    (FieldValue → List ℕ → Option (List ℕ)) → List FieldValue → List ℕ → Option (List ℕ)
write_value_or_array write [] prefix = some (b'[' ∷ b']' ∷ [])
write_value_or_array write (v ∷ []) prefix =
    let array = between b'[' (write_separated (λ u. write u prefix) true (v ∷ [])) b']' in
    if is_tree v then array else write v prefix
write_value_or_array write (v ∷ u ∷ vs) prefix =
    between b'[' (write_separated (λ u. write u prefix) true (v ∷ u ∷ vs)) b']'

abbrev pub write_named_value :
    (FieldValue → List ℕ → Option (List ℕ))
    → List (List ℕ)
    → List ℕ
    → List FieldValue
    → List ℕ
    → Option (List ℕ)
write_named_value write map_fields short values prefix =
    if member short map_fields
    then some (write_map values prefix)
    else write_value_or_array write values prefix

-- The loop of `write_frame_fields_object` over the groups.
pub write_members :
    (FieldValue → List ℕ → Option (List ℕ))
    → List (List ℕ)
    → List ℕ
    → Bool
    → Grouped
    → Option (List ℕ)
write_members write map_fields stripped_prefix first [] = some []
write_members write map_fields stripped_prefix first ((name, values) ∷ groups) =
    let short = short_name stripped_prefix name in
    both
      (before (separator first ++ key (replace b'.' b'_' short))
        (write_named_value write map_fields short values name))
      (write_members write map_fields stripped_prefix false groups)

abbrev pub with_groups : (Grouped → Option (List ℕ)) → Option Grouped → Option (List ℕ)
with_groups f none = none
with_groups f (some groups) = f groups

abbrev pub write_frame_fields_object :
    (FieldValue → List ℕ → Option (List ℕ)) → List (List ℕ) → FrameFields → List ℕ → Option (List ℕ)
write_frame_fields_object write map_fields ff prefix =
    with_groups
      (λ groups.
        between b'{' (write_members write map_fields (prefix ++ b'.' ∷ []) true groups) b'}')
      (grouped_entries ff)

-- `hex::encode` of the hex crate is a parameter.
module _ (encode_hex : List ℕ → List ℕ) where
  pub write_field_value : ℕ → List (List ℕ) → FieldValue → List ℕ → Option (List ℕ)
  write_field_value fuel map_fields (uint n) prefix = some (decimal n)
  write_field_value fuel map_fields (str s) prefix = some (json_string s)
  write_field_value fuel map_fields (bytes b) prefix = some (json_string (encode_hex b))
  write_field_value zero map_fields (tree child) prefix = none
  write_field_value (suc fuel) map_fields (tree child) prefix =
      write_frame_fields_object (λ v p. write_field_value fuel map_fields v p) map_fields child
        prefix
