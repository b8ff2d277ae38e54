-- ===== src/Fields.antt =====
-- src/lua/tree.rs: the fields that a dissector records. The tree is the one that stands once the
-- dissector has returned, so the shared cells of the code are its nodes.
pub mod Leaves
pub mod Building
use tlscap.Prelude.{
  ℕ, ◌/◌, ◌%◌, Bool, true, false, Option, none, some, List, [], ◌∷◌, ◌++◌, if◌then◌else◌, bytes_eq,
}
use tlscap.Text.{hex_digit}
use tlscap.Text.Decimal.{decimal}

mutual
  pub data FieldValue : Type 0 where
    uint : ℕ → FieldValue
    str : List ℕ → FieldValue
    bytes : List ℕ → FieldValue
    tree : FrameFields → FieldValue

  -- The fields `entries`, `protocol`, `info` and `malformed`.
  pub data FrameFields : Type 0 where
    frame_fields : Entries → Option (List ℕ) → Option (List ℕ) → List (List ℕ) → FrameFields

  -- `Vec<(String, FieldValue)>`
  pub data Entries : Type 0 where
    end : Entries
    entry : List ℕ → FieldValue → Entries → Entries

abbrev pub entries : FrameFields → Entries
entries (frame_fields es protocol info malformed) = es

-- `FrameFields::default()`
abbrev pub empty : FrameFields
empty = frame_fields end none none []

pub hex_encode : List ℕ → List ℕ
hex_encode [] = []
hex_encode (b ∷ bs) = hex_digit (b / 16) ∷ hex_digit (b % 16) ∷ hex_encode bs

unfoldable pub to_output_string : FieldValue → List ℕ
to_output_string (uint v) = decimal v
to_output_string (str s) = s
to_output_string (bytes b) = hex_encode b
to_output_string (tree ff) = []

-- A match arm of the search: the value goes behind those found if the name is the one searched for.
abbrev pub push_if : Bool → FieldValue → List FieldValue → List FieldValue
push_if b v out = if b then out ++ v ∷ [] else out

unfoldable mutual
  pub collect_values_for : FrameFields → List ℕ → List FieldValue → List FieldValue
  collect_values_for (frame_fields es protocol info malformed) field_name out =
      collect_entries es field_name out

  pub collect_entries : Entries → List ℕ → List FieldValue → List FieldValue
  collect_entries end field_name out = out
  collect_entries (entry name v es) field_name out =
      collect_entries es field_name (collect_value name v field_name out)

  pub collect_value : List ℕ → FieldValue → List ℕ → List FieldValue → List FieldValue
  collect_value name (uint n) field_name out = push_if (bytes_eq name field_name) (uint n) out
  collect_value name (str s) field_name out = push_if (bytes_eq name field_name) (str s) out
  collect_value name (bytes b) field_name out = push_if (bytes_eq name field_name) (bytes b) out
  collect_value name (tree ff) field_name out = collect_values_for ff field_name out

unfoldable pub values_for : FrameFields → List ℕ → List FieldValue
values_for ff field_name = collect_values_for ff field_name []
