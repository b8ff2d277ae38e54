-- ===== src/Fields/Building.antt =====
-- `TreeItem` of src/lua/tree.rs: how a dissector builds its fields. The shared accumulators are the
-- cells of a store, and a handle is the place of its accumulator in it.
mod Store
pub mod Numbers
mod Examples
use tlscap.Prelude.{
  ℕ, zero, suc, ◌+◌, Bool, true, false, Option, none, some, List, [], ◌∷◌, ◌++◌, length, get_elem?,
}
use tlscap.Fields.{
  FieldValue, uint, str, bytes, tree, FrameFields, frame_fields, Entries, end, entry,
}
use tlscap.Tvb.{ℤ, as_usize, TvbRange, range_bytes, parse_uint}

pub data FieldKind : Type 0 where
  uint_kind str_kind bytes_kind : FieldKind

pub record FieldDef : Type 0 where
  pub name : List ℕ
  pub kind : FieldKind

-- The values of Lua that the code tells apart. A float comes as its cast to `u64`, a string as the
-- bytes that it holds, a table with its text `name` if it has one.
pub data LuaValue : Type 0 where
  integer : ℤ → LuaValue
  number : ℕ → LuaValue
  string : List ℕ → LuaValue
  uint64 : ℕ → LuaValue
  tvb_range : TvbRange → LuaValue
  field_def : FieldDef → LuaValue
  table : Option (List ℕ) → LuaValue
  user_data other : LuaValue

-- What is recorded: a value, or the place of a child accumulator.
pub data Cell : Type 0 where
  leaf : FieldValue → Cell
  child : ℕ → Cell

-- The entries of each accumulator.
abbrev pub Accumulator : Type 0
Accumulator = List (List ℕ × Cell)

abbrev pub Store : Type 0
Store = List Accumulator

-- `push` onto the entries of the accumulator at a place.
unfoldable pub record_at : ℕ → List ℕ → Cell → Store → Store
record_at i name c [] = []
record_at zero name c (a ∷ store) = (a ++ (name, c) ∷ []) ∷ store
record_at (suc i) name c (a ∷ store) = a ∷ record_at i name c store

abbrev pub or_value : Option FieldValue → FieldValue → FieldValue
or_value none v = v
or_value (some u) v = u

abbrev or_zero : Option ℕ → ℕ
or_zero none = 0
or_zero (some n) = n

-- A handle of the store, an error that Lua gets, or a panic of a range that is out of its bytes.
pub data Added : Type 0 where
  added : Store → ℕ → Added
  lua_error panicked : Added

abbrev recorded : Store → ℕ → List ℕ → Option FieldValue → Added
recorded store this name none = panicked
recorded store this name (some v) = added (record_at this name (leaf v) store) this

-- `to_string_lossy` and `from_utf8_lossy` are a parameter: bytes to text.
module _ (lossy : List ℕ → List ℕ) where
  unfoldable pub value_from_lua : LuaValue → Option FieldValue
  value_from_lua (integer i) = some (uint (as_usize i))
  value_from_lua (number n) = some (uint n)
  value_from_lua (string s) = some (str (lossy s))
  value_from_lua (uint64 n) = some (uint n)
  value_from_lua (tvb_range r) = none
  value_from_lua (field_def f) = none
  value_from_lua (table name) = none
  value_from_lua user_data = none
  value_from_lua other = none

  -- The bytes of the range, unless they panic, as a value of the kind.
  abbrev kind_value : FieldKind → Bool → Option (List ℕ) → Option FieldValue
  kind_value kind little_endian none = none
  kind_value uint_kind little_endian (some b) = some (uint (or_zero (parse_uint b little_endian)))
  kind_value str_kind little_endian (some b) = some (str (lossy b))
  kind_value bytes_kind little_endian (some b) = some (bytes b)

  -- `value_from_tvbrange`, and with `true` `value_from_tvbrange_le`.
  pub value_from_tvbrange : TvbRange → FieldKind → Bool → Option FieldValue
  value_from_tvbrange range kind little_endian = kind_value kind little_endian (range_bytes range)

  -- The value given, or else the one that the range holds.
  abbrev given_or : Option FieldValue → TvbRange → FieldKind → Option FieldValue
  given_or none range kind = value_from_tvbrange range kind false
  given_or (some v) range kind = some v

  abbrev last_value : LuaValue → List LuaValue → LuaValue
  last_value v [] = v
  last_value v (u ∷ vs) = last_value u vs

  -- The value to record of a `ProtoField`; `none` is a panic. A single argument that is userdata is only
  -- read if it is a range, not if it is a `UInt64`.
  unfoldable pub field_value : FieldKind → Bool → List LuaValue → Option FieldValue
  field_value kind little_endian [] = some (uint 0)
  field_value kind little_endian (tvb_range r ∷ []) = value_from_tvbrange r kind little_endian
  field_value kind little_endian (uint64 n ∷ []) = some (uint 0)
  field_value kind little_endian (field_def f ∷ []) = some (uint 0)
  field_value kind little_endian (user_data ∷ []) = some (uint 0)
  field_value kind little_endian (v ∷ []) = some (or_value (value_from_lua v) (uint 0))
  field_value kind little_endian (tvb_range r ∷ v ∷ []) = given_or (value_from_lua v) r kind
  field_value kind little_endian (u ∷ v ∷ vs) =
      some (or_value (value_from_lua (last_value v vs)) (uint 0))

  -- `tree:add(first, …)` and, with `true`, `tree:add_le(first, …)`.
  unfoldable pub dispatch_add : Store → ℕ → List LuaValue → Bool → Added
  dispatch_add store this [] little_endian = lua_error
  dispatch_add store this (field_def f ∷ rest) little_endian =
      recorded store this f.name (field_value f.kind little_endian rest)
  dispatch_add store this (table (some name) ∷ rest) little_endian =
      added (record_at this name (child (length store)) store ++ [] ∷ []) (length store)
  dispatch_add store this (v ∷ rest) little_endian = added store this

-- The fields that an accumulator stands for, with its children read from the store. A level of the tree
-- takes one of the fuel.
abbrev push_entry : List ℕ → Option FieldValue → Option Entries → Option Entries
push_entry name none es = none
push_entry name (some v) none = none
push_entry name (some v) (some es) = some (entry name v es)

abbrev tree_of : Option Entries → Option FieldValue
tree_of none = none
tree_of (some es) = some (tree (frame_fields es none none []))

pub entries_with : (ℕ → Option Entries) → Accumulator → Option Entries
entries_with go [] = some end
entries_with go ((name, leaf v) ∷ cells) = push_entry name (some v) (entries_with go cells)
entries_with go ((name, child j) ∷ cells) = push_entry name (tree_of (go j)) (entries_with go cells)

abbrev pub read_cells : (Accumulator → Option Entries) → Option Accumulator → Option Entries
read_cells f none = none
read_cells f (some cells) = f cells

pub entries_of : ℕ → Store → Accumulator → Option Entries
entries_of zero store cells = entries_with (λ j. none) cells
entries_of (suc fuel) store cells =
    entries_with (λ j. read_cells (λ below. entries_of fuel store below) (get_elem? store j)) cells
