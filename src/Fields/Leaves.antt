-- ===== src/Fields/Leaves.antt =====
-- The search of src/lua/tree.rs against the flat list of the leaves.
use tlscap.Prelude.{
  ℕ, ◌≡◌, refl, sym, ap, ◌∙◌, Bool, true, false, List, [], ◌∷◌, ◌++◌, append_assoc, append-nil,
  if◌then◌else◌, bytes_eq, Bool-cases, inl, inr,
}
use tlscap.Fields.{
  FieldValue, uint, str, bytes, tree, FrameFields, frame_fields, Entries, end, entry, push_if,
  collect_values_for, collect_entries, collect_value, values_for,
}

-- Every value that is no subtree, with its name, from the first to the last, at any depth.
mutual
  pub leaves : FrameFields → List (List ℕ × FieldValue)
  leaves (frame_fields es protocol info malformed) = leaves_entries es

  pub leaves_entries : Entries → List (List ℕ × FieldValue)
  leaves_entries end = []
  leaves_entries (entry name v es) = leaves_value name v ++ leaves_entries es

  pub leaves_value : List ℕ → FieldValue → List (List ℕ × FieldValue)
  leaves_value name (uint n) = (name, uint n) ∷ []
  leaves_value name (str s) = (name, str s) ∷ []
  leaves_value name (bytes b) = (name, bytes b) ∷ []
  leaves_value name (tree ff) = leaves ff

-- The values with this name.
pub named : List ℕ → List (List ℕ × FieldValue) → List FieldValue
named field_name [] = []
named field_name ((name, v) ∷ rest) =
    let later = named field_name rest in if bytes_eq name field_name then v ∷ later else later

named-append :
    (field_name : List ℕ) (xs ys : List (List ℕ × FieldValue))
    → named field_name (xs ++ ys) ≡ named field_name xs ++ named field_name ys
unfolding named
named-append field_name [] ys = refl
named-append field_name ((name, v) ∷ xs) ys =
    let ih = named-append field_name xs ys in
    elim (Bool-cases (bytes_eq name field_name)) [
      | inl e ↦ rw e (ap (λ (vs : List FieldValue). v ∷ vs) ih)
      | inr e ↦ rw e ih
    ]

push_if-named :
    (b : Bool) (v : FieldValue) (out : List FieldValue)
    → push_if b v out ≡ out ++ (if b then v ∷ [] else [])
push_if-named true v out = refl
push_if-named false v out = sym (append-nil out)

mutual
  unfolding collect_values_for leaves named

  collect_values_for-leaves :
      (ff : FrameFields) (field_name : List ℕ) (out : List FieldValue)
      → collect_values_for ff field_name out ≡ out ++ named field_name (leaves ff)
  collect_values_for-leaves (frame_fields es protocol info malformed) field_name out =
      collect_entries-leaves es field_name out

  collect_entries-leaves :
      (es : Entries) (field_name : List ℕ) (out : List FieldValue)
      → collect_entries es field_name out ≡ out ++ named field_name (leaves_entries es)
  collect_entries-leaves end field_name out = sym (append-nil out)
  collect_entries-leaves (entry name v es) field_name out =
      collect_entries-leaves es field_name (collect_value name v field_name out)
      ∙ ap (λ (o : List FieldValue). o ++ named field_name (leaves_entries es))
          (collect_value-leaves name v field_name out)
      ∙ append_assoc out (named field_name (leaves_value name v))
          (named field_name (leaves_entries es))
      ∙ ap (λ (o : List FieldValue). out ++ o)
          (sym (named-append field_name (leaves_value name v) (leaves_entries es)))

  collect_value-leaves :
      (name : List ℕ) (v : FieldValue) (field_name : List ℕ) (out : List FieldValue)
      → collect_value name v field_name out ≡ out ++ named field_name (leaves_value name v)
  collect_value-leaves name (uint n) field_name out =
      push_if-named (bytes_eq name field_name) (uint n) out
  collect_value-leaves name (str s) field_name out =
      push_if-named (bytes_eq name field_name) (str s) out
  collect_value-leaves name (bytes b) field_name out =
      push_if-named (bytes_eq name field_name) (bytes b) out
  collect_value-leaves name (tree ff) field_name out = collect_values_for-leaves ff field_name out

-- The search finds the values of all leaves with the name, at any depth, in the order in which a
-- reading from the first to the last meets them.
pub values_for-leaves :
    (ff : FrameFields) (field_name : List ℕ)
    → values_for ff field_name ≡ named field_name (leaves ff)
unfolding values_for
values_for-leaves ff field_name = collect_values_for-leaves ff field_name []
