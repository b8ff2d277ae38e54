-- ===== src/EkOutput/Values/Shape.antt =====
-- What the writers of values write is JSON, and a fuel of the count of subtrees is enough.
use tlscap.Prelude.{
  ℕ, zero, suc, ◌+◌, ◌≤◌, ◌≡◌, refl, ap, ap₂, ◌∙◌, Bool, true, false, Option, none, some, List, [],
  ◌∷◌, ◌++◌, bytes_eq, Bool-cases, inl, inr, arith,
}
use tlscap.Text.{replace}
use tlscap.Fields.{
  FieldValue, uint, str, bytes, tree, FrameFields, frame_fields, Entries, end, entry,
}
use tlscap.Text.Decimal.{decimal}
use tlscap.EkOutput.Json.{json_string}
use tlscap.EkOutput.Grouping.{Grouped, member, groups_of, occurrences, first_names}
use tlscap.EkOutput.Grouping.Names.{grouped_entries-groups_of}
use tlscap.EkOutput.Values.{
  before, both, between, separator, key, is_tree, short_name, write_pair, write_pairs,
  occurrence_pair, write_map, write_separated, write_value_or_array, write_named_value,
  write_members, with_groups, write_field_value,
}
use tlscap.EkOutput.Values.Grammar.{
  IsJson, number, string, array, object, IsElements, no_elements, element, IsMembers, no_members,
  member_of,
}

-- The count of the trees in a value, at any depth.
unfoldable mutual
  pub subtrees : FieldValue → ℕ
  subtrees (uint n) = 0
  subtrees (str s) = 0
  subtrees (bytes b) = 0
  subtrees (tree ff) = suc (subtrees_of ff)

  pub subtrees_of : FrameFields → ℕ
  subtrees_of (frame_fields es protocol info malformed) = subtrees_in es

  pub subtrees_in : Entries → ℕ
  subtrees_in end = 0
  subtrees_in (entry name v es) = subtrees v + subtrees_in es

-- A text comes, of the shape that `P` tells.
pub record Writes (P : List ℕ → Type 0) (o : Option (List ℕ)) : Type 0 where
  pub text : List ℕ
  pub is : o ≡ some text
  pub holds : P text

abbrev Bound : ℕ → List FieldValue → Type 0
Bound fuel [] = Unit {0}
Bound fuel (v ∷ vs) = (subtrees v ≤ fuel) × Bound fuel vs

-- The writer of one value writes JSON, for values of no more subtrees than the bound.
abbrev WritesJson : ℕ → (FieldValue → List ℕ → Option (List ℕ)) → Type 0
WritesJson fuel write =
    (v : FieldValue) (prefix : List ℕ) → subtrees v ≤ fuel → Writes IsJson (write v prefix)

occurrences-Bound :
    (name : List ℕ) (es : Entries) (fuel : ℕ)
    → subtrees_in es ≤ fuel
    → Bound fuel (occurrences name es)
unfolding occurrences subtrees_in
occurrences-Bound name end fuel h = tt
occurrences-Bound name (entry n v es) fuel h =
    let rest = occurrences-Bound name es fuel (omega arith) in
    elim (Bool-cases (bytes_eq n name)) [ inl e ↦ rw e (omega arith, rest) | inr e ↦ rw e rest ]

write_pair-IsMembers :
    (pair : Option (List ℕ) × Option (List ℕ)) (first : Bool) (rest : List ℕ)
    → IsMembers (write_pair pair first).1 rest
    → IsMembers first ((write_pair pair first).0 ++ rest)
write_pair-IsMembers (none, v) first rest m = m
write_pair-IsMembers (some k, none) first rest m = m
write_pair-IsMembers (some k, some v) first rest m =
    member_of first k (json_string v) rest (string v) m

write_pairs-IsMembers :
    (vs : List FieldValue) (stripped_prefix : List ℕ) (first : Bool)
    → IsMembers first (write_pairs vs stripped_prefix first)
unfolding write_pairs
write_pairs-IsMembers [] stripped_prefix first = no_members first
write_pairs-IsMembers (v ∷ vs) stripped_prefix first =
    write_pair-IsMembers (occurrence_pair v stripped_prefix) first _ (
      write_pairs-IsMembers vs stripped_prefix
        (write_pair (occurrence_pair v stripped_prefix) first).1)

write_separated-IsElements :
    (fuel : ℕ) (write : FieldValue → List ℕ → Option (List ℕ)) (prefix : List ℕ) (first : Bool)
    (vs : List FieldValue)
    → WritesJson fuel write
    → Bound fuel vs
    → Writes (IsElements first) (write_separated (λ v. write v prefix) first vs)
unfolding write_separated
write_separated-IsElements fuel write prefix first [] w b = record {
  text = [];
  is = refl;
  holds = no_elements first;
}
write_separated-IsElements fuel write prefix first (v ∷ vs) w b =
    let head = w v prefix b.0 in
    let rest = write_separated-IsElements fuel write prefix false vs w b.1 in
    record {
      text = (separator first ++ head.text) ++ rest.text;
      is = ap₂ (λ a r. both (before (separator first) a) r) head.is rest.is;
      holds = element first head.text rest.text head.holds rest.holds;
    }

array_of : (o : Option (List ℕ)) → Writes (IsElements true) o → Writes IsJson (between b'[' o b']')
array_of o w = record {
  text = b'[' ∷ (w.text ++ b']' ∷ []);
  is = ap (λ a. between b'[' a b']') w.is;
  holds = array w.text w.holds;
}

write_value_or_array-IsJson :
    (fuel : ℕ) (write : FieldValue → List ℕ → Option (List ℕ)) (vs : List FieldValue)
    (prefix : List ℕ)
    → WritesJson fuel write
    → Bound fuel vs
    → Writes IsJson (write_value_or_array write vs prefix)
write_value_or_array-IsJson fuel write [] prefix w b = record {
  text = b'[' ∷ b']' ∷ [];
  is = refl;
  holds = array [] (no_elements true);
}
write_value_or_array-IsJson fuel write (v ∷ []) prefix w b =
    let elements = write_separated-IsElements fuel write prefix true (v ∷ []) w b in
    elim (Bool-cases (is_tree v)) [
      | inl e ↦ rw e (array_of _ elements)
      | inr e ↦ rw e (w v prefix b.0)
    ]
write_value_or_array-IsJson fuel write (v ∷ u ∷ vs) prefix w b =
    array_of _ (write_separated-IsElements fuel write prefix true (v ∷ u ∷ vs) w b)

pub write_named_value-IsJson :
    (fuel : ℕ) (write : FieldValue → List ℕ → Option (List ℕ)) (map_fields : List (List ℕ))
    (short : List ℕ) (es : Entries) (name prefix : List ℕ)
    → WritesJson fuel write
    → subtrees_in es ≤ fuel
    → Writes IsJson (write_named_value write map_fields short (occurrences name es) prefix)
write_named_value-IsJson fuel write map_fields short es name prefix w h =
    let values = occurrences name es in
    elim (Bool-cases (member short map_fields)) [
      | inl e ↦ rw e (record {
        text = write_map values prefix;
        is = refl;
        holds = object _ (write_pairs-IsMembers values (prefix ++ b'.' ∷ []) true);
      })
      | inr e ↦ rw e (
          write_value_or_array-IsJson fuel write values prefix w (occurrences-Bound name es fuel h))
    ]

write_members-IsMembers :
    (fuel : ℕ) (write : FieldValue → List ℕ → Option (List ℕ)) (map_fields : List (List ℕ))
    (stripped_prefix : List ℕ) (first : Bool) (es : Entries) (names : List (List ℕ))
    → WritesJson fuel write
    → subtrees_in es ≤ fuel
    → Writes
        (IsMembers first)
        (write_members write map_fields stripped_prefix first (groups_of es names))
unfolding write_members groups_of
write_members-IsMembers fuel write map_fields stripped_prefix first es [] w h = record {
  text = [];
  is = refl;
  holds = no_members first;
}
write_members-IsMembers fuel write map_fields stripped_prefix first es (name ∷ names) w h =
    let short = short_name stripped_prefix name in
    let value = write_named_value-IsJson fuel write map_fields short es name name w h in
    let rest = write_members-IsMembers fuel write map_fields stripped_prefix false es names w h in
    let shown = replace b'.' b'_' short in
    record {
      text = ((separator first ++ key shown) ++ value.text) ++ rest.text;
      is = ap₂ (λ a r. both (before (separator first ++ key shown) a) r) value.is rest.is;
      holds = member_of first shown value.text rest.text value.holds rest.holds;
    }

-- A value is written as a JSON value, whatever it is and holds, and the writing ends: it takes no
-- more rounds than there are subtrees in the value.
pub write_field_value-IsJson :
    (encode_hex : List ℕ → List ℕ) (fuel : ℕ) (map_fields : List (List ℕ)) (v : FieldValue)
    (prefix : List ℕ)
    → subtrees v ≤ fuel
    → Writes IsJson (write_field_value encode_hex fuel map_fields v prefix)
unfolding write_field_value subtrees subtrees_of
write_field_value-IsJson encode_hex fuel map_fields (uint n) prefix h = record {
  text = decimal n;
  is = refl;
  holds = number n;
}
write_field_value-IsJson encode_hex fuel map_fields (str s) prefix h = record {
  text = json_string s;
  is = refl;
  holds = string s;
}
write_field_value-IsJson encode_hex fuel map_fields (bytes b) prefix h = record {
  text = json_string (encode_hex b);
  is = refl;
  holds = string (encode_hex b);
}
write_field_value-IsJson encode_hex zero map_fields (tree child) prefix h = absurd (omega arith)
write_field_value-IsJson encode_hex (suc fuel) map_fields
      (tree (frame_fields es protocol info malformed)) prefix h =
    let write : FieldValue → List ℕ → Option (List ℕ) =
      λ v p. write_field_value encode_hex fuel map_fields v p in
    let child = frame_fields es protocol info malformed in
    let members =
      write_members-IsMembers fuel write map_fields (prefix ++ b'.' ∷ []) true es
        (first_names [] es) (λ v p b. write_field_value-IsJson encode_hex fuel map_fields v p b)
        (omega arith) in
    let f : Grouped → Option (List ℕ) = λ groups.
      between b'{' (write_members write map_fields (prefix ++ b'.' ∷ []) true groups) b'}' in
    record {
      text = b'{' ∷ (members.text ++ b'}' ∷ []);
      is =
          ap (with_groups f) (grouped_entries-groups_of child)
          ∙ ap (λ a. between b'{' a b'}') members.is;
      holds = object members.text members.holds;
    }
