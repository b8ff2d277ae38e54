-- ===== src/EkOutput/Ndjson/Records.antt =====
-- The lines that `write_tls_record` writes.
use tlscap.Prelude.{
  ℕ, zero, suc, ◌≡◌, refl, ap, ap₂, ◌∙◌, subst, true, false, ◌||◌, Option, none, some, List, [],
  ◌∷◌, ◌++◌, append_assoc, bytes_eq, bytes_eq-Decides, length, Bool-cases, inl, inr, arith,
}
use tlscap.Text.{codes}
use tlscap.Text.Lines.{line_feed}
use tlscap.Fields.{FieldValue, FrameFields, Entries, end, entry, entries}
use tlscap.Orchestrator.Records.{DecodedMessage}
use tlscap.EkOutput.Json.{escape, escape_char}
use tlscap.EkOutput.Grouping.{Grouped, member, groups_of, occurrences, first_names}
use tlscap.EkOutput.Grouping.Loop.{member-append}
use tlscap.EkOutput.Grouping.Names.{grouped_entries-groups_of, or_head, or_tail}
use tlscap.EkOutput.Values.{before, both, key}
use tlscap.EkOutput.Values.Grammar.{
  IsJson, IsMembers, no_members, IsMembers-append, IsDocument, IsDocument-append,
}
use tlscap.EkOutput.Values.Shape.{
  subtrees, subtrees_in, Writes, write_field_value-IsJson, write_named_value-IsJson,
}
use tlscap.EkOutput.Ndjson.{
  NdjsonWriter, write_preamble, write_ip, write_ports, write_tls, find_group, write_value,
  write_found, write_group, write_generic, write_one_tls_record, write_exploded, write_occurrences,
  write_grouped, write_tls_record,
}
use tlscap.EkOutput.Ndjson.Objects.{
  one_member, preamble_line, write_ip-IsMembers, write_ports-IsMembers, write_tls-IsMembers,
}

find_group-found :
    (name : List ℕ) (es : Entries) (names : List (List ℕ))
    → member name names ≡ true
    → find_group name (groups_of es names) ≡ some (occurrences name es)
unfolding find_group groups_of
find_group-found name es [] h = absurd (cc)
find_group-found name es (n ∷ names) h = elim (Bool-cases (bytes_eq n name)) [
  | inl e ↦ rw e (ap (λ x. some (occurrences x es)) ((bytes_eq-Decides n name).0 e))
  | inr e ↦ rw e (find_group-found name es names (rw e at h))
]

find_group-missing :
    (name : List ℕ) (es : Entries) (names : List (List ℕ))
    → member name names ≡ false
    → find_group name (groups_of es names) ≡ none
unfolding find_group groups_of
find_group-missing name es [] h = refl
find_group-missing name es (n ∷ names) h =
    rw (or_head (bytes_eq n name) (member name names) h)
      (find_group-missing name es names (or_tail (bytes_eq n name) (member name names) h))

-- A name that is not among the first names has no entries.
occurrences-missing :
    (name : List ℕ) (es : Entries) (seen : List (List ℕ))
    → member name seen ≡ false
    → member name (first_names seen es) ≡ false
    → occurrences name es ≡ []
unfolding occurrences first_names
occurrences-missing name end seen h k = refl
occurrences-missing name (entry n v es) seen h k = elim (Bool-cases (member n seen)) [
  | inl old ↦ elim (Bool-cases (bytes_eq n name)) [
    | inl e ↦
        let same : member n seen ≡ member name seen =
          ap (λ x. member x seen) ((bytes_eq-Decides n name).0 e) in
        absurd (cc)
    | inr e ↦ rw e (occurrences-missing name es seen h (rw old at k))
  ]
  | inr new ↦
      let k' : (bytes_eq n name || member name (first_names (seen ++ n ∷ []) es)) ≡ false =
        rw new at k in
      let differ = or_head (bytes_eq n name) _ k' in
      let here : member name (seen ++ n ∷ []) ≡ false =
        member-append name seen (n ∷ []) ∙ rw (h, differ) refl in
      rw differ (occurrences-missing name es (seen ++ n ∷ []) here (or_tail (bytes_eq n name) _ k'))
]

-- A value comes with as much fuel as it has subtrees.
write_value-IsJson :
    (encode_hex : List ℕ → List ℕ) (map_fields : List (List ℕ)) (v : FieldValue) (prefix : List ℕ)
    → Writes IsJson (write_value encode_hex map_fields v prefix)
unfolding write_value
write_value-IsJson encode_hex map_fields v prefix =
    write_field_value-IsJson encode_hex (subtrees v) map_fields v prefix (omega arith)

-- A member of the line.
Generic : Option (List ℕ) → Type 0
Generic o = Writes (IsMembers false) o

member_line :
    (group : List ℕ) (o : Option (List ℕ)) → Writes IsJson o → Generic (before (b',' ∷ key group) o)
unfolding Generic
member_line group o w = record {
  text = (b',' ∷ key group) ++ w.text;
  is = ap (before (b',' ∷ key group)) w.is;
  holds = one_member group w.text w.holds;
}

module _ (encode_hex : List ℕ → List ℕ) (w : NdjsonWriter) (es : Entries) where
  abbrev grouped : Grouped
  grouped = groups_of es (first_names [] es)

  write_found-Generic :
      (group : List ℕ) → Generic (write_found encode_hex w group (find_group group grouped))
  unfolding Generic
  write_found-Generic group = elim (Bool-cases (member group (first_names [] es))) [
    | inl e ↦ rw (find_group-found group es (first_names [] es) e) (
        member_line group _ (
          write_named_value-IsJson (subtrees_in es) (write_value encode_hex w.map_fields)
            w.map_fields group es group group
            (λ v prefix h. write_value-IsJson encode_hex w.map_fields v prefix) (omega arith)))
    | inr e ↦
        rw (find_group-missing group es (first_names [] es) e)
          (record { text = []; is = refl; holds = no_members false })
  ]

  write_group-Generic :
      (exploded : Option (List ℕ × FieldValue)) (group : List ℕ)
      → Generic (write_group encode_hex w grouped exploded group)
  write_group-Generic none group = write_found-Generic group
  write_group-Generic (some (name, v)) group = elim (Bool-cases (bytes_eq group name)) [
    | inl e ↦ rw e (member_line group _ (write_value-IsJson encode_hex w.map_fields v group))
    | inr e ↦ rw e (write_found-Generic group)
  ]

  write_generic-Generic :
      (exploded : Option (List ℕ × FieldValue)) (groups : List (List ℕ))
      → Generic (write_generic encode_hex w grouped exploded groups)
  unfolding write_generic Generic
  write_generic-Generic exploded [] = record { text = []; is = refl; holds = no_members false }
  write_generic-Generic exploded (group ∷ groups) =
      let here = write_group-Generic exploded group in
      let rest = write_generic-Generic exploded groups in
      record {
        text = here.text ++ rest.text;
        is = ap₂ both here.is rest.is;
        holds = IsMembers-append here.text rest.text here.holds rest.holds;
      }

  write_one_tls_record-IsDocument :
      (msg : DecodedMessage FrameFields) (exploded : Option (List ℕ × FieldValue))
      → Writes (IsDocument 1) (write_one_tls_record encode_hex w msg grouped exploded)
  unfolding write_one_tls_record escape escape_char Generic
  write_one_tls_record-IsDocument msg exploded =
      let generic = write_generic-Generic exploded w.generic_group_order in
      let ip = write_ip w msg.src msg.dst in
      let ports = write_ports w msg.src msg.dst in
      let tls = write_tls encode_hex w msg.tls_app_data in
      let members =
        IsMembers-append ip (ports ++ (tls ++ generic.text)) (write_ip-IsMembers w msg.src msg.dst)
          (IsMembers-append ports (tls ++ generic.text) (write_ports-IsMembers w msg.src msg.dst) (
            IsMembers-append tls generic.text (write_tls-IsMembers encode_hex w msg.tls_app_data)
              generic.holds)) in
      let head = write_preamble (codes "tls_record") msg.timestamp in
      let close = b'}' ∷ line_feed ∷ [] in
      record {
        text = head ++ (ip ++ (ports ++ (tls ++ (generic.text ++ close))));
        is =
            ap (λ o. before head (before ip (before ports (before tls (both o (some close))))))
              generic.is;
        holds =
            subst (λ x. IsDocument 1 x) (simp append_assoc refl)
              (preamble_line (codes "tls_record") msg.timestamp _ refl members);
      }

  write_exploded-IsDocument :
      (msg : DecodedMessage FrameFields) (name : List ℕ) (values : List FieldValue)
      → Writes (IsDocument (length values)) (write_exploded encode_hex w msg grouped name values)
  unfolding write_exploded
  write_exploded-IsDocument msg name [] = record { text = []; is = refl; holds = IsDocument.end }
  write_exploded-IsDocument msg name (v ∷ values) =
      let here = write_one_tls_record-IsDocument msg (some (name, v)) in
      let rest = write_exploded-IsDocument msg name values in
      record {
        text = here.text ++ rest.text;
        is = ap₂ both here.is rest.is;
        holds =
            subst (λ k. IsDocument k (here.text ++ rest.text)) (omega arith)
              (IsDocument-append 1 (length values) here.text rest.text here.holds rest.holds);
      }

abbrev at_least_one : ℕ → ℕ
at_least_one zero = 1
at_least_one (suc n) = suc n

-- How many lines a record takes: one for each occurrence of the group to explode, and one when there
-- are none or no group is to be exploded.
abbrev pub line_count : Option (List ℕ) → Entries → ℕ
line_count none es = 1
line_count (some name) es = at_least_one (length (occurrences name es))

module _ (encode_hex : List ℕ → List ℕ) (w : NdjsonWriter) (msg : DecodedMessage FrameFields)
    (es : Entries) where
  write_occurrences-IsDocument :
      (name : List ℕ) (values : List FieldValue)
      → Writes
          (IsDocument (at_least_one (length values)))
          (write_occurrences encode_hex w msg name (some values) (grouped encode_hex w es))
  write_occurrences-IsDocument name [] = write_one_tls_record-IsDocument encode_hex w es msg none
  write_occurrences-IsDocument name (v ∷ values) =
      let count : length (v ∷ values) ≡ suc (length values) = omega arith in
      subst
        (λ k.
          Writes (IsDocument k)
            (write_exploded encode_hex w msg (grouped encode_hex w es) name (v ∷ values)))
        count (write_exploded-IsDocument encode_hex w es msg name (v ∷ values))

  write_grouped-IsDocument :
      (explode : Option (List ℕ))
      → Writes
          (IsDocument (line_count explode es))
          (write_grouped encode_hex w msg explode (grouped encode_hex w es))
  write_grouped-IsDocument none = write_one_tls_record-IsDocument encode_hex w es msg none
  write_grouped-IsDocument (some name) = elim (Bool-cases (member name (first_names [] es))) [
    | inl e ↦
        rw (find_group-found name es (first_names [] es) e)
          (write_occurrences-IsDocument name (occurrences name es))
    | inr e ↦
        rw (find_group-missing name es (first_names [] es) e, occurrences-missing name es [] refl e)
          (write_one_tls_record-IsDocument encode_hex w es msg none)
  ]

-- A record is always written, as a document of JSON objects on lines of their own: one line for each
-- occurrence of the group to explode, and exactly one when there are none or no group is to be
-- exploded.
pub write_tls_record-IsDocument :
    (encode_hex : List ℕ → List ℕ) (w : NdjsonWriter) (msg : DecodedMessage FrameFields)
    → Writes
        (IsDocument (line_count w.explode (entries msg.message_fields)))
        (write_tls_record encode_hex w msg)
unfolding write_tls_record
write_tls_record-IsDocument encode_hex w msg =
    rw (grouped_entries-groups_of msg.message_fields)
      (write_grouped-IsDocument encode_hex w msg (entries msg.message_fields) w.explode)
