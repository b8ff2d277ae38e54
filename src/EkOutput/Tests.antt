-- ===== src/EkOutput/Tests.antt =====
-- The theorems on the output documents at a message with fields at two depths.
use tlscap.Prelude.{◌+◌, ◌≡◌, none, some, [], ◌∷◌, ◌++◌, arith}
use tlscap.Text.{codes, Plain}
use tlscap.Text.Lines.{IsLines}
use tlscap.Fields.{
  uint, str, bytes, tree, FrameFields, frame_fields, end, entry, entries, values_for, hex_encode,
}
use tlscap.Fields.Leaves.{named, leaves, values_for-leaves}
use tlscap.Orchestrator.{v4, v6}
use tlscap.Orchestrator.Records.{DecodedMessage}
use tlscap.EkOutput.Json.{json_string, read_json, read_json-json_string}
use tlscap.EkOutput.Dates.{civil_from_days, day_number, IsDate}
use tlscap.EkOutput.Dates.Calendar.{civil_from_days-IsDate}
use tlscap.EkOutput.Ek.{EkWriter, write_message}
use tlscap.EkOutput.Ek.Lines.{write_message-IsLines}
use tlscap.EkOutput.Grouping.{grouped_entries, groups_of, first_names}
use tlscap.EkOutput.Grouping.Names.{grouped_entries-groups_of}
use tlscap.EkOutput.Values.{write_field_value}
use tlscap.EkOutput.Values.Grammar.{IsJson, IsDocument}
use tlscap.EkOutput.Values.Shape.{
  subtrees, subtrees_of, subtrees_in, Writes, write_field_value-IsJson,
}
use tlscap.EkOutput.Ndjson.{NdjsonWriter, write_tls_record}
use tlscap.EkOutput.Ndjson.Records.{line_count, write_tls_record-IsDocument}

-- A group "p" of two occurrences, one with a subtree that holds a number and a text, and a leaf.
abbrev inner : FrameFields
inner =
    frame_fields
      (entry (codes "p.name") (str (codes "a\"b")) (entry (codes "p.value") (uint 7) end)) none none
      []

abbrev ff : FrameFields
ff =
    frame_fields
      (entry (codes "p") (tree inner)
        (entry (codes "q") (bytes (255 ∷ [])) (entry (codes "p") (tree inner) end)))
      (some (codes "P")) none []

abbrev msg : DecodedMessage FrameFields
msg = record {
  src = (v4 0x0a000001, 51234);
  dst = (v6 1, 9410);
  tls_app_data = 1 ∷ 2 ∷ [];
  message_fields = ff;
  timestamp = 1_700_000_000_123_456_789;
}

abbrev ek_writer : EkWriter
ek_writer = record {
  fields = codes "ip.src" ∷ codes "p.value" ∷ [];
  index_prefix = codes "packets";
}

abbrev ndjson_writer : NdjsonWriter
ndjson_writer = record {
  groups = codes "ip" ∷ codes "p" ∷ [];
  generic_group_order = codes "p" ∷ [];
  explode = some (codes "p");
  map_fields = [];
}

values_for-leaves_example : values_for ff (codes "p.value") ≡ named (codes "p.value") (leaves ff)
values_for-leaves_example = values_for-leaves ff (codes "p.value")

read_json-json_string_example :
    (read_json (json_string (codes "a\"b\n") ++ b',' ∷ []) ≡ some (codes "a\"b\n", b',' ∷ []))
    × Plain (json_string (codes "a\"b\n"))
read_json-json_string_example = read_json-json_string (codes "a\"b\n") (b',' ∷ [])

civil_from_days-IsDate_example :
    (day_number (civil_from_days 19675) ≡ 719528 + 19675) × IsDate (civil_from_days 19675)
civil_from_days-IsDate_example = civil_from_days-IsDate 19675

write_message-IsLines_example : IsLines 2 (write_message hex_encode ek_writer msg)
write_message-IsLines_example = write_message-IsLines hex_encode ek_writer msg (omega arith)

grouped_entries-groups_of_example :
    grouped_entries ff ≡ some (groups_of (entries ff) (first_names [] (entries ff)))
grouped_entries-groups_of_example = grouped_entries-groups_of ff

write_field_value-IsJson_example :
    Writes IsJson (write_field_value hex_encode 3 [] (tree ff) (codes "p"))
unfolding subtrees subtrees_of subtrees_in
write_field_value-IsJson_example =
    write_field_value-IsJson hex_encode 3 [] (tree ff) (codes "p") (omega arith)

write_tls_record-IsDocument_example :
    Writes
      (IsDocument (line_count ndjson_writer.explode (entries msg.message_fields)))
      (write_tls_record hex_encode ndjson_writer msg)
write_tls_record-IsDocument_example = write_tls_record-IsDocument hex_encode ndjson_writer msg
