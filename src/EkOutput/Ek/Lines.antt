-- ===== src/EkOutput/Ek/Lines.antt =====
-- What `EkWriter::write_message` writes is two lines.
use tlscap.Prelude.{
  ℕ, refl, Bool, true, false, if◌then◌else◌, Option, none, some, List, [], ◌∷◌, ◌++◌, map,
  append_assoc, arith,
}
use tlscap.Text.{codes, replace, Plain, Plain-append}
use tlscap.Text.Lines.{IsLines, line, one_line, line_feed}
use tlscap.Text.Decimal.{decimal, decimal-Plain}
use tlscap.Fields.{FrameFields}
use tlscap.Orchestrator.Records.{DecodedMessage}
use tlscap.EkOutput.Json.{json_string, json_string-Plain}
use tlscap.EkOutput.Dates.{index_date, index_date-Plain, epoch_millis}
use tlscap.EkOutput.Ek.{
  EkWriter, comma_separated, message_values, write_field, write_fields, write_message,
}

pub comma_separated-Plain : (vs : List (List ℕ)) → Plain (comma_separated (map json_string vs))
comma_separated-Plain [] = tt
comma_separated-Plain (v ∷ []) = json_string-Plain v
comma_separated-Plain (v ∷ v' ∷ vs) =
    Plain-append (json_string v) _ (json_string-Plain v)
      (omega arith, comma_separated-Plain (v' ∷ vs))

separator-Plain : (first : Bool) → Plain (if first then [] else b',' ∷ [])
separator-Plain true = tt
separator-Plain false = omega arith

write_field-Plain :
    (field : List ℕ) (values : Option (List (List ℕ))) (first : Bool)
    → Plain (write_field field values first).0
write_field-Plain field none first = tt
write_field-Plain field (some []) first = tt
write_field-Plain field (some (v ∷ vs)) first =
    Plain-append (if first then [] else b',' ∷ []) _ (separator-Plain first) (
      Plain-append (json_string (replace b'.' b'_' field)) _ (json_string-Plain _) (
        omega arith,
        (
          omega arith,
          Plain-append (comma_separated (map json_string (v ∷ vs))) _
              (comma_separated-Plain (v ∷ vs)) (omega arith),
        ),
      ))

write_fields-Plain :
    (encode_hex : List ℕ → List ℕ) (fields : List (List ℕ)) (first : Bool)
    (msg : DecodedMessage FrameFields)
    → Plain (write_fields encode_hex fields first msg)
unfolding write_fields
write_fields-Plain encode_hex [] first msg = tt
write_fields-Plain encode_hex (field ∷ fields) first msg =
    let values = message_values encode_hex field msg in
    Plain-append (write_field field values first).0 _ (write_field-Plain field values first)
      (write_fields-Plain encode_hex fields (write_field field values first).1 msg)

-- The line that names the index, and the line of the message, each without its line feed.
index_line : List ℕ → ℕ → List ℕ
index_line prefix t =
    codes "{\"index\":{\"_index\":\"" ++ (prefix ++ (b'-' ∷ (index_date t ++ codes "\"}}")))

message_line : (List ℕ → List ℕ) → List (List ℕ) → DecodedMessage FrameFields → List ℕ
message_line encode_hex fields msg =
    codes "{\"timestamp\":\""
    ++ (decimal (epoch_millis msg.timestamp)
        ++ (codes "\",\"layers\":{" ++ (write_fields encode_hex fields true msg ++ codes "}}")))

index_line-Plain : (prefix : List ℕ) (t : ℕ) → Plain prefix → Plain (index_line prefix t)
unfolding index_line
index_line-Plain prefix t p = Plain-append (codes "{\"index\":{\"_index\":\"") _ (omega arith) (
    Plain-append prefix _ p
      (omega arith, Plain-append (index_date t) _ (index_date-Plain t) (omega arith)))

message_line-Plain :
    (encode_hex : List ℕ → List ℕ) (fields : List (List ℕ)) (msg : DecodedMessage FrameFields)
    → Plain (message_line encode_hex fields msg)
unfolding message_line
message_line-Plain encode_hex fields msg =
    Plain-append (codes "{\"timestamp\":\"") _ (omega arith) (
      Plain-append (decimal (epoch_millis msg.timestamp)) _ (decimal-Plain _) (
        Plain-append (codes "\",\"layers\":{") _ (omega arith) (
          Plain-append (write_fields encode_hex fields true msg) _
            (write_fields-Plain encode_hex fields true msg) (omega arith))))

-- A message becomes exactly two lines, if the prefix of the index has no control character: no
-- character of the message, of its fields or of their names breaks a line.
pub write_message-IsLines :
    (encode_hex : List ℕ → List ℕ) (w : EkWriter) (msg : DecodedMessage FrameFields)
    → Plain w.index_prefix
    → IsLines 2 (write_message encode_hex w msg)
unfolding write_message index_line message_line
write_message-IsLines encode_hex w msg p =
    let second =
      one_line (message_line encode_hex w.fields msg)
        (message_line-Plain encode_hex w.fields msg) in
    line 1 (index_line w.index_prefix msg.timestamp)
      (message_line encode_hex w.fields msg ++ line_feed ∷ []) _
      (index_line-Plain _ msg.timestamp p) second (simp append_assoc refl)
