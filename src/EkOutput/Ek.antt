-- ===== src/EkOutput/Ek.antt =====
-- `EkWriter` of src/ek_output.rs.
pub mod Lines
use tlscap.Prelude.{
  ℕ, Bool, true, false, Option, none, some, List, [], ◌∷◌, ◌++◌, map, if◌then◌else◌, bytes_eq,
}
use tlscap.Text.{codes, replace}
use tlscap.Text.Lines.{line_feed}
use tlscap.Text.Decimal.{decimal}
use tlscap.Text.Address.{ip_text}
use tlscap.Fields.{FrameFields, FieldValue, values_for, to_output_string}
use tlscap.Orchestrator.Records.{DecodedMessage}
use tlscap.EkOutput.Json.{json_string}
use tlscap.EkOutput.Dates.{index_date, epoch_millis}

pub record EkWriter : Type 0 where
  pub fields : List (List ℕ)
  pub index_prefix : List ℕ

-- Texts with commas between them.
abbrev pub comma_separated : List (List ℕ) → List ℕ
comma_separated [] = []
comma_separated (a ∷ []) = a
comma_separated (a ∷ b ∷ rest) = a ++ (b',' ∷ comma_separated (b ∷ rest))

-- One field: nothing, or a comma unless it is the first, the name and the values.
abbrev pub write_field : List ℕ → Option (List (List ℕ)) → Bool → List ℕ × Bool
write_field field none first = ([], first)
write_field field (some []) first = ([], first)
write_field field (some (v ∷ vs)) first = (
  (if first then [] else b',' ∷ [])
      ++ (json_string (replace b'.' b'_' field)
          ++ (b':' ∷ b'[' ∷ (comma_separated (map json_string (v ∷ vs)) ++ b']' ∷ []))),
  false,
)

-- `hex::encode` of the hex crate is a parameter.
module _ (encode_hex : List ℕ → List ℕ) where
  -- `EkWriter::values_for`
  pub message_values : List ℕ → DecodedMessage FrameFields → Option (List (List ℕ))
  message_values field msg =
      if bytes_eq field (codes "ip.src")
      then some (ip_text msg.src.0 ∷ [])
      else if bytes_eq field (codes "ip.dst")
      then some (ip_text msg.dst.0 ∷ [])
      else if bytes_eq field (codes "tcp.srcport")
      then some (decimal msg.src.1 ∷ [])
      else if bytes_eq field (codes "tcp.dstport")
      then some (decimal msg.dst.1 ∷ [])
      else if bytes_eq field (codes "tls.app_data")
      then some (encode_hex msg.tls_app_data ∷ [])
      else some (map to_output_string (values_for msg.message_fields field))

  -- The loop over the fields.
  pub write_fields : List (List ℕ) → Bool → DecodedMessage FrameFields → List ℕ
  write_fields [] first msg = []
  write_fields (field ∷ fields) first msg =
      let (text, first') = write_field field (message_values field msg) first in
      text ++ write_fields fields first' msg

  pub write_message : EkWriter → DecodedMessage FrameFields → List ℕ
  write_message w msg =
      codes "{\"index\":{\"_index\":\""
      ++ (w.index_prefix
          ++ (b'-'
              ∷ (index_date msg.timestamp
                  ++ (codes "\"}}"
                      ++ (line_feed
                          ∷ (codes "{\"timestamp\":\""
                              ++ (decimal (epoch_millis msg.timestamp)
                                  ++ (codes "\",\"layers\":{"
                                      ++ (write_fields w.fields true msg
                                          ++ (codes "}}" ++ line_feed ∷ []))))))))))
