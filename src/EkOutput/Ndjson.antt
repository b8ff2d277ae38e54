-- ===== src/EkOutput/Ndjson.antt =====
-- `NdjsonWriter` of src/ek_output.rs.
pub mod Objects
pub mod Records
use tlscap.Prelude.{
  ℕ, Bool, true, false, ◌||◌, not, Option, none, some, List, [], ◌∷◌, ◌++◌, map, if◌then◌else◌,
  bytes_eq,
}
use tlscap.Text.{codes, first_part}
use tlscap.Text.Lines.{line_feed}
use tlscap.Text.Decimal.{decimal}
use tlscap.Text.Address.{ip_text}
use tlscap.Fields.{FieldValue, FrameFields}
use tlscap.Orchestrator.{Endpoint}
use tlscap.Orchestrator.Records.{DecodedMessage}
use tlscap.Orchestrator.Frames.{PacketEvent, Flag, syn, ack, fin, rst, psh}
use tlscap.EkOutput.Json.{json_string}
use tlscap.EkOutput.Dates.{epoch_micros}
use tlscap.EkOutput.Ek.{comma_separated}
use tlscap.EkOutput.Grouping.{Grouped, member, grouped_entries}
use tlscap.EkOutput.Values.{before, both, key, write_named_value, write_field_value}
use tlscap.EkOutput.Values.Shape.{subtrees}

pub record NdjsonWriter : Type 0 where
  pub groups : List (List ℕ)
  pub generic_group_order : List (List ℕ)
  pub explode : Option (List ℕ)
  pub map_fields : List (List ℕ)

abbrev envelope : List ℕ → Bool
envelope group =
    bytes_eq group (codes "ip") || bytes_eq group (codes "tcp") || bytes_eq group (codes "tls")

-- The loop over the fields: `groups` and `generic_group_order`. `groups.insert` is true of a new name.
pub select_groups : List (List ℕ) → List (List ℕ) → List (List ℕ) → List (List ℕ) × List (List ℕ)
select_groups [] groups order = (groups, order)
select_groups (field ∷ fields) groups order =
    let group = first_part b'.' field in
    let old = member group groups in
    select_groups fields (if old then groups else groups ++ group ∷ [])
      (if old then order else if envelope group then order else order ++ group ∷ [])

pub new : List (List ℕ) → Option (List ℕ) → List (List ℕ) → NdjsonWriter
new fields explode map_fields =
    let (groups, order) = select_groups fields [] [] in
    record {
      groups = groups;
      generic_group_order = order;
      explode = explode;
      map_fields = map_fields;
    }

pub write_preamble : List ℕ → ℕ → List ℕ
write_preamble kind t =
    codes "{\"kind\":\"" ++ (kind ++ (codes "\",\"tstamp\":" ++ decimal (epoch_micros t)))

pub write_ip : NdjsonWriter → Endpoint → Endpoint → List ℕ
write_ip w src dst =
    if member (codes "ip") w.groups
    then codes ",\"ip\":{\"src\":"
      ++ (json_string (ip_text src.0)
          ++ (codes ",\"dst\":" ++ (json_string (ip_text dst.0) ++ codes "}")))
    else []

pub write_ports : NdjsonWriter → Endpoint → Endpoint → List ℕ
write_ports w src dst =
    if member (codes "tcp") w.groups
    then codes ",\"tcp\":{\"srcport\":"
      ++ (decimal src.1 ++ (codes ",\"dstport\":" ++ (decimal dst.1 ++ codes "}")))
    else []

abbrev pub flag_name : Flag → List ℕ
flag_name syn = codes "syn"
flag_name ack = codes "ack"
flag_name fin = codes "fin"
flag_name rst = codes "rst"
flag_name psh = codes "psh"

-- The object `tcp` of an event.
pub packet_tcp : NdjsonWriter → PacketEvent → List ℕ
packet_tcp w evt =
    if member (codes "tcp") w.groups
    then codes ",\"tcp\":{\"srcport\":"
      ++ (decimal evt.src.1
          ++ (codes ",\"dstport\":"
              ++ (decimal evt.dst.1
                  ++ (codes ",\"seq\":"
                      ++ (decimal evt.seq
                          ++ (codes ",\"ack\":"
                              ++ (decimal evt.ack
                                  ++ (codes ",\"flags\":["
                                      ++ (comma_separated
                                            (map (λ f. json_string (flag_name f)) evt.flags)
                                          ++ (codes "],\"payload_len\":"
                                              ++ (decimal evt.payload_len ++ codes "}")))))))))))
    else []

pub write_packet_event : NdjsonWriter → PacketEvent → List ℕ
write_packet_event w evt =
    write_preamble (codes "packet") evt.timestamp
    ++ (write_ip w evt.src evt.dst ++ (packet_tcp w evt ++ (b'}' ∷ line_feed ∷ [])))

-- `iter().find(|(n, _)| n == group)`
pub find_group : List ℕ → Grouped → Option (List FieldValue)
find_group group [] = none
find_group group ((n, values) ∷ groups) =
    let rest = find_group group groups in if bytes_eq n group then some values else rest

-- `hex::encode` of the hex crate is a parameter.
module _ (encode_hex : List ℕ → List ℕ) where
  -- One value with as much fuel as it has subtrees.
  pub write_value : List (List ℕ) → FieldValue → List ℕ → Option (List ℕ)
  write_value map_fields v prefix = write_field_value encode_hex (subtrees v) map_fields v prefix

  pub write_tls : NdjsonWriter → List ℕ → List ℕ
  write_tls w app_data =
      if member (codes "tls") w.groups
      then codes ",\"tls\":{\"app_data\":" ++ (json_string (encode_hex app_data) ++ codes "}")
      else []

  -- The values of a group that is there.
  abbrev pub write_found : NdjsonWriter → List ℕ → Option (List FieldValue) → Option (List ℕ)
  write_found w group none = some []
  write_found w group (some values) =
      before (b',' ∷ key group)
        (write_named_value (write_value w.map_fields) w.map_fields group values group)

  -- One round of the loop over the groups.
  abbrev pub write_group :
      NdjsonWriter → Grouped → Option (List ℕ × FieldValue) → List ℕ → Option (List ℕ)
  write_group w grouped none group = write_found w group (find_group group grouped)
  write_group w grouped (some (exploded_name, single_value)) group =
      if bytes_eq group exploded_name
      then before (b',' ∷ key group) (write_value w.map_fields single_value group)
      else write_found w group (find_group group grouped)

  pub write_generic :
      NdjsonWriter → Grouped → Option (List ℕ × FieldValue) → List (List ℕ) → Option (List ℕ)
  write_generic w grouped exploded [] = some []
  write_generic w grouped exploded (group ∷ groups) =
      both (write_group w grouped exploded group) (write_generic w grouped exploded groups)

  pub write_one_tls_record :
      NdjsonWriter
      → DecodedMessage FrameFields
      → Grouped
      → Option (List ℕ × FieldValue)
      → Option (List ℕ)
  write_one_tls_record w msg grouped exploded =
      before (write_preamble (codes "tls_record") msg.timestamp) (
        before (write_ip w msg.src msg.dst) (
          before (write_ports w msg.src msg.dst) (
            before (write_tls w msg.tls_app_data) (
              both (write_generic w grouped exploded w.generic_group_order)
                (some (b'}' ∷ line_feed ∷ []))))))

  -- A line for each occurrence of the exploded group.
  pub write_exploded :
      NdjsonWriter
      → DecodedMessage FrameFields
      → Grouped
      → List ℕ
      → List FieldValue
      → Option (List ℕ)
  write_exploded w msg grouped explode_name [] = some []
  write_exploded w msg grouped explode_name (v ∷ values) =
      both (write_one_tls_record w msg grouped (some (explode_name, v)))
        (write_exploded w msg grouped explode_name values)

  -- The occurrences to explode: of a group that is there and is not empty.
  abbrev pub write_occurrences :
      NdjsonWriter
      → DecodedMessage FrameFields
      → List ℕ
      → Option (List FieldValue)
      → Grouped
      → Option (List ℕ)
  write_occurrences w msg explode_name none grouped = write_one_tls_record w msg grouped none
  write_occurrences w msg explode_name (some []) grouped = write_one_tls_record w msg grouped none
  write_occurrences w msg explode_name (some (v ∷ values)) grouped =
      write_exploded w msg grouped explode_name (v ∷ values)

  abbrev pub write_grouped :
      NdjsonWriter → DecodedMessage FrameFields → Option (List ℕ) → Grouped → Option (List ℕ)
  write_grouped w msg none grouped = write_one_tls_record w msg grouped none
  write_grouped w msg (some explode_name) grouped =
      write_occurrences w msg explode_name (find_group explode_name grouped) grouped

  abbrev pub with_grouped :
      NdjsonWriter → DecodedMessage FrameFields → Option Grouped → Option (List ℕ)
  with_grouped w msg none = none
  with_grouped w msg (some grouped) = write_grouped w msg w.explode grouped

  pub write_tls_record : NdjsonWriter → DecodedMessage FrameFields → Option (List ℕ)
  write_tls_record w msg = with_grouped w msg (grouped_entries msg.message_fields)
