-- ===== src/Main.antt =====
-- src/main.rs: the checks of the arguments, the choice of the writers and the loop over the packets. What
-- the loop hands to `Output::write` is a list of texts, one for each call.
pub mod Arguments
pub mod Outputs
pub mod Safety
mod Examples
use tlscap.Prelude.{
  ℕ, zero, suc, ◌*◌, Bool, true, false, ◌&&◌, ◌||◌, not, Option, none, some, List, [], ◌∷◌, ◌++◌,
  if◌then◌else◌, bytes_eq,
}
use tlscap.Text.{codes}
use tlscap.Crypto.{Crypto}
use tlscap.Keylog.{Keylog}
use tlscap.Fields.{FrameFields}
use tlscap.Orchestrator.Records.{Dissected, DecodedMessage}
use tlscap.Orchestrator.Frames.{
  TcpFrame, PacketEvent, OrchestratorConfig, Orchestrator, Clock, process_frame,
}
use tlscap.EkOutput.Ek.{EkWriter, write_message}
use tlscap.EkOutput.Ndjson
use tlscap.EkOutput.Ndjson.{NdjsonWriter}
use tlscap.PcapInput.{DataLink, SlicedPacket, parse_tcp_frame}
use tlscap.PcapInput.Stream.{RawPacket}
use tlscap.Rotation.{RotateBy, count, seconds, never}

-- The arguments that are read here.
pub record Cli : Type 0 where
  pub rotate_count : Option ℕ
  pub rotate_seconds : Option ℕ
  pub format : List ℕ
  pub packet_log : Option (List ℕ)
  pub ndjson_explode : Option (List ℕ)
  pub ndjson_map : List (List ℕ)
  pub compress : Option (List ℕ)
  pub fields : List (List ℕ)
  pub ek_index_prefix : List ℕ

pub data Refusal : Type 0 where
  two_rotations unknown_format packet_log_format explode_format map_format unknown_compression :
      Refusal

abbrev pub given : {A : Type 0} → Option A → Bool
given none = false
given (some a) = true

abbrev is_empty : List (List ℕ) → Bool
is_empty [] = true
is_empty (x ∷ xs) = false

abbrev pub is_ndjson : Cli → Bool
is_ndjson cli = bytes_eq cli.format (codes "ndjson")

abbrev is_gzip : Option (List ℕ) → Bool
is_gzip none = true
is_gzip (some c) = bytes_eq c (codes "gzip")

-- The checks of `main`, in their order; each ends the process with status 2.
unfoldable pub validate : Cli → Option Refusal
validate cli =
    if given cli.rotate_count && given cli.rotate_seconds
    then some two_rotations
    else if not (bytes_eq cli.format (codes "ek")) && not (is_ndjson cli)
    then some unknown_format
    else if given cli.packet_log && not (is_ndjson cli)
    then some packet_log_format
    else if given cli.ndjson_explode && not (is_ndjson cli)
    then some explode_format
    else if not (is_empty cli.ndjson_map) && not (is_ndjson cli)
    then some map_format
    else if not (is_gzip cli.compress)
    then some unknown_compression
    else none

-- `none` is the arm that `run` says is unreachable.
abbrev pub rotation : Option ℕ → Option ℕ → Option RotateBy
rotation (some n) none = some (count n)
rotation none (some s) = some (seconds (s * 1_000_000_000))
rotation none none = some never
rotation (some n) (some s) = none

pub data MessageWriter : Type 0 where
  ek : EkWriter → MessageWriter
  ndjson : NdjsonWriter → MessageWriter

unfoldable pub choose_writer : Cli → MessageWriter
choose_writer cli =
    if is_ndjson cli
    then ndjson (Ndjson.new cli.fields cli.ndjson_explode cli.ndjson_map)
    else ek (record { fields = cli.fields; index_prefix = cli.ek_index_prefix })

-- `none` is the arm that the code says is unreachable.
abbrev pub write_packet_event : MessageWriter → PacketEvent → Option (List ℕ)
write_packet_event (ek w) evt = none
write_packet_event (ndjson w) evt = some (Ndjson.write_packet_event w evt)

-- `hex::encode`, the packet parser and what the orchestrator is made of are parameters.
module _ (encode_hex : List ℕ → List ℕ) where
  abbrev pub write_tls_record : MessageWriter → DecodedMessage FrameFields → Option (List ℕ)
  write_tls_record (ek w) msg = some (write_message encode_hex w msg)
  write_tls_record (ndjson w) msg = Ndjson.write_tls_record encode_hex w msg

-- `Orchestrator::new`, at the time `now`.
unfoldable pub new_orchestrator : {L S : Type 0} → S → L → ℕ → Orchestrator L S
new_orchestrator keylog lua now = record {
  connections = [];
  world = record {
    stats = record {
      tail_bytes_discarded = 0;
      tls_records_seen = 0;
      tls_records_decrypted = 0;
      tls_records_nokey = 0;
      tls_records_authfailed = 0;
      tls_records_no_client_hello = 0;
      tls_records_plaintext_handshake = 0;
    };
    lua = lua;
    keylog = keylog;
  };
  last_sweep = now;
  evicted_connections = 0;
  gap_abandoned_bytes = 0;
  connections_desynced = 0;
}

-- What the loop writes to the output and to the packet log.
pub record Written : Type 0 where
  pub output : List (List ℕ)
  pub packet_output : List (List ℕ)

abbrev push_text : Option (List ℕ) → Option (List (List ℕ)) → Option (List (List ℕ))
push_text none rest = none
push_text (some t) none = none
push_text (some t) (some rest) = some (t ∷ rest)

abbrev pub write_messages :
    (List ℕ → List ℕ) → MessageWriter → List (DecodedMessage FrameFields) → Option (List (List ℕ))
write_messages encode_hex w [] = some []
write_messages encode_hex w (msg ∷ messages) =
    push_text (write_tls_record encode_hex w msg) (write_messages encode_hex w messages)

-- The event of a packet, if there is a packet log.
abbrev pub log_event : Bool → MessageWriter → PacketEvent → Option (List (List ℕ))
log_event false w evt = some []
log_event true w evt = push_text (write_packet_event w evt) (some [])

-- What a round writes, in front of what the rounds behind it write.
abbrev pub joined :
    {O : Type 0}
    → Option (List (List ℕ))
    → Option (List (List ℕ))
    → Option (Written × O)
    → Option (Written × O)
joined none messages rest = none
joined (some events) none rest = none
joined (some events) (some messages) none = none
joined (some events) (some messages) (some (written, orch)) = some (
  record { output = messages ++ written.output; packet_output = events ++ written.packet_output },
  orch,
)

module _ (encode_hex : List ℕ → List ℕ) (from_ethernet from_ip : List ℕ → Option SlicedPacket)
    (crypto : Crypto) {L S : Type 0} (no_fields : FrameFields)
    (dissect : ℕ → List ℕ → L → Dissected FrameFields × L) (poll poll_after_miss : S → S)
    (current : S → Keylog) (config : OrchestratorConfig) (writer : MessageWriter)
    (has_packet_log : Bool) where
  -- A frame's round behind `process_frame`, with the rounds behind it. `none` is a panic.
  abbrev pub after_frame :
      (Orchestrator L S → Option (Written × Orchestrator L S))
      → PacketEvent × Option (List (DecodedMessage FrameFields) × Orchestrator L S)
      → Option (Written × Orchestrator L S)
  after_frame rest (evt, none) = none
  after_frame rest (evt, some (messages, orch)) =
      joined (log_event has_packet_log writer evt) (write_messages encode_hex writer messages)
        (rest orch)

  abbrev pub round :
      (Orchestrator L S → Option (Written × Orchestrator L S))
      → Clock
      → RawPacket
      → Option TcpFrame
      → Orchestrator L S
      → Option (Written × Orchestrator L S)
  round rest clock raw none orch = rest orch
  round rest clock raw (some frame) orch = after_frame rest (
      process_frame crypto no_fields dissect poll poll_after_miss current config clock frame
        raw.index raw.data' raw.timestamp orch)

  -- The loop of `run` over the packets of the stream, each with the times at which it is processed.
  pub run_packets :
      List (Clock × (RawPacket × DataLink)) → Orchestrator L S → Option (Written × Orchestrator L S)
  run_packets [] orch = some (record { output = []; packet_output = [] }, orch)
  run_packets ((clock, (raw, link_type)) ∷ packets) orch =
      round (λ after. run_packets packets after) clock raw
        (parse_tcp_frame from_ethernet from_ip link_type raw.data') orch
