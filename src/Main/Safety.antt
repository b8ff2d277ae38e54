-- ===== src/Main/Safety.antt =====
-- The whole run over a stream: it ends without a panic and writes lines.
use tlscap.Prelude.{
  ℕ, ◌≡◌, refl, ap, ap₂, Bool, true, false, Option, none, some, List, [], ◌∷◌, ◌++◌, Option-cases,
  inl, inr,
}
use tlscap.Text.{Plain}
use tlscap.Text.Lines.{IsLines}
use tlscap.Crypto.{Crypto, Lawful}
use tlscap.Keylog.{Keylog}
use tlscap.Fields.{FrameFields}
use tlscap.Orchestrator.Records.{Dissected, Calm, DecodedMessage}
use tlscap.Orchestrator.Frames.{PacketEvent, OrchestratorConfig, Orchestrator, Clock}
use tlscap.Orchestrator.Safety.{Invariant, process_frame-Invariant}
use tlscap.EkOutput.Ek.{write_message}
use tlscap.EkOutput.Ek.Lines.{write_message-IsLines}
use tlscap.EkOutput.Ndjson
use tlscap.EkOutput.Ndjson.{NdjsonWriter}
use tlscap.EkOutput.Ndjson.Objects.{write_packet_event-IsDocument}
use tlscap.EkOutput.Ndjson.Records.{write_tls_record-IsDocument}
use tlscap.EkOutput.Values.Grammar.{IsDocument-IsLines}
use tlscap.PcapInput.{DataLink, SlicedPacket, parse_tcp_frame}
use tlscap.PcapInput.Payload.{Inside, parse_tcp_frame-InPacket}
use tlscap.PcapInput.Stream.{RawPacket}
use tlscap.Main.Arguments.{WritesLines, can_log, choose_writer-can_log, choose_writer-WritesLines}
use tlscap.Main.{
  Cli, new_orchestrator, given, validate, MessageWriter, ek, ndjson, choose_writer, Written,
  push_text, write_messages, log_event, after_frame, run_packets,
}

-- Lines, each ended by a line feed.
pub record IsText (t : List ℕ) : Type 0 where
  pub count : ℕ
  pub lines : IsLines count t

pub AllTexts : List (List ℕ) → Type 0
AllTexts [] = Unit {0}
AllTexts (t ∷ ts) = IsText t × AllTexts ts

AllTexts-append : (ts us : List (List ℕ)) → AllTexts ts → AllTexts us → AllTexts (ts ++ us)
unfolding AllTexts
AllTexts-append [] us a b = b
AllTexts-append (t ∷ ts) us a b = (a.0, AllTexts-append ts us a.1 b)

-- Texts come, and they are lines.
record Texts (o : Option (List (List ℕ))) : Type 0 where
  texts : List (List ℕ)
  is : o ≡ some texts
  all : AllTexts texts

write_messages-Texts :
    (encode_hex : List ℕ → List ℕ) (writer : MessageWriter)
    (messages : List (DecodedMessage FrameFields))
    → WritesLines writer
    → Texts (write_messages encode_hex writer messages)
unfolding AllTexts
write_messages-Texts encode_hex writer [] p = record { texts = []; is = refl; all = tt }
write_messages-Texts encode_hex (ek w) (msg ∷ messages) p =
    let rest = write_messages-Texts encode_hex (ek w) messages p in
    let text = write_message encode_hex w msg in
    record {
      texts = text ∷ rest.texts;
      is = ap (push_text (some text)) rest.is;
      all = (record { count = 2; lines = write_message-IsLines encode_hex w msg p }, rest.all);
    }
write_messages-Texts encode_hex (ndjson w) (msg ∷ messages) p =
    let rest = write_messages-Texts encode_hex (ndjson w) messages p in
    let here = write_tls_record-IsDocument encode_hex w msg in
    record {
      texts = here.text ∷ rest.texts;
      is = ap₂ push_text here.is rest.is;
      all = (record { count = _; lines = IsDocument-IsLines _ here.text here.holds }, rest.all);
    }

log_event-Texts :
    (has_packet_log : Bool) (writer : MessageWriter) (evt : PacketEvent)
    → can_log has_packet_log writer ≡ true
    → Texts (log_event has_packet_log writer evt)
unfolding AllTexts
log_event-Texts false writer evt h = record { texts = []; is = refl; all = tt }
log_event-Texts true (ek w) evt h = absurd (cc)
log_event-Texts true (ndjson w) evt h =
    let text = Ndjson.write_packet_event w evt in
    record {
      texts = text ∷ [];
      is = refl;
      all = (
        record {
          count = 1;
          lines = IsDocument-IsLines 1 text (write_packet_event-IsDocument w evt);
        },
        tt,
      );
    }

module _ (encode_hex : List ℕ → List ℕ) (from_ethernet from_ip : List ℕ → Option SlicedPacket)
    (crypto : Crypto) {L S : Type 0} (no_fields : FrameFields)
    (dissect : ℕ → List ℕ → L → Dissected FrameFields × L) (poll poll_after_miss : S → S)
    (current : S → Keylog) (config : OrchestratorConfig) where
  abbrev pub Kept : Orchestrator L S → Type 0
  Kept orch = Invariant crypto no_fields dissect poll poll_after_miss current config orch

  -- A run comes to an end with what it has written and the orchestrator behind it.
  pub record Runs (o : Option (Written × Orchestrator L S)) : Type 0 where
    pub written : Written
    pub after : Orchestrator L S
    pub is : o ≡ some (written, after)
    pub output_lines : AllTexts written.output
    pub packet_output_lines : AllTexts written.packet_output
    pub kept : Kept after

  module _ (writer : MessageWriter) (has_packet_log : Bool) (law : Lawful crypto)
      (calm : Calm dissect) (ethernet_law : Inside from_ethernet) (ip_law : Inside from_ip)
      (lines : WritesLines writer) (can : can_log has_packet_log writer ≡ true) where
    after_frame-Runs :
        (rest : Orchestrator L S → Option (Written × Orchestrator L S))
        (result : PacketEvent × Option (List (DecodedMessage FrameFields) × Orchestrator L S))
        (out : List (DecodedMessage FrameFields)) (orch : Orchestrator L S)
        → result.1 ≡ some (out, orch)
        → Runs (rest orch)
        → Runs (
            after_frame encode_hex from_ethernet from_ip crypto no_fields dissect poll
              poll_after_miss current config writer has_packet_log rest result)
    after_frame-Runs rest (evt, found) out orch e runs =
        let events = log_event-Texts has_packet_log writer evt can in
        let messages = write_messages-Texts encode_hex writer out lines in
        let tail = runs.written in
        rw (e, events.is, messages.is, runs.is)
          (record {
            written = record {
              output = messages.texts ++ tail.output;
              packet_output = events.texts ++ tail.packet_output;
            };
            after = runs.after;
            is = refl;
            output_lines =
                AllTexts-append messages.texts tail.output messages.all runs.output_lines;
            packet_output_lines =
                AllTexts-append events.texts tail.packet_output events.all runs.packet_output_lines;
            kept = runs.kept;
          })

    run_packets-Runs :
        (packets : List (Clock × (RawPacket × DataLink))) (orch : Orchestrator L S)
        → Kept orch
        → Runs (
            run_packets encode_hex from_ethernet from_ip crypto no_fields dissect poll
              poll_after_miss current config writer has_packet_log packets orch)
    unfolding run_packets AllTexts
    run_packets-Runs [] orch i = record {
      written = record { output = []; packet_output = [] };
      after = orch;
      is = refl;
      output_lines = tt;
      packet_output_lines = tt;
      kept = i;
    }
    run_packets-Runs ((clock, (raw, link_type)) ∷ packets) orch i =
        elim (Option-cases (parse_tcp_frame from_ethernet from_ip link_type raw.data')) [
          | inl none' ↦ rw none' (run_packets-Runs packets orch i)
          | inr (frame, parsed) ↦
              let place =
                parse_tcp_frame-InPacket from_ethernet from_ip link_type raw.data' frame
                  ethernet_law ip_law parsed in
              let (out, after, is, i') =
                process_frame-Invariant crypto no_fields dissect poll poll_after_miss current config
                  clock frame raw.index raw.data' raw.timestamp orch law calm place.order
                  place.inside i in
              rw parsed (after_frame-Runs _ _ out after is (run_packets-Runs packets after i'))
        ]

-- For arguments that pass the checks, with a prefix of the index without control characters, a lawful
-- cryptography, dissectors that do not panic and a packet parser that finds payloads within its slices,
-- every sequence of packets is processed from the start to the end without a panic, whatever they hold:
-- every text that is handed to an output is whole lines, and the orchestrator's invariant holds after it.
pub run_packets-Runs_validated :
    (encode_hex : List ℕ → List ℕ) (from_ethernet from_ip : List ℕ → Option SlicedPacket)
    (crypto : Crypto) {L S : Type 0} (no_fields : FrameFields)
    (dissect : ℕ → List ℕ → L → Dissected FrameFields × L) (poll poll_after_miss : S → S)
    (current : S → Keylog) (config : OrchestratorConfig) (cli : Cli)
    (packets : List (Clock × (RawPacket × DataLink))) (keylog : S) (lua : L) (now : ℕ)
    → validate cli ≡ none
    → Plain cli.ek_index_prefix
    → Lawful crypto
    → Calm dissect
    → Inside from_ethernet
    → Inside from_ip
    → Runs encode_hex from_ethernet from_ip crypto no_fields dissect poll poll_after_miss current
        config
        (run_packets encode_hex from_ethernet from_ip crypto no_fields dissect poll poll_after_miss
          current config
          (choose_writer cli)
          (given cli.packet_log)
          packets
          (new_orchestrator keylog lua now))
unfolding new_orchestrator
run_packets-Runs_validated encode_hex from_ethernet from_ip crypto no_fields dissect poll
      poll_after_miss current config cli packets keylog lua now valid plain law calm ethernet_law
      ip_law =
    run_packets-Runs encode_hex from_ethernet from_ip crypto no_fields dissect poll poll_after_miss
      current config (choose_writer cli) (given cli.packet_log) law calm ethernet_law ip_law
      (choose_writer-WritesLines cli plain) (choose_writer-can_log cli valid) packets
      (new_orchestrator keylog lua now) (tt, refl)
