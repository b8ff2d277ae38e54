-- ===== src/Main/Examples.antt =====
-- A run over two packets, in both formats, with the toy cryptography and the toy parser.
use tlscap.Prelude.{ℕ, ◌+◌, refl, none, some, List, [], ◌∷◌, arith}
use tlscap.Text.{codes}
use tlscap.Crypto.Toy.{toy, toy-Lawful}
use tlscap.Keylog.{Keylog, empty_keylog}
use tlscap.Fields.{FrameFields, empty}
use tlscap.Orchestrator.Records.{Dissected, Calm, fields}
use tlscap.Orchestrator.Frames.{OrchestratorConfig, Clock}
use tlscap.PcapInput.{DataLink, null, other}
use tlscap.PcapInput.Toy.{toy_parse, toy_parse-Inside}
use tlscap.PcapInput.Stream.{RawPacket}
use tlscap.Main.{Cli, given, validate, choose_writer, run_packets, new_orchestrator}
use tlscap.Main.Safety.{Runs, run_packets-Runs_validated}

abbrev cli : Cli
cli = record {
  rotate_count = some 100;
  rotate_seconds = none;
  format = codes "ndjson";
  packet_log = some (codes "log");
  ndjson_explode = none;
  ndjson_map = [];
  compress = some (codes "gzip");
  fields = codes "ip.src" ∷ codes "tcp.srcport" ∷ [];
  ek_index_prefix = codes "packets";
}

abbrev config : OrchestratorConfig
config = record {
  idle_timeout = some 60;
  sweep_interval = 10;
  pending_limits = record { max_bytes = 100; max_packets = 10; max_age = 30 };
  max_tail_bytes = 8;
}

abbrev dissect : ℕ → List ℕ → ℕ → Dissected FrameFields × ℕ
dissect port buf n = (fields empty 0, n + 1)

dissect-Calm : Calm dissect
dissect-Calm port buf n e = absurd (cc)

abbrev keep : Keylog → Keylog
keep keylog = keylog

abbrev at : ℕ → Clock
at now = record {
  activity = now;
  push_now = now;
  push_later = now;
  sweep_check = now;
  sweep_start = now;
  sweep_now = now;
}

abbrev packet_at : ℕ → RawPacket
packet_at index = record {
  index = index;
  data' = 0 ∷ 0 ∷ 0 ∷ 2 ∷ 1 ∷ 1 ∷ 22 ∷ 3 ∷ [];
  timestamp = 5_000_000_000;
}

abbrev packets : List (Clock × (RawPacket × DataLink))
packets = (at 100, (packet_at 0, null)) ∷ (at 101, (packet_at 1, other 9)) ∷ []

hex : List ℕ → List ℕ
hex bytes = bytes

run_packets-Runs_validated_example :
    Runs hex toy_parse toy_parse toy empty dissect keep keep keep config (
      run_packets hex toy_parse toy_parse toy empty dissect keep keep keep config
        (choose_writer cli)
        (given cli.packet_log)
        packets
        (new_orchestrator empty_keylog 0 50))
unfolding validate
run_packets-Runs_validated_example =
    run_packets-Runs_validated hex toy_parse toy_parse toy empty dissect keep keep keep config cli
      packets empty_keylog 0 50 refl (omega arith) toy-Lawful dissect-Calm toy_parse-Inside
      toy_parse-Inside
